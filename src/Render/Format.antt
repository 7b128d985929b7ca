-- ===== src/Render/Format.antt =====
-- src/core/render/vk/format.c, src/core/compositor/helpers.c: formats, memory types and vendors.
use idk_overlay.Prelude.{
  ℕ, suc, ◌/◌, ◌%◌, ◌^◌, List, [], ◌∷◌, Bool, true, not, ◌&&◌, Option, none, some, ◌==◌,
  if◌then◌else◌,
}

-- The VkFormat values that drm_fourcc_to_vk_format returns.
pub data VkFormat : Type 0 where
  r8g8b8a8_unorm b8g8r8a8_unorm a8b8g8r8_unorm_pack32 : VkFormat

-- drm_fourcc_to_vk_format
unfoldable pub drm_fourcc_to_vk_format : ℕ → VkFormat
drm_fourcc_to_vk_format fourcc =
    if fourcc == 0x34324241
    then r8g8b8a8_unorm
    else if fourcc == 0x34325241
    then b8g8r8a8_unorm
    else if fourcc == 0x34324258
    then r8g8b8a8_unorm
    else if fourcc == 0x34325258
    then b8g8r8a8_unorm
    else if fourcc == 0x34324152
    then a8b8g8r8_unorm_pack32
    else if fourcc == 0x34324142
    then b8g8r8a8_unorm
    else r8g8b8a8_unorm

-- Bit `i` of a mask.
abbrev pub has_bit : ℕ → ℕ → Bool
has_bit mask i = ((mask / 2 ^ i) % 2) == 1

-- VK_MEMORY_PROPERTY_DEVICE_LOCAL_BIT and VK_MEMORY_PROPERTY_HOST_VISIBLE_BIT, by bit number
abbrev pub device_local : ℕ
device_local = 0

abbrev pub host_visible : ℕ
host_visible = 1

-- The loops of find_mem_type and dmabuf_bind_memory: the first type, from number `i` on, whose
-- number is allowed and whose flags fit.
unfoldable pub first_type : (ℕ → Bool) → (ℕ → Bool) → List ℕ → ℕ → Option ℕ
first_type allows fits [] i = none
first_type allows fits (flags ∷ types) i =
    let rest = first_type allows fits types (suc i) in
    if allows i && fits flags then some i else rest

-- find_mem_type over the propertyFlags of the memory types; `prop` is one bit, by its number, and
-- `none` stands for 0xFFFFFFFF.
unfoldable pub find_mem_type : List ℕ → ℕ → ℕ → Option ℕ
find_mem_type types bits prop = first_type (has_bit bits) (λ flags. has_bit flags prop) types 0

-- IDK_DRM_MOD_VENDOR, IDK_DRM_FORMAT_MOD_INVALID
abbrev pub mod_vendor : ℕ → ℕ
mod_vendor modifier = (modifier / 72057594037927936) % 256

abbrev pub mod_invalid : ℕ
mod_invalid = 72057594037927935

-- dmabuf_vendor_check: whether it returns 0; `vendor` is vk_drm_vendor_id.
unfoldable pub dmabuf_vendor_check : ℕ → ℕ → Bool
dmabuf_vendor_check vendor modifier =
    if not (vendor == 0) && not (modifier == 0) && not (modifier == mod_invalid)
    then mod_vendor modifier == vendor
    else true

-- idk_vk_vendor_to_drm
unfoldable pub vendor_to_drm : ℕ → ℕ
vendor_to_drm v = if v == 0x10DE then 3 else if v == 0x8086 then 1 else if v == 0x1002 then 2 else 0
