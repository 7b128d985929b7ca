-- ===== src/Layer.antt =====
-- src/hook/vklayer: the Vulkan layer's tables of instances, devices, swapchains and queues, and the hooked
-- calls that use them. A handle is a number, of which 0 is VK_NULL_HANDLE; a slot that is not used is
-- `none`. Of a function that the next layer gives only whether there is one is kept. A call that the
-- layer itself refuses with VK_ERROR_INITIALIZATION_FAILED answers `none`, and `some` has the next
-- layer's result, 0 for VK_SUCCESS. Every hook holds g_dispatch_lock while it uses the tables.
pub mod Tables
pub mod Present
pub mod Drawing
pub mod Queues
pub mod Destroyed
use idk_overlay.Prelude.{
  ℕ, zero, suc, List, [], ◌∷◌, ◌++◌, Bool, true, false, not, ◌&&◌, ◌||◌, Option, none, some,
  is_some, ltb, ◌==◌, if◌then◌else◌, length, replicate,
}

-- device_dispatch
pub record Device : Type 0 where
  pub device : ℕ
  pub destroy : Bool
  pub create_swapchain : Bool
  pub destroy_swapchain : Bool
  pub queue_present : Bool
  pub get_images : Bool
  pub get_queue : Bool

-- swapchain_data
pub record Swapchain : Type 0 where
  pub swapchain : ℕ
  pub owner : ℕ
  pub width : ℕ
  pub height : ℕ
  pub format : ℕ

-- queue_data
pub record Queue : Type 0 where
  pub queue : ℕ
  pub owner : ℕ

module _ {A : Type 0} where
  -- The loops of the find functions: the first used slot with the handle.
  unfoldable pub find : (A → ℕ) → ℕ → List (Option A) → Option A
  find key h [] = none
  find key h (none ∷ slots) = find key h slots
  find key h (some e ∷ slots) = let rest = find key h slots in if key e == h then some e else rest

  -- The loops of the new functions: the first unused slot, or `none` where there is none.
  unfoldable pub put : A → List (Option A) → Option (List (Option A))
  put e [] = none
  put e (none ∷ slots) = some (some e ∷ slots)
  put e (some x ∷ slots) = elim (put e slots) [ none ↦ none | some rest ↦ some (some x ∷ rest) ]

  -- memset of the slot that the find function answers.
  unfoldable pub remove : (A → ℕ) → ℕ → List (Option A) → List (Option A)
  remove key h [] = []
  remove key h (none ∷ slots) = none ∷ remove key h slots
  remove key h (some e ∷ slots) =
      let rest = remove key h slots in if key e == h then none ∷ slots else some e ∷ rest

  -- The loops of remove_device: every used slot with the handle.
  unfoldable pub clear : (A → ℕ) → ℕ → List (Option A) → List (Option A)
  clear key h [] = []
  clear key h (none ∷ slots) = none ∷ clear key h slots
  clear key h (some e ∷ slots) =
      let rest = clear key h slots in if key e == h then none ∷ rest else some e ∷ rest

  -- A new entry, where there is room for it.
  unfoldable pub put_or : Option (List (Option A)) → List (Option A) → List (Option A)
  put_or none slots = slots
  put_or (some next) slots = next

-- The tables; an instance's entry is its handle and whether it can be destroyed.
pub record Layer : Type 0 where
  pub instances : List (Option (ℕ × Bool))
  pub devices : List (Option Device)
  pub swapchains : List (Option Swapchain)
  pub queues : List (Option Queue)

-- MAX_INSTANCES, MAX_DEVICES, MAX_SWAPCHAINS, MAX_QUEUES
abbrev pub no_entries : Layer
no_entries = record {
  instances = replicate 4 none;
  devices = replicate 8 none;
  swapchains = replicate 16 none;
  queues = replicate 16 none;
}

unfoldable pub find_device : ℕ → Layer → Option Device
unfolding find
find_device h l = find (λ (d : Device). d.device) h l.devices

unfoldable pub find_swapchain : ℕ → Layer → Option Swapchain
unfolding find
find_swapchain h l = find (λ (s : Swapchain). s.swapchain) h l.swapchains

unfoldable pub owner_of : Option Queue → Option ℕ
owner_of none = none
owner_of (some q) = some q.owner

-- VK_NULL_HANDLE is `none`.
unfoldable pub find_device_for_queue : ℕ → Layer → Option ℕ
unfolding find owner_of
find_device_for_queue h l = owner_of (find (λ (q : Queue). q.queue) h l.queues)

unfoldable pub remove_device : ℕ → Layer → Layer
unfolding remove clear
remove_device h l = record l {
  devices = remove (λ (d : Device). d.device) h l.devices;
  swapchains = clear (λ (s : Swapchain). s.owner) h l.swapchains;
  queues = clear (λ (q : Queue). q.owner) h l.queues;
}

-- idk_CreateInstance and idk_DestroyInstance, as far as the table goes.
unfoldable pub create_instance : ℕ → ℕ → Bool → Layer → Layer
unfolding put put_or
create_instance result h destroy l =
    if result == 0
    then record l { instances = put_or (put (h, destroy) l.instances) l.instances }
    else l

unfoldable pub destroy_instance : ℕ → Layer → Layer
unfolding remove
destroy_instance h l = record l { instances = remove (λ (i : ℕ × Bool). i.0) h l.instances }

-- idk_CreateDevice after the next layer's call: the device with its functions.
unfoldable pub create_device : ℕ → Device → Layer → Layer
unfolding put put_or
create_device result d l =
    if result == 0 then record l { devices = put_or (put d l.devices) l.devices } else l

-- idk_DestroyDevice
unfoldable pub destroy_device : ℕ → Layer → Layer
unfolding remove_device
destroy_device h l = remove_device h l

abbrev can_create : Option Device → Bool
can_create none = false
can_create (some d) = d.create_swapchain

abbrev pub can_present : Option Device → Bool
can_present none = false
can_present (some d) = d.queue_present

-- idk_CreateSwapchainKHR, with the next layer's result, and what it creates.
unfoldable pub create_swapchain : ℕ → ℕ → Swapchain → Layer → Option ℕ × Layer
unfolding find_device put put_or
create_swapchain device result s l =
    if not (can_create (find_device device l))
    then (none, l)
    else if not (result == 0)
    then (some result, l)
    else (some result, record l { swapchains = put_or (put s l.swapchains) l.swapchains })

-- idk_DestroySwapchainKHR
unfoldable pub destroy_swapchain : ℕ → Layer → Layer
unfolding remove
destroy_swapchain h l = record l {
  swapchains = remove (λ (s : Swapchain). s.swapchain) h l.swapchains;
}

-- idk_GetDeviceQueue, where *pQueue is `queue` after the next layer's call.
unfoldable pub get_device_queue : ℕ → ℕ → Layer → Layer
unfolding put put_or
get_device_queue device queue l = if queue == 0 then l else record l {
  queues = put_or (put (record { queue = queue; owner = device }) l.queues) l.queues;
}

-- The device whose vkQueuePresentKHR idk_QueuePresentKHR calls for a queue, if it calls one.
unfoldable pub present_device : ℕ → Layer → Option ℕ
unfolding find_device find_device_for_queue
present_device queue l = elim (find_device_for_queue queue l) [
  | none ↦ none
  | some device ↦ if can_present (find_device device l) then some device else none
]

-- The extensions that idk_CreateDevice asks for: those of the game, then the two for DMA-BUFs that are not
-- among them. A name is a number.
unfoldable pub member : ℕ → List ℕ → Bool
member n [] = false
member n (x ∷ xs) = (x == n) || member n xs

unfoldable pub add_extension : ℕ → List ℕ → List ℕ
unfolding member
add_extension n names = if member n names then names else names ++ (n ∷ [])

unfoldable pub inject_extensions : List ℕ → List ℕ → List ℕ
unfolding add_extension
inject_extensions [] names = names
inject_extensions (n ∷ wanted) names = inject_extensions wanted (add_extension n names)
