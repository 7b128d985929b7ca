-- ===== src/Wire/Bytes.antt =====
-- The bytes of `idk_ack_msg_t` (16, naturally aligned) and of a tagged `idk_request_msg_t` (8).
use idk_overlay.Prelude.{
  ℕ, ◌+◌, ◌-◌, ◌*◌, ◌/◌, ◌%◌, ◌^◌, ◌<◌, ◌≤◌, ◌≡◌, refl, List, [], ◌∷◌, ◌++◌, Bool, ◌==◌,
  if◌then◌else◌, length, replicate, arith,
}
use idk_overlay.Wire.{Ack, Request}

abbrev pub ack_size : ℕ
ack_size = 16

abbrev pub request_size : ℕ
request_size = 8

-- A little-endian int32_t.
unfoldable pub le32 : ℕ → List ℕ
le32 n = (n % 256) ∷ ((n / 256) % 256) ∷ ((n / 65536) % 256) ∷ ((n / 16777216) % 256) ∷ []

unfoldable pub of_le32 : ℕ → ℕ → ℕ → ℕ → ℕ
of_le32 a b c d = a + 256 * b + 65536 * c + 16777216 * d

-- offset 0: ack; 4: w; 8: h; 12: _pad, all padding cleared by `memset`
unfoldable pub encode_ack : Ack → List ℕ
unfolding le32
encode_ack a = (a.code ∷ 0 ∷ 0 ∷ 0 ∷ []) ++ (le32 a.w ++ (le32 a.h ++ (0 ∷ 0 ∷ 0 ∷ 0 ∷ [])))

unfoldable pub decode_ack : List ℕ → Ack
unfolding of_le32
decode_ack (c ∷ _ ∷ _ ∷ _ ∷ w0 ∷ w1 ∷ w2 ∷ w3 ∷ h0 ∷ h1 ∷ h2 ∷ h3 ∷ _) = record {
  code = c;
  w = of_le32 w0 w1 w2 w3;
  h = of_le32 h0 h1 h2 h3;
}
decode_ack _ = record { code = 0; w = 0; h = 0 }

-- TP_S_REQUEST_TAG is 0x80: `b & 0x80`, `b | 0x80` and `b & ~0x80` on a byte.
abbrev pub has_tag : ℕ → Bool
has_tag b = ((b / 128) % 2) == 1

abbrev pub set_tag : ℕ → ℕ
set_tag b = if has_tag b then b else b + 128

abbrev pub clear_tag : ℕ → ℕ
clear_tag b = if has_tag b then b - 128 else b

-- What `tp_socket_send_request` writes: the type with its tag, and seven bytes of padding.
unfoldable pub encode_request : Request → List ℕ
encode_request r = set_tag r ∷ replicate 7 0

pub record IsAck (a : Ack) : Type 0 where
  pub code_range : a.code ≤ 2
  pub w_range : a.w < 2 ^ 31
  pub h_range : a.h < 2 ^ 31

le32-of_le32 :
    (n : ℕ)
    → n < 2 ^ 31
    → of_le32 (n % 256) ((n / 256) % 256) ((n / 65536) % 256) ((n / 16777216) % 256) ≡ n
unfolding of_le32
le32-of_le32 n h = omega arith

-- An ACK whose code is one of the three and whose sides are not negative as int32_t is read back from
-- its sixteen bytes as it was written.
pub decode_ack-encode_ack : (a : Ack) → IsAck a → decode_ack (encode_ack a) ≡ a
unfolding decode_ack encode_ack
decode_ack-encode_ack a v = λ i. record {
  code = a.code;
  w = le32-of_le32 a.w v.w_range i;
  h = le32-of_le32 a.h v.h_range i;
}

pub length-encode_ack : (a : Ack) → length (encode_ack a) ≡ ack_size
unfolding encode_ack
length-encode_ack a = refl

pub length-encode_request : (r : Request) → length (encode_request r) ≡ request_size
unfolding encode_request
length-encode_request r = refl
