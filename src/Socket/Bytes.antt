-- ===== src/Socket/Bytes.antt =====
-- recv(2) on the connected stream: `s` is what the kernel holds for the descriptor, oldest first.
-- A read of `n` bytes is whole if the kernel holds as many.
use idk_overlay.Prelude.{
  ℕ, ◌≡◌, List, [], ◌∷◌, ◌++◌, Option, none, some, leb, if◌then◌else◌, length, take, drop,
  length-append, take-append, drop-append, arith,
}

-- recv(fd, p, n, MSG_PEEK | MSG_DONTWAIT) == n
unfoldable pub peek : ℕ → List ℕ → Option (List ℕ)
peek n s = if leb n (length s) then some (take n s) else none

-- recv(fd, p, n, MSG_DONTWAIT) == n, with what is left in the kernel
unfoldable pub recv : ℕ → List ℕ → Option (List ℕ × List ℕ)
recv n s = if leb n (length s) then some (take n s, drop n s) else none

-- recv(fd, &first, 1, MSG_PEEK | MSG_DONTWAIT)
abbrev pub peek_first : List ℕ → Option ℕ
peek_first [] = none
peek_first (b ∷ _) = some b

module _ (n : ℕ) (xs ys : List ℕ) (h : length xs ≡ n) where
  pub peek-append : peek n (xs ++ ys) ≡ some xs
  unfolding peek
  peek-append = ground (arith, length-append xs ys, take-append n xs ys)

  pub recv-append : recv n (xs ++ ys) ≡ some (xs, ys)
  unfolding recv
  recv-append = ground (arith, length-append xs ys, take-append n xs ys, drop-append n xs ys)
