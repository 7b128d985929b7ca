-- ===== src/Chunks/Laws.antt =====
-- The loops on messages that arrive and leave in pieces.
use idk_overlay.Prelude.{
  ℕ, ◌+◌, ◌-◌, ◌≤◌, ◌<◌, ◌≡◌, refl, ap, sym, List, [], ◌∷◌, ◌++◌, length, length-append,
  append_assoc, append-nil, arith,
}
use idk_overlay.Prelude.Errno.{eintr}
use idk_overlay.Prelude.Io.{SysRet, ret, sys_fail}
use idk_overlay.Chunks.{Read, got, read_fail, whole, eof, read_all, send_all}

-- The results of reads that bring `size` bytes, `bytes`, in pieces, with interruptions between them.
pub data Pieces : ℕ → List ℕ → List Read → Type 0 where
  done : Pieces 0 [] []
  interrupted :
      {n : ℕ} {bs : List ℕ} {rs : List Read}
      → 0 < n
      → Pieces n bs rs
      → Pieces n bs (read_fail eintr ∷ rs)
  piece :
      {n k : ℕ} {bs cs : List ℕ} {rs : List Read}
      → 0 < length cs
      → k ≡ length cs + n
      → Pieces n bs rs
      → Pieces k (cs ++ bs) (got cs ∷ rs)

Pieces-length : {n : ℕ} {bs : List ℕ} {rs : List Read} → Pieces n bs rs → length bs ≡ n
Pieces-length done = refl
Pieces-length (interrupted h p) = Pieces-length p
Pieces-length (piece {bs = bs} {cs = cs} h e p) =
    omega (arith, length-append cs bs, Pieces-length p)

read_all-Pieces :
    {n : ℕ} {bs : List ℕ} {rs : List Read} (acc : List ℕ)
    → Pieces n bs rs
    → read_all n acc rs ≡ whole (acc ++ bs)
unfolding read_all
read_all-Pieces acc done = ap whole (sym (append-nil acc))
read_all-Pieces acc (interrupted h p) = ground (arith, read_all-Pieces acc p, h)
read_all-Pieces acc (piece {bs = bs} {cs = cs} h e p) =
    ground (arith, read_all-Pieces (acc ++ cs) p, append_assoc acc cs bs, e, h)

-- However the `n` bytes of a message are cut into non-empty reads, with interrupted calls between
-- them, the reading loops return exactly those bytes.
read_all-whole :
    {n : ℕ} {bs : List ℕ} {rs : List Read} → Pieces n bs rs → read_all n [] rs ≡ whole bs
read_all-whole p = read_all-Pieces [] p

-- No read brings more than was asked for.
abbrev pub Fits : ℕ → List Read → Type 0
Fits n [] = Unit
Fits n (got cs ∷ rs) = (length cs ≤ n) × Fits (n - length cs) rs
Fits n (read_fail e ∷ rs) = Fits n rs

pub read_all-length :
    (n : ℕ) (acc bs : List ℕ) (rs : List Read)
    → Fits n rs
    → read_all n acc rs ≡ whole bs
    → length bs ≡ length acc + n
unfolding read_all
read_all-length n acc bs [] f h = ground arith
read_all-length n acc bs (got cs ∷ rs) f h =
    ground (arith, f.0, length-append acc cs, read_all-length (n - length cs) (acc ++ cs) bs rs f.1)
read_all-length n acc bs (read_fail e ∷ rs) f h = ground (arith, read_all-length n acc bs rs f)

-- A message whose bytes end early is never taken for a whole one: at the end of the stream the
-- loops report it while bytes are wanted.
pub read_all-eof :
    (n : ℕ) (acc : List ℕ) (rs : List Read) → 0 < n → read_all n acc (got [] ∷ rs) ≡ eof
unfolding read_all
read_all-eof n acc rs h = ground arith

-- What the sends of a loop that writes `n` bytes return.
pub data Sends : ℕ → List SysRet → Type 0 where
  sent : Sends 0 []
  again : {n : ℕ} {rs : List SysRet} → 0 < n → Sends n rs → Sends n (sys_fail eintr ∷ rs)
  some_sent : {n k m : ℕ} {rs : List SysRet} → 0 < m → k ≡ m + n → Sends n rs → Sends k (ret m ∷ rs)

-- However the kernel cuts up the sends that take `n` bytes, with interrupted calls between them, the
-- writing loop succeeds.
send_all-whole : {n : ℕ} {rs : List SysRet} → Sends n rs → send_all n rs ≡ whole []
unfolding send_all
send_all-whole sent = refl
send_all-whole (again h s) = ground (arith, send_all-whole s, h)
send_all-whole (some_sent h e s) = ground (arith, send_all-whole s, e, h)
