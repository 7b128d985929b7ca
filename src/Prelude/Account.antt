-- ===== src/Prelude/Account.antt =====
-- How often a resource is held in a field or stands in a log: the accounts that the proofs keep.
use Prim.Native.Nat.{ℕ, ◌+◌}
use mathlib.Core.Path.{◌≡◌}
use mathlib.Core.List.{List, [], ◌∷◌, ◌++◌}
use mathlib.Core.Option.{Option, none, some}
use native.Mathlib.Omega.{arith}
use idk_overlay.Prelude.Tests.{◌==◌, if◌then◌else◌}

-- How often `n` stands in a list of handles, and in a field.
abbrev pub count : ℕ → List ℕ → ℕ
count n [] = 0
count n (x ∷ xs) = (if n == x then 1 else 0) + count n xs

abbrev pub held : ℕ → Option ℕ → ℕ
held n none = 0
held n (some x) = if n == x then 1 else 0

pub count-append : (n : ℕ) (xs ys : List ℕ) → count n (xs ++ ys) ≡ count n xs + count n ys
count-append n [] ys = omega arith
count-append n (x ∷ xs) ys = omega (arith, count-append n xs ys)
