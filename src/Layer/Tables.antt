-- ===== src/Layer/Tables.antt =====
-- src/hook/vklayer/tables.c: the tables' operations.
use idk_overlay.Prelude.{
  ℕ, suc, ◌-◌, ◌<◌, ◌≡◌, refl, sym, ap, ◌∙◌, List, [], ◌∷◌, true, false, ◌⊎◌, inl, inr, Option,
  none, some, ◌==◌, if◌then◌else◌, Bool-cases, arith,
}
use mathlib.Core.Option.{some-injective}
use idk_overlay.Layer.{find, put, clear, put_or}

module _ {A : Type 0} where
  -- How many slots are unused.
  abbrev pub free : List (Option A) → ℕ
  free [] = 0
  free (none ∷ slots) = suc (free slots)
  free (some e ∷ slots) = free slots

  -- The table after an entry was added, or the same where it is full.
  abbrev pub added : A → List (Option A) → List (Option A)
  added e slots = put_or (put e slots) slots

  -- A new entry takes a slot where there is one.
  pub put-free :
      (e : A) (slots : List (Option A))
      → ((put e slots ≡ none) × (free slots ≡ 0))
        ⊎ ((next : List (Option A)) × (put e slots ≡ some next) × (free slots ≡ suc (free next)))
  unfolding put
  put-free e [] = inl (refl, refl)
  put-free e (none ∷ slots) = inr (some e ∷ slots, refl, refl)
  put-free e (some x ∷ slots) = elim (put-free e slots) [
    | inl (p, f) ↦ inl (rw (p) refl, f)
    | inr (next, p, f) ↦ inr (some x ∷ next, rw (p) refl, f)
  ]

  added-some :
      (e x : A) (slots : List (Option A)) → added e (some x ∷ slots) ≡ some x ∷ added e slots
  unfolding put put_or
  added-some e x slots = go (put e slots)
    where
      go :
          (o : Option (List (Option A)))
          → put_or (elim o [ none ↦ none | some rest ↦ some (some x ∷ rest) ]) (some x ∷ slots)
            ≡ some x ∷ put_or o slots
      go none = refl
      go (some rest) = refl

  pub free-added : (e : A) (slots : List (Option A)) → free (added e slots) ≡ free slots - 1
  unfolding put put_or
  free-added e [] = omega arith
  free-added e (none ∷ slots) = omega arith
  free-added e (some x ∷ slots) = ap free (added-some e x slots) ∙ free-added e slots

  find-some :
      (key : A → ℕ) (h : ℕ) (x : A) (slots : List (Option A))
      → (((key x == h) ≡ true) × (find key h (some x ∷ slots) ≡ some x))
        ⊎ (((key x == h) ≡ false) × (find key h (some x ∷ slots) ≡ find key h slots))
  unfolding find
  find-some key h x slots = elim (Bool-cases (key x == h)) [
    | inl e ↦ inl (e, rw (e) refl)
    | inr e ↦ inr (e, rw (e) refl)
  ]

  -- Entries with other handles are found as before.
  pub find-added_other :
      (key : A → ℕ) (h : ℕ) (e : A) (slots : List (Option A))
      → (key e == h) ≡ false
      → find key h (added e slots) ≡ find key h slots
  unfolding find put put_or
  find-added_other key h e [] n = refl
  find-added_other key h e (none ∷ slots) n = rw (n) refl
  find-added_other key h e (some x ∷ slots) n =
      let tail : find key h (some x ∷ added e slots) ≡ find key h (some x ∷ slots) =
        elim (Bool-cases (key x == h)) [
          | inl t ↦ rw (t) refl
          | inr f ↦ rw (f) (find-added_other key h e slots n)
        ] in
      ap (find key h) (added-some e x slots) ∙ tail

  -- A new handle is found where there was room for it.
  pub find-added :
      (key : A → ℕ) (h : ℕ) (e : A) (slots : List (Option A))
      → (key e == h) ≡ true
      → find key h slots ≡ none
      → 0 < free slots
      → find key h (added e slots) ≡ some e
  unfolding find put put_or
  find-added key h e [] k n f = absurd (omega (arith, f))
  find-added key h e (none ∷ slots) k n f = rw (k) refl
  find-added key h e (some x ∷ slots) k n f =
      let tail : find key h (some x ∷ added e slots) ≡ some e = elim (find-some key h x slots) [
        | inl (t, g) ↦ absurd (ground (arith, g, n))
        | inr (g, m) ↦ rw (g) (find-added key h e slots k (sym m ∙ n) f)
      ] in
      ap (find key h) (added-some e x slots) ∙ tail

  -- What is found after clearing has another owner.
  pub find-clear :
      (key own : A → ℕ) (h d : ℕ) (slots : List (Option A)) (x : A)
      → find key h (clear own d slots) ≡ some x
      → (own x == d) ≡ false
  unfolding find clear
  find-clear key own h d [] x e = absurd (ground (arith, e))
  find-clear key own h d (none ∷ slots) x e = find-clear key own h d slots x e
  find-clear key own h d (some y ∷ slots) x e = elim (Bool-cases (own y == d)) [
    | inl t ↦ find-clear key own h d slots x (kept t)
    | inr f ↦ elim (find-some key h y (clear own d slots)) [
      | inl (t, g) ↦ ap (λ z. own z == d) (some-injective x y (sym (left f) ∙ g)) ∙ f
      | inr (t, g) ↦ find-clear key own h d slots x (sym g ∙ left f)
    ]
  ]
    where
      rest : List (Option A)
      rest = clear own d slots

      kept : (own y == d) ≡ true → find key h rest ≡ some x
      kept t = ap (λ b. find key h (if b then none ∷ rest else some y ∷ rest)) (sym t) ∙ e

      left : (own y == d) ≡ false → find key h (some y ∷ rest) ≡ some x
      left f = ap (λ b. find key h (if b then none ∷ rest else some y ∷ rest)) (sym f) ∙ e
