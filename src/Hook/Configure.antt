-- ===== src/Hook/Configure.antt =====
-- src/hook/input/wayland/hotkey.c: configure_hotkey, the capture hotkey from IDK_HOTKEY_CAPTURE. A string
-- is the list of its character codes; what xkb_keysym_from_name answers is an argument, and 0 is "no key".
use idk_overlay.Prelude.{
  ℕ, ◌+◌, ◌≡◌, refl, ap, ◌∙◌, List, [], ◌∷◌, ◌++◌, ◌⊎◌, length-append, Bool, true, false, not, ◌&&◌,
  ◌||◌, Option, none, some, ltb, leb, ◌==◌, if◌then◌else◌, length, if_holds, inl, inr, arith,
}
use idk_overlay.Hook.{Hotkey}

-- strcmp(a, b) == 0
unfoldable pub same_string : List ℕ → List ℕ → Bool
same_string [] [] = true
same_string [] (y ∷ ys) = false
same_string (x ∷ xs) [] = false
same_string (x ∷ xs) (y ∷ ys) = (x == y) && same_string xs ys

-- tolower in the C locale
abbrev lower : ℕ → ℕ
lower c = if leb 65 c && leb c 90 then c + 32 else c

-- strcasecmp(a, b) == 0
unfoldable pub same_letters : List ℕ → List ℕ → Bool
same_letters [] [] = true
same_letters [] (y ∷ ys) = false
same_letters (x ∷ xs) [] = false
same_letters (x ∷ xs) (y ∷ ys) = (lower x == lower y) && same_letters xs ys

-- struct hotkey_name_to_scancode
pub record Named : Type 0 where
  pub name : List ℕ
  pub scancode : ℕ
  pub keysym : ℕ

-- HOTKEY_TABLE
abbrev pub hotkey_table : List Named
hotkey_table =
    record { name = 84 ∷ 97 ∷ 98 ∷ []; scancode = 15; keysym = 65289 }
    ∷ record { name = 70 ∷ 49 ∷ []; scancode = 59; keysym = 65470 }
    ∷ record { name = 70 ∷ 50 ∷ []; scancode = 60; keysym = 65471 }
    ∷ record { name = 70 ∷ 51 ∷ []; scancode = 61; keysym = 65472 }
    ∷ record { name = 70 ∷ 52 ∷ []; scancode = 62; keysym = 65473 }
    ∷ record { name = 70 ∷ 53 ∷ []; scancode = 63; keysym = 65474 }
    ∷ record { name = 70 ∷ 54 ∷ []; scancode = 64; keysym = 65475 }
    ∷ record { name = 70 ∷ 55 ∷ []; scancode = 65; keysym = 65476 }
    ∷ record { name = 70 ∷ 56 ∷ []; scancode = 66; keysym = 65477 }
    ∷ record { name = 70 ∷ 57 ∷ []; scancode = 67; keysym = 65478 }
    ∷ record { name = 70 ∷ 49 ∷ 48 ∷ []; scancode = 68; keysym = 65479 }
    ∷ record { name = 70 ∷ 49 ∷ 49 ∷ []; scancode = 87; keysym = 65480 }
    ∷ record { name = 70 ∷ 49 ∷ 50 ∷ []; scancode = 88; keysym = 65481 }
    ∷ record {
      name = 83 ∷ 99 ∷ 114 ∷ 111 ∷ 108 ∷ 108 ∷ 95 ∷ 76 ∷ 111 ∷ 99 ∷ 107 ∷ [];
      scancode = 70;
      keysym = 65300;
    }
    ∷ record { name = 80 ∷ 97 ∷ 117 ∷ 115 ∷ 101 ∷ []; scancode = 119; keysym = 65299 }
    ∷ []

-- The loops over the table: the first entry with the name.
unfoldable pub find_named : List ℕ → List Named → Option Named
unfolding same_string
find_named key [] = none
find_named key (e ∷ table) =
    let rest = find_named key table in if same_string key e.name then some e else rest

-- strchr(env, '+'): what stands before the first plus sign, and after it.
unfoldable pub split_plus : List ℕ → Option (List ℕ × List ℕ)
split_plus [] = none
split_plus (c ∷ cs) =
    let rest = split_plus cs in
    if c == 43 then some ([], cs) else elim rest [ none ↦ none | some p ↦ some (c ∷ p.0, p.1) ]

-- The value of a modifier's name, 0 for one that is not known.
unfoldable pub mods_named : List ℕ → ℕ
unfolding same_letters
mods_named m =
    if same_letters m (83 ∷ 104 ∷ 105 ∷ 102 ∷ 116 ∷ [])
    then 2
    else if same_letters m (67 ∷ 116 ∷ 114 ∷ 108 ∷ [])
    then 1
    else if same_letters m (65 ∷ 108 ∷ 116 ∷ [])
    then 4
    else if same_letters m (83 ∷ 117 ∷ 112 ∷ 101 ∷ 114 ∷ [])
    then 8
    else 0

-- The modifier and the key's name; `mod` has room for 31 characters.
unfoldable pub parse_hotkey : Option (List ℕ × List ℕ) → List ℕ → ℕ × List ℕ
unfolding mods_named
parse_hotkey none env = (0, env)
parse_hotkey (some (before, after)) env =
    if (length before == 0) || not (ltb (length before) 32)
    then (0, env)
    else (mods_named before, after)

abbrev pub shift_tab : Hotkey
shift_tab = record { keysym = 65289; scancode = 15; mods = 2 }

unfoldable pub from_table : ℕ → Option Named → Hotkey
from_table mods none = shift_tab
from_table mods (some e) = record { keysym = e.keysym; scancode = e.scancode; mods = mods }

-- Where xkb knows the name: the scancode stays what it was, unless the table has the name too.
unfoldable pub from_xkb : ℕ → ℕ → Option Named → Hotkey → Hotkey
from_xkb mods keysym none h = record h { keysym = keysym; mods = mods }
from_xkb mods keysym (some e) h = record { keysym = keysym; scancode = e.scancode; mods = mods }

unfoldable pub set_hotkey : (List ℕ → ℕ) → ℕ × List ℕ → Hotkey → Hotkey
unfolding from_xkb from_table find_named
set_hotkey keysym_from_name (mods, key) h =
    if keysym_from_name key == 0
    then from_table mods (find_named key hotkey_table)
    else from_xkb mods (keysym_from_name key) (find_named key hotkey_table) h

-- "Shift+Tab"
abbrev default_hotkey : List ℕ
default_hotkey = 83 ∷ 104 ∷ 105 ∷ 102 ∷ 116 ∷ 43 ∷ 84 ∷ 97 ∷ 98 ∷ []

-- configure_hotkey; without libxkbcommon the function is constantly 0. An unset variable is [].
unfoldable pub configure_hotkey : (List ℕ → ℕ) → List ℕ → Hotkey → Hotkey
unfolding set_hotkey parse_hotkey split_plus
configure_hotkey keysym_from_name env h =
    let name = if length env == 0 then default_hotkey else env in
    set_hotkey keysym_from_name (parse_hotkey (split_plus name) name) h

-- No plus sign stands in a string.
abbrev pub IsPlain : List ℕ → Type 0
IsPlain [] = Unit
IsPlain (c ∷ cs) = ((c == 43) ≡ false) × IsPlain cs

split_plus-append :
    (before after : List ℕ)
    → IsPlain before
    → split_plus (before ++ (43 ∷ after)) ≡ some (before, after)
unfolding split_plus
split_plus-append [] after p = refl
split_plus-append (c ∷ cs) after (n, p) = rw (n) (rw (split_plus-append cs after p) refl)

-- A key of the table that xkb knows under the table's number or not at all.
set_hotkey-named :
    (keysym_from_name : List ℕ → ℕ) (mods : ℕ) (key : List ℕ) (e : Named) (h : Hotkey)
    → find_named key hotkey_table ≡ some e
    → (keysym_from_name key ≡ 0) ⊎ (keysym_from_name key ≡ e.keysym)
    → set_hotkey keysym_from_name (mods, key) h
      ≡ record { keysym = e.keysym; scancode = e.scancode; mods = mods }
unfolding set_hotkey from_table from_xkb
set_hotkey-named f mods key e h n k =
    if_holds (λ (r : Hotkey). r ≡ named) (f key == 0) _ _ (λ t. ap (from_table mods) n)
      (λ t. ap (λ o. from_xkb mods (f key) o h) n ∙ known t k)
  where
    named : Hotkey
    named = record { keysym = e.keysym; scancode = e.scancode; mods = mods }

    known :
        (f key == 0) ≡ false
        → (f key ≡ 0) ⊎ (f key ≡ e.keysym)
        → from_xkb mods (f key) (some e) h ≡ named
    known t (inl z) = absurd (ground (arith, t, z))
    known t (inr z) = ap (λ x. from_xkb mods x (some e) h) z

-- IDK_HOTKEY_CAPTURE set to a modifier of 1 to 31 characters without a plus sign, a plus sign and the name
-- of a key of the table, which xkb knows under the table's number or not at all: the capture hotkey gets
-- the key's numbers, and the modifier's bit, or no modifier where the name is not known.
pub configure_hotkey-named :
    (keysym_from_name : List ℕ → ℕ) (before after : List ℕ) (e : Named) (h : Hotkey)
    → IsPlain before
    → (length before == 0) ≡ false
    → ltb (length before) 32 ≡ true
    → find_named after hotkey_table ≡ some e
    → (keysym_from_name after ≡ 0) ⊎ (keysym_from_name after ≡ e.keysym)
    → configure_hotkey keysym_from_name (before ++ (43 ∷ after)) h
      ≡ record { keysym = e.keysym; scancode = e.scancode; mods = mods_named before }
unfolding configure_hotkey parse_hotkey
configure_hotkey-named f before after e h p n s k x =
    if_holds
      (λ (name : List ℕ).
        set_hotkey f (parse_hotkey (split_plus name) name) h
        ≡ record { keysym = e.keysym; scancode = e.scancode; mods = mods_named before })
      (length (before ++ (43 ∷ after)) == 0) default_hotkey (before ++ (43 ∷ after))
      (λ t. absurd (ground (arith, t, length-append before (43 ∷ after))))
      (λ t.
        ap (λ o. set_hotkey f (parse_hotkey o (before ++ (43 ∷ after))) h)
          (split_plus-append before after p)
        ∙ ap
            (λ b.
              set_hotkey f
                (if b || not (ltb (length before) 32)
                  then (0, before ++ (43 ∷ after))
                  else (mods_named before, after))
                h)
            n
        ∙ ap
            (λ b.
              set_hotkey f
                (if not b then (0, before ++ (43 ∷ after)) else (mods_named before, after)) h)
            s
        ∙ set_hotkey-named f (mods_named before) after e h k x)
