-- ===== src/Hook/Cursor/Ledger.antt =====
-- The buffers that src/hook/input/wayland/sidecar/cursor.c makes, over any history of calls.
use idk_overlay.Prelude.{
  ℕ, ◌+◌, ◌≡◌, refl, ap, ◌∙◌, List, [], ◌∷◌, ◌++◌, Bool, true, false, not, ◌||◌, Option, none, some,
  is_some, Option-cases, ◌==◌, if◌then◌else◌, if_holds, arith, Bool-cases, inl, inr,
}
use idk_overlay.Prelude.Account.{count, held}
use idk_overlay.Wire.{CursorUpdate}
use idk_overlay.Hook.Cursor.{
  Resource, Cursors, Wayland, hide, cursor_custom, release_list, cursor_buffer_release,
  cleanup_loop, cleanup_retired_cursors, retire_custom_cursor, create_custom_cursor, show_custom,
  show_shape, sidecar_ensure_cursor_shape_device, show_cursor, serial_of, cursor_dispatch,
  cursor_capture_changed, cursor_shutdown,
}

abbrev pub buffers : List Resource → List ℕ
buffers [] = []
buffers (r ∷ rs) = r.buffer ∷ buffers rs

abbrev pub in_custom : ℕ → Option Resource → ℕ
in_custom n none = 0
in_custom n (some r) = held n (some r.buffer)

-- Buffer `n`: on the pointer, retired, destroyed with its resource, or destroyed without one.
abbrev pub buffer_account : ℕ → Cursors → ℕ
buffer_account n s =
    in_custom n s.custom
    + count n (buffers s.retired)
    + count n (buffers s.destroyed)
    + count n s.scrapped

-- How many resources of a list the compositor has not released.
abbrev pub unreleased : List Resource → ℕ
unreleased [] = 0
unreleased (r ∷ rs) = (if r.released then 0 else 1) + unreleased rs

-- Every buffer made is accounted for, and `k` resources were destroyed while the compositor could still
-- read their buffers.
pub record IsBalanced (k : ℕ) (s : Cursors) : Type 0 where
  pub balance : (n : ℕ) → buffer_account n s ≡ count n s.made
  pub released : unreleased s.destroyed ≡ k

-- The resources in use that the compositor has not released.
abbrev pub in_use : Cursors → ℕ
in_use s =
    (elim s.custom [ none ↦ 0 | some r ↦ if r.released then 0 else 1 ]) + unreleased s.retired

buffers-append :
    (n : ℕ) (rs ts : List Resource)
    → count n (buffers (rs ++ ts)) ≡ count n (buffers rs) + count n (buffers ts)
buffers-append n [] ts = omega arith
buffers-append n (r ∷ rs) ts = omega (arith, buffers-append n rs ts)

unreleased-append : (rs ts : List Resource) → unreleased (rs ++ ts) ≡ unreleased rs + unreleased ts
unreleased-append [] ts = omega arith
unreleased-append (r ∷ rs) ts = omega (arith, unreleased-append rs ts)

cleanup_loop-account :
    (n : ℕ) (rs : List Resource)
    → (count n (buffers (cleanup_loop rs).0) + count n (buffers (cleanup_loop rs).1)
        ≡ count n (buffers rs))
      × (unreleased (cleanup_loop rs).1 ≡ 0)
unfolding cleanup_loop
cleanup_loop-account n [] = (omega arith, refl)
cleanup_loop-account n (r ∷ rs) = elim (Bool-cases r.released) [
  | inl e ↦ ground (arith, e, cleanup_loop-account n rs)
  | inr e ↦ ground (arith, e, cleanup_loop-account n rs)
]

release_list-buffers :
    (n m : ℕ) (rs : List Resource) → count n (buffers (release_list m rs)) ≡ count n (buffers rs)
release_list-buffers n m [] = refl
release_list-buffers n m (r ∷ rs) = ground (arith, release_list-buffers n m rs)

cleanup-IsBalanced :
    {k : ℕ} (s : Cursors) → IsBalanced k s → IsBalanced k (cleanup_retired_cursors s)
unfolding cleanup_retired_cursors
cleanup-IsBalanced s h = record {
  balance = λ n. omega (
    arith,
    h.balance n,
    cleanup_loop-account n s.retired,
    buffers-append n (cleanup_loop s.retired).1 s.destroyed,
  );
  released = omega (
    arith,
    h.released,
    cleanup_loop-account 0 s.retired,
    unreleased-append (cleanup_loop s.retired).1 s.destroyed,
  );
}

release-IsBalanced :
    {k : ℕ} (s : Cursors) (m : ℕ) → IsBalanced k s → IsBalanced k (cursor_buffer_release s m)
unfolding cursor_buffer_release
release-IsBalanced s m h = record {
  balance = λ n. ground (arith, h.balance n, release_list-buffers n m s.retired);
  released = h.released;
}

retire-IsBalanced : {k : ℕ} (s : Cursors) → IsBalanced k s → IsBalanced k (retire_custom_cursor s)
unfolding retire_custom_cursor
retire-IsBalanced s h = record {
  balance = λ n. ground (arith, h.balance n);
  released = ground (arith, h.released);
}

create_custom_cursor-account :
    (n : ℕ) (s : Cursors) (w : Wayland)
    → buffer_account n s ≡ count n s.made
    → buffer_account n (create_custom_cursor s w).1 + in_custom n (create_custom_cursor s w).0
      ≡ count n (create_custom_cursor s w).1.made
unfolding create_custom_cursor
create_custom_cursor-account n s w h = ground (arith, h)

create_custom_cursor-destroyed :
    (s : Cursors) (w : Wayland) → (create_custom_cursor s w).1.destroyed ≡ s.destroyed
unfolding create_custom_cursor
create_custom_cursor-destroyed s w = ground arith

show_custom-IsBalanced :
    {k : ℕ} (p : Option Resource × Cursors) (u : CursorUpdate) (serial generation : ℕ)
    → ((n : ℕ) → buffer_account n p.1 + in_custom n p.0 ≡ count n p.1.made)
    → unreleased p.1.destroyed ≡ k
    → IsBalanced k (show_custom p u serial generation)
unfolding show_custom retire_custom_cursor
show_custom-IsBalanced (none, s) u serial generation h d = record {
  balance = λ n. omega (arith, h n);
  released = d;
}
show_custom-IsBalanced (some r, s) u serial generation h d = record {
  balance = λ n. ground (arith, h n);
  released = ground (arith, d);
}

show_shape-IsBalanced :
    {k : ℕ} (s : Cursors) (w : Wayland) (u : CursorUpdate) (serial generation : ℕ)
    → IsBalanced k s
    → IsBalanced k (show_shape s w u serial generation)
unfolding show_shape sidecar_ensure_cursor_shape_device retire_custom_cursor
show_shape-IsBalanced s w u serial generation h = record {
  balance = λ n. ground (arith, h.balance n);
  released = ground (arith, h.released);
}

show_cursor-IsBalanced :
    {k : ℕ} (s : Cursors) (w : Wayland) (u : CursorUpdate) (generation : ℕ)
    → IsBalanced k s
    → IsBalanced k (show_cursor s w u generation)
unfolding show_cursor
show_cursor-IsBalanced {k} s w u generation h =
    if_holds (IsBalanced k) (serial_of w == 0) s _ (λ e. h)
      (λ e.
        if_holds (IsBalanced k) (u.visible == 0) _ _ (λ e'. hidden)
          (λ e'.
            if_holds (IsBalanced k) (u.shape == cursor_custom) _ _ (λ c. custom)
              (λ c. show_shape-IsBalanced s w u (serial_of w) generation h)))
  where
    retired : IsBalanced k (retire_custom_cursor s)
    retired = retire-IsBalanced s h

    hidden : IsBalanced k (record (retire_custom_cursor s) {
      applied = generation;
      shown = hide (serial_of w) ∷ s.shown;
    })
    hidden = record { balance = λ n. retired.balance n; released = retired.released }

    custom : IsBalanced k (show_custom (create_custom_cursor s w) u (serial_of w) generation)
    custom =
        show_custom-IsBalanced (create_custom_cursor s w) u (serial_of w) generation
          (λ n. create_custom_cursor-account n s w (h.balance n))
          (ap unreleased (create_custom_cursor-destroyed s w) ∙ h.released)

dispatch-IsBalanced :
    {k : ℕ} (s : Cursors) (w : Wayland) (o : Option (CursorUpdate × ℕ))
    → IsBalanced k s
    → IsBalanced k (cursor_dispatch s w o)
unfolding cursor_dispatch
dispatch-IsBalanced {k} s w o h =
    go (w.vk_layer || not w.captured || not (is_some w.game_pointer)) o
  where
    s1 : Cursors
    s1 = cleanup_retired_cursors s

    go :
        (b : Bool) (o : Option (CursorUpdate × ℕ))
        → IsBalanced k (
            if b
            then s1
            else (elim o [ none ↦ s1 | some (u, generation) ↦ show_cursor s1 w u generation ]))
    go true o = cleanup-IsBalanced s h
    go false none = cleanup-IsBalanced s h
    go false (some (u, generation)) =
        show_cursor-IsBalanced s1 w u generation (cleanup-IsBalanced s h)

capture-IsBalanced :
    {k : ℕ} (s : Cursors) (b : Bool) → IsBalanced k s → IsBalanced k (cursor_capture_changed s b)
unfolding cursor_capture_changed
capture-IsBalanced s true h =
    cleanup-IsBalanced (record s { applied = 0 })
      (record { balance = λ n. h.balance n; released = h.released })
capture-IsBalanced s false h =
    cleanup-IsBalanced (retire_custom_cursor (record s { applied = 0 })) (
      retire-IsBalanced (record s { applied = 0 })
        (record { balance = λ n. h.balance n; released = h.released }))

-- One call into the cursor code, or the compositor's release of a buffer, with the number of resources
-- that it destroys unreleased. What Wayland answers, and which cursor the webview sent, are arbitrary.
pub data Step (s : Cursors) : ℕ → Cursors → Type 0 where
  dispatches : (w : Wayland) (o : Option (CursorUpdate × ℕ)) → Step s 0 (cursor_dispatch s w o)
  releases : (m : ℕ) → Step s 0 (cursor_buffer_release s m)
  changes_capture : (b : Bool) → Step s 0 (cursor_capture_changed s b)
  shuts_down : Step s (in_use s) (cursor_shutdown s)

-- The statics start zeroed.
abbrev pub no_cursors : Cursors
no_cursors = record {
  custom = none;
  retired = [];
  applied = 0;
  device = none;
  device_proxy = none;
  destroyed = [];
  scrapped = [];
  made = [];
  shown = [];
}

-- A history, with the number of resources that the shutdowns in it found unreleased.
pub data Reach : ℕ → Cursors → Type 0 where
  start : Reach 0 no_cursors
  later : {k m : ℕ} {s t : Cursors} → Reach k s → Step s m t → Reach (m + k) t

shutdown-IsBalanced :
    {k : ℕ} (s : Cursors) → IsBalanced k s → IsBalanced (in_use s + k) (cursor_shutdown s)
unfolding cursor_shutdown
shutdown-IsBalanced s h = elim (Option-cases s.custom) [
  | inl e ↦ record {
    balance = λ n. ground (arith, e, h.balance n, buffers-append n s.retired s.destroyed);
    released = ground (arith, e, h.released, unreleased-append s.retired s.destroyed);
  }
  | inr (x, e) ↦ record {
    balance = λ n. ground (arith, e, h.balance n, buffers-append n s.retired (x ∷ s.destroyed));
    released = ground (arith, e, h.released, unreleased-append s.retired (x ∷ s.destroyed));
  }
]

Step-IsBalanced :
    {k : ℕ} {s t : Cursors} {m : ℕ} → Step s m t → IsBalanced k s → IsBalanced (m + k) t
Step-IsBalanced {k} {s = s} (dispatches w o) h =
    let b = dispatch-IsBalanced s w o h in
    record { balance = b.balance; released = omega (arith, b.released) }
Step-IsBalanced {k} {s = s} (releases m) h =
    let b = release-IsBalanced s m h in
    record { balance = b.balance; released = omega (arith, b.released) }
Step-IsBalanced {k} {s = s} (changes_capture c) h =
    let b = capture-IsBalanced s c h in
    record { balance = b.balance; released = omega (arith, b.released) }
Step-IsBalanced {s = s} shuts_down h = shutdown-IsBalanced s h

-- Over any history of calls, releases and shutdowns, every buffer that was made is on the pointer,
-- retired or destroyed, exactly as often as it was made; and the cursors that were destroyed before the
-- compositor released their buffers are as many as the shutdowns found unreleased, none without one.
pub Reach-IsBalanced : {k : ℕ} {s : Cursors} → Reach k s → IsBalanced k s
Reach-IsBalanced start = record { balance = λ n. refl; released = refl }
Reach-IsBalanced (later r st) = Step-IsBalanced st (Reach-IsBalanced r)
