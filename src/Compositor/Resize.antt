-- ===== src/Compositor/Resize.antt =====
-- src/core/compositor/helpers.c and ack.c: resize debounce and the ACK that reports a size.
use idk_overlay.Prelude.{
  ℕ, ◌+◌, ◌-◌, ◌*◌, ◌/◌, ◌≤◌, ◌<◌, ◌≡◌, refl, arith, Bool, true, false, not, ◌&&◌, ◌||◌, leb, ◌==◌,
  if◌then◌else◌,
}
use idk_overlay.Prelude.Int.{ℤ, pos, pos_part, ltb_ℤ}
use idk_overlay.Wire.{Ack}

-- struct timespec, nsec below 10^9
pub record Timespec : Type 0 where
  pub sec : ℕ
  pub nsec : ℕ

-- The size that the compositor keeps: game_w, game_h, size_pending, last_resize_ts.
pub record Size : Type 0 where
  pub w : ℕ
  pub h : ℕ
  pub pending : Bool
  pub since : Timespec

-- idk_comp_notify_resize; `w` and `h` may be negative.
unfoldable pub notify_resize : Size → ℤ → ℤ → Timespec → Bool × Size
notify_resize s w h now =
    if ltb_ℤ w (pos 1) || ltb_ℤ h (pos 1)
    then (false, s)
    else if not (pos_part w == s.w) || not (pos_part h == s.h)
    then (true, record { w = pos_part w; h = pos_part h; pending = true; since = now })
    else (false, s)

-- (now.tv_nsec - since.tv_nsec) / 1000000L: C division goes towards zero. The sum with the seconds
-- is split into what is added and what is taken away.
abbrev pub gain : Timespec → Timespec → ℕ
gain since now = (now.sec - since.sec) * 1000 + (now.nsec - since.nsec) / 1000000

abbrev pub loss : Timespec → Timespec → ℕ
loss since now = (since.sec - now.sec) * 1000 + (since.nsec - now.nsec) / 1000000

-- idk_comp_resize_stable: delta_ms >= debounce_ms. A zero timestamp is stable.
unfoldable pub resize_stable : Timespec → Timespec → ℕ → Bool
resize_stable since now debounce =
    if (since.sec == 0) && (since.nsec == 0)
    then true
    else leb (debounce + loss since now) (gain since now)

-- IDK_COMP_RESIZE_DEBOUNCE_MS
abbrev pub debounce_ms : ℕ
debounce_ms = 50

-- idk_comp_build_ack
unfoldable pub build_ack : Size → ℕ → Timespec → ℕ → Ack × Size
unfolding resize_stable
build_ack s code now debounce =
    if s.pending && resize_stable s.since now debounce
    then (record { code = code; w = s.w; h = s.h }, record s { pending = false })
    else (record { code = code; w = 0; h = 0 }, s)

-- A reading in nanoseconds.
abbrev pub nanos : Timespec → ℕ
nanos t = t.sec * 1000000000 + t.nsec

-- A clock reading whose nanoseconds are in range.
abbrev pub IsTime : Timespec → Type 0
IsTime t = t.nsec < 1000000000

resize_stable-after :
    (since now : Timespec) (debounce : ℕ)
    → IsTime since
    → IsTime now
    → nanos since + debounce * 1000000 ≤ nanos now
    → resize_stable since now debounce ≡ true
unfolding resize_stable
resize_stable-after since now debounce a b h = ground (arith, a, b, h)

resize_stable-before :
    (since now : Timespec) (debounce : ℕ)
    → IsTime since
    → IsTime now
    → 0 < nanos since
    → nanos since ≤ nanos now
    → nanos now + 1000000 ≤ nanos since + debounce * 1000000
    → resize_stable since now debounce ≡ false
unfolding resize_stable
resize_stable-before since now debounce a b z m h = ground (arith, a, b, z, m, h)

notify_resize-true :
    (s : Size) (w h : ℤ) (t : Timespec)
    → (notify_resize s w h t).0 ≡ true
    → (notify_resize s w h t).1
      ≡ record { w = pos_part w; h = pos_part h; pending = true; since = t }
unfolding notify_resize
notify_resize-true s w h t e = ground (arith, e)

-- After a resize that was taken up, an ACK built once the debounce time has passed carries the new
-- size, and from then on an ACK carries none, whenever it is built.
build_ack-reports_once :
    (s : Size) (w h : ℤ) (t now later : Timespec) (code code' debounce : ℕ)
    → (notify_resize s w h t).0 ≡ true
    → IsTime t
    → IsTime now
    → nanos t + debounce * 1000000 ≤ nanos now
    → (s' : Size) × (build_ack (notify_resize s w h t).1 code now debounce
        ≡ (record { code = code; w = pos_part w; h = pos_part h }, s'))
      × (build_ack s' code' later debounce ≡ (record { code = code'; w = 0; h = 0 }, s'))
unfolding build_ack
build_ack-reports_once s w h t now later code code' debounce e a b d = (
  record { w = pos_part w; h = pos_part h; pending = false; since = t },
  rw (notify_resize-true s w h t e, resize_stable-after t now debounce a b d) refl,
  refl,
)

-- An ACK built a millisecond or more before the debounce time is over carries no size, and the size
-- stays to be reported; the clock does not go back, and the resize was not at time zero.
build_ack-waits :
    (s : Size) (w h : ℤ) (t now : Timespec) (code debounce : ℕ)
    → (notify_resize s w h t).0 ≡ true
    → IsTime t
    → IsTime now
    → 0 < nanos t
    → nanos t ≤ nanos now
    → nanos now + 1000000 ≤ nanos t + debounce * 1000000
    → build_ack (notify_resize s w h t).1 code now debounce
      ≡ (record { code = code; w = 0; h = 0 }, (notify_resize s w h t).1)
unfolding build_ack
build_ack-waits s w h t now code debounce e a b z m d =
    rw (notify_resize-true s w h t e, resize_stable-before t now debounce a b z m d) refl
