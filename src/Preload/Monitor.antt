-- ===== src/Preload/Monitor.antt =====
-- src/hook/preload/monitor.c: when the webview's process ends. Its exit is read by waitpid(2), the
-- time by time(2); fork_webview is logged, with the pid that it leaves as an argument.
use idk_overlay.Prelude.{
  ℕ, suc, ◌+◌, ◌≤◌, ◌≡◌, List, [], ◌∷◌, Bool, true, false, Option, none, some, ltb, leb, ◌==◌, ◌&&◌,
  ◌||◌, if◌then◌else◌, arith, Bool-cases, ◌⊎◌, inl, inr, refl, ◌∙◌,
}

-- What waitpid(2) says of a process that ended.
pub data Status : Type 0 where
  exited : (code : ℕ) → Status
  signaled : (sig : ℕ) → Status
  other : Status

pub record Preload : Type 0 where
  pub webview_dead : Bool
  pub overlay_visible : Bool
  pub captured : Bool
  pub webview_pid : Option ℕ
  pub crash_count : ℕ
  pub last_fork_time : ℕ
  pub forks : ℕ

unfoldable pub webview_disable : Preload → Preload
webview_disable s = record s { webview_dead = true; overlay_visible = false; captured = false }

-- user_closed; SIGTERM is 15, SIGKILL 9.
unfoldable pub is_user_closed : Status → ℕ → ℕ → Bool
is_user_closed (exited code) now last =
    if code == 127 then false else if code == 0 then true else leb (last + 2) now
is_user_closed (signaled sig) now last = (sig == 15) || (sig == 9)
is_user_closed other now last = false

-- webview_monitor after waitpid(2), which it may fail; `now` is the time, read twice in the source
-- within the call.
unfoldable pub webview_monitor : Preload → Option Status → ℕ → Option ℕ → Preload
unfolding is_user_closed webview_disable
webview_monitor s none now pid = s
webview_monitor s (some status) now pid = elim s.webview_dead [
  | true ↦ s
  | false ↦
      let s1 = record s { webview_pid = none } in
      elim (is_user_closed status now s.last_fork_time) [
        | true ↦ webview_disable s1
        | false ↦
            let count = suc (
              if ltb 0 s.last_fork_time && ltb (s.last_fork_time + 30) now
              then 0
              else s.crash_count) in
            let s2 = record s1 { crash_count = count; last_fork_time = now } in
            if ltb 3 count
            then webview_disable s2
            else record s2 { webview_pid = pid; forks = suc s.forks }
      ]
]

-- The ends of successive processes, each with the time and the pid of the process forked after it.
unfoldable pub monitor_all : Preload → List (Status × ℕ × Option ℕ) → Preload
unfolding webview_monitor
monitor_all s [] = s
monitor_all s ((status, now, pid) ∷ es) = monitor_all (webview_monitor s (some status) now pid) es

-- Each process ends within 30 s of the fork before it.
abbrev pub Burst : Preload → List (Status × ℕ × Option ℕ) → Type 0
Burst s [] = Unit
Burst s ((status, now, pid) ∷ es) =
    (now ≤ s.last_fork_time + 30) × Burst (webview_monitor s (some status) now pid) es

webview_monitor-count :
    (s : Preload) (status : Status) (now : ℕ) (pid : Option ℕ)
    → now ≤ s.last_fork_time + 30
    → s.crash_count ≤ 3
    → (((webview_monitor s (some status) now pid).webview_dead ≡ true)
        × ((webview_monitor s (some status) now pid).forks ≡ s.forks))
      ⊎ (((webview_monitor s (some status) now pid).forks + s.crash_count
            ≡ s.forks + (webview_monitor s (some status) now pid).crash_count)
          × ((webview_monitor s (some status) now pid).crash_count ≤ 3))
unfolding webview_monitor is_user_closed webview_disable
webview_monitor-count s status now pid h c = elim (Bool-cases s.webview_dead) [
  | inl d ↦ inl (ground (arith, d))
  | inr d ↦ elim (Bool-cases (is_user_closed status now s.last_fork_time)) [
    | inl u ↦ inl (ground (arith, d, u))
    | inr u ↦ elim (Bool-cases (ltb s.crash_count 3)) [
      | inl l ↦ inr (ground (arith, d, u, l, h))
      | inr l ↦ inl (ground (arith, d, u, l, h, c))
    ]
  ]
]

monitor_all-dead :
    (s : Preload) (es : List (Status × ℕ × Option ℕ))
    → s.webview_dead ≡ true
    → (monitor_all s es).forks ≡ s.forks
unfolding monitor_all webview_monitor
monitor_all-dead s [] d = refl
monitor_all-dead s ((status, now, pid) ∷ es) d =
    monitor_all-dead (webview_monitor s (some status) now pid) es (ground (arith, d))
    ∙ ground (arith, d)

-- In a burst of exits, each within 30 s of the fork before it, however each process ended, the
-- webview is forked again at most three times, less the crashes counted before it.
monitor_all-forks :
    (s : Preload) (es : List (Status × ℕ × Option ℕ))
    → s.crash_count ≤ 3
    → Burst s es
    → (monitor_all s es).forks + s.crash_count ≤ s.forks + 3
unfolding monitor_all
monitor_all-forks s [] c b = omega (arith, c)
monitor_all-forks s ((status, now, pid) ∷ es) c (h, b) =
    elim (webview_monitor-count s status now pid h c) [
      | inl (d, e) ↦
          omega (arith, monitor_all-dead (webview_monitor s (some status) now pid) es d, e, c)
      | inr (e, l) ↦
          omega (arith, monitor_all-forks (webview_monitor s (some status) now pid) es l b, e, c)
    ]
