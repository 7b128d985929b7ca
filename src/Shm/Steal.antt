-- ===== src/Shm/Steal.antt =====
-- src/core/transport/shm/pidfd.c: taking descriptors out of the producer's process.
use idk_overlay.Prelude.{
  ℕ, List, [], ◌∷◌, ◌++◌, Bool, true, false, ◌&&◌, Option, none, some, ◌==◌, if◌then◌else◌,
}
use idk_overlay.Prelude.Io.{SysRet, ret, sys_fail}
use idk_overlay.Socket.{close_fd}
use idk_overlay.Shm.{Shm}

-- What the kernel answers in one call: pidfd_open, pidfd_getfd, and dup of the cached descriptor.
pub record Kernel : Type 0 where
  pub pidfd : SysRet
  pub getfd : SysRet
  pub dup : SysRet

-- pidfd_open, unless the transport holds a pidfd already. `false` is a failure.
unfoldable pub open_pidfd : Shm → SysRet → Bool × Shm
open_pidfd tp r = elim tp.client_fd [
  | some _ ↦ (true, tp)
  | none ↦ elim r [ sys_fail e ↦ (false, tp) | ret fd ↦ (true, record tp { client_fd = some fd }) ]
]

-- The first descriptor is kept as a master copy, and its duplicate is handed out.
unfoldable pub cache_first : Shm → ℕ → ℕ → List ℕ → SysRet → Option ℕ × Shm
cache_first tp target stolen fds dup =
    let kept = record tp {
      cached_fd = some stolen;
      cached_wv_fd = target;
      closed = close_fd tp.cached_fd tp.closed;
    } in
    elim dup [
      | ret fd ↦ (some fd, kept)
      | sys_fail e ↦ (
        none,
        record kept { cached_fd = none; cached_wv_fd = 0; closed = stolen ∷ (fds ++ kept.closed) },
      )
    ]

abbrev pub is_first : List ℕ → Bool
is_first [] = true
is_first (_ ∷ _) = false

-- A hit of the cache: the first descriptor, under the number that was stolen last.
abbrev pub cached : Shm → ℕ → List ℕ → Option ℕ
cached tp target fds = if is_first fds && (target == tp.cached_wv_fd) then tp.cached_fd else none

-- shm_steal_fd: `fds` are the ones taken so far for this frame, so the first call has none. A
-- failure closes them.
unfoldable pub steal_fd : Shm → ℕ → List ℕ → Kernel → Option ℕ × Shm
unfolding open_pidfd cache_first
steal_fd tp target fds k = elim (cached tp target fds) [
  | some _ ↦ elim k.dup [
    | ret fd ↦ (some fd, tp)
    | sys_fail e ↦ (none, record tp { closed = fds ++ tp.closed })
  ]
  | none ↦
      let (opened, tp') = open_pidfd tp k.pidfd in
      elim opened [
        | false ↦ (none, record tp' { closed = fds ++ tp'.closed })
        | true ↦ elim k.getfd [
          | sys_fail e ↦ (none, record tp' { closed = fds ++ tp'.closed })
          | ret stolen ↦
              if is_first fds then cache_first tp' target stolen fds k.dup else (some stolen, tp')
        ]
      ]
]

-- The loop of tp_shm_recv over the published descriptors; `none` once one could not be taken.
unfoldable pub steal_all : Shm → List ℕ → List ℕ → List Kernel → Option (List ℕ) × Shm
steal_all tp [] fds ks = (some fds, tp)
steal_all tp (target ∷ ts) fds [] = (none, record tp { closed = fds ++ tp.closed })
steal_all tp (target ∷ ts) fds (k ∷ ks) =
    let (r, tp') = steal_fd tp target fds k in
    elim r [ none ↦ (none, tp') | some fd ↦ steal_all tp' ts (fds ++ (fd ∷ [])) ks ]
