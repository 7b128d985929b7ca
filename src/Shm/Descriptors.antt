-- ===== src/Shm/Descriptors.antt =====
-- The descriptors of the shared memory backend (src/core/transport/shm/pidfd.c).
use idk_overlay.Prelude.{ℕ, ◌+◌, ◌≡◌, ◌≢◌, List, [], ◌∷◌, Option, none, some, if◌then◌else◌, arith}
use idk_overlay.Prelude.Io.{ret, sys_fail}
use idk_overlay.Socket.{consumer}
use idk_overlay.Prelude.Account.{count, held, count-append}
use idk_overlay.Socket.Init.{opened}
use idk_overlay.Shm.{Shm, Page}
use idk_overlay.Shm.Init.{cleared, init_consumer}
use idk_overlay.Shm.Steal.{Kernel, cached, is_first, steal_fd}

-- The transport's account of descriptor `n`.
abbrev pub account : ℕ → Shm → ℕ
account n tp = held n tp.client_fd + held n tp.server_fd + held n tp.cached_fd + count n tp.closed

-- What the kernel opens in one call of `steal_fd`, in the calls that the function makes.
abbrev pub getfd_opens : List ℕ → Kernel → List ℕ
getfd_opens fds k = elim k.getfd [
  | sys_fail e ↦ []
  | ret stolen ↦ stolen ∷ (if is_first fds then opened k.dup else [])
]

abbrev pub opens : Shm → ℕ → List ℕ → Kernel → List ℕ
opens tp target fds k = elim (cached tp target fds) [
  | some _ ↦ opened k.dup
  | none ↦ elim tp.client_fd [
    | some _ ↦ getfd_opens fds k
    | none ↦ elim k.pidfd [ sys_fail e ↦ [] | ret fd ↦ fd ∷ getfd_opens fds k ]
  ]
]

-- What the caller holds after the call: the descriptors taken so far and the new one, or none.
abbrev pub handed : List ℕ → Option ℕ → List ℕ
handed fds none = []
handed fds (some fd) = fd ∷ fds

-- One theft neither leaks nor closes twice: what the caller and the transport held before, with
-- what the kernel opened, is afterwards held by the caller, held by the transport or closed.
steal_fd-account :
    (n : ℕ) (tp : Shm) (target : ℕ) (fds : List ℕ) (k : Kernel)
    → let (r, tp') = steal_fd tp target fds k in
      account n tp' + count n (handed fds r)
      ≡ account n tp + count n fds + count n (opens tp target fds k)
unfolding steal_fd
steal_fd-account n tp target [] k = ground arith
steal_fd-account n tp target (x ∷ fds) k = ground (arith, count-append n fds tp.closed)

-- `idk_tp_init` leaves 0 in the field of the cached descriptor, which reads as a descriptor: the
-- first theft of a consumer that was just initialised, under any number but 0, closes descriptor 0
-- of its process, which it never opened.
pub steal_fd-closes_stdin :
    (page page' : Page) (tp : Shm) (name : List ℕ) (fd pid efd target pidfd stolen copy : ℕ)
    → init_consumer (cleared consumer) page name (ret fd) pid efd ≡ some (tp, page')
    → target ≢ 0
    → let k : Kernel = record { pidfd = ret pidfd; getfd = ret stolen; dup = ret copy } in
      (steal_fd tp target [] k).1.closed ≡ 0 ∷ []
unfolding steal_fd init_consumer cleared
steal_fd-closes_stdin page page' tp name fd pid efd target pidfd stolen copy e ne = ground arith
