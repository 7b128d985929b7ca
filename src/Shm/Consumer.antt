-- ===== src/Shm/Consumer.antt =====
-- src/core/transport/shm/consumer.c, ack.c, and the consumer's half of request.c.
use idk_overlay.Prelude.{
  ℕ, ◌+◌, ◌%◌, ◌^◌, List, [], Bool, true, not, ◌&&◌, ◌||◌, Option, none, some, ltb, ◌==◌,
  if◌then◌else◌, take,
}
use idk_overlay.Prelude.Errno.{einval, eproto}
use idk_overlay.Prelude.Io.{Rc, fail, rc0, rc1}
use idk_overlay.Wire.{Ack}
use idk_overlay.Shm.{
  Shm, Page, prod_idle, prod_ready, prod_dead, is_prod_dead, cons_ready, is_frame, slot_empty,
  slot_ack, slot_consumed,
}
use idk_overlay.Shm.Steal.{Kernel, steal_all}
use idk_overlay.Socket.Scm.{Received, nothing, broken, frame}

-- tp_shm_accept
unfoldable pub accept : Shm → Page → Rc × Shm × Page
accept tp page =
    if tp.ready
    then (rc1, tp, page)
    else if not tp.mapped
    then (fail none, tp, page)
    else elim page.prod_state [
      | prod_dead ↦ (fail none, tp, page)
      | prod_idle ↦ (rc0, tp, page)
      | prod_ready ↦
          if page.prod_pid == 0
          then (fail none, tp, page)
          else (rc1, record tp { ready = true }, record page { cons_state = cons_ready })
    ]

-- tp_shm_poll
unfoldable pub poll : Shm → Page → Rc
poll tp page =
    if not tp.mapped || not tp.ready || is_prod_dead page.prod_state
    then fail none
    else if is_frame page.slot
    then rc1
    else rc0

-- The end of tp_shm_recv, on what the thefts came to. A failed one leaves the slot as it was.
unfoldable pub take_frame : Page → Option (List ℕ) × Shm → Received × Shm × Page
take_frame page (none, tp) = (broken none [], tp, page)
take_frame page (some fds, tp) = (frame page.hdr fds, tp, record page { slot = slot_consumed })

-- tp_shm_recv: `gone` is kill(prod_pid, 0) failing with ESRCH; `ks` are the kernel's answers to the
-- thefts.
unfoldable pub recv_frame : Shm → Page → Bool → List Kernel → Received × Shm × Page
recv_frame tp page gone ks =
    if not tp.mapped || not tp.ready
    then (broken (some einval) [], tp, page)
    else if is_prod_dead page.prod_state || ltb 0 page.prod_pid && gone
    then (broken none [], tp, page)
    else if not (is_frame page.slot)
    then (nothing, tp, page)
    else if ltb page.nfd 1 || ltb 4 page.nfd
    then (broken (some eproto) [], tp, record page { slot = slot_empty })
    else take_frame page (steal_all tp (take page.nfd page.fds) [] ks)

-- tp_shm_drop_frame
unfoldable pub drop_frame : Shm → Page → Rc × Page
drop_frame tp page =
    if not tp.mapped || not tp.ready || is_prod_dead page.prod_state
    then (fail none, page)
    else if not (is_frame page.slot)
    then (rc0, page)
    else (rc1, record page { slot = slot_empty })

-- tp_shm_send_ack, in its two steps as another process sees them: the copy of the 16-byte message
-- to offset 68 ends in padding that lies over SLOT_STATE and clears it; then the store of SLOT_ACK.
unfoldable pub copy_ack : Page → Ack → Page
copy_ack page ack = record page { ack = ack; slot = slot_empty }

unfoldable pub store_ack : Page → Page
store_ack page = record page { slot = slot_ack }

unfoldable pub send_ack : Shm → Page → Ack → Page
unfolding copy_ack store_ack
send_ack tp page ack = if not tp.mapped || not tp.ready then page else store_ack (copy_ack page ack)

-- tp_shm_send_request: the counter is a 32-bit atomic.
unfoldable pub send_request : Shm → Page → Rc × Page
send_request tp page =
    if not tp.mapped || not tp.ready
    then (fail (some einval), page)
    else (rc0, record page { req_seq = (page.req_seq + 1) % 2 ^ 32 })
