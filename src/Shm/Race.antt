-- ===== src/Shm/Race.antt =====
-- `tp_shm_send_ack` (src/core/transport/shm/ack.c) in its two steps, with a send between them.
use idk_overlay.Prelude.{
  ℕ, ◌≤◌, ◌≡◌, refl, sym, subst, List, [], ◌∷◌, true, false, some, length, arith,
}
use idk_overlay.Prelude.Io.{Rc, rc0}
use idk_overlay.Wire.{FrameHeader, Ack}
use idk_overlay.Shm.{Shm, Page, slot_frame, is_cons_dead, is_prod_dead}
use idk_overlay.Shm.Steal.{Kernel}
use idk_overlay.Shm.Consumer.{recv_frame, copy_ack, store_ack, poll}
use idk_overlay.Shm.Producer.{send_frame, publish, wait_slot, wait_ack, ack_loop}
use idk_overlay.Shm.Transfer.{steady}
use idk_overlay.Socket.Scm.{nothing}

send_frame-cleared :
    (p : Shm) (page : Page) (ack : Ack) (hdr : FrameHeader) (fds : List ℕ)
    → p.mapped ≡ true
    → p.ready ≡ true
    → is_cons_dead page.cons_state ≡ false
    → 1 ≤ length fds
    → length fds ≤ 4
    → send_frame p (copy_ack page ack) hdr fds false (steady (copy_ack page ack))
      ≡ (rc0, publish (copy_ack page ack) hdr fds)
unfolding send_frame copy_ack wait_slot
send_frame-cleared p page ack hdr fds pm pr cd h1 h4 = ground arith

-- A send that succeeded, and whose frame is gone once the consumer stores its ACK: poll and receive
-- find none, and the producer's wait takes `ack` for the answer.
abbrev pub IsLost : Shm → Shm → Ack → FrameHeader → List Kernel → Rc × Page → Type 0
IsLost p c ack hdr ks (rc, sent) =
    (rc ≡ rc0)
    × (sent.hdr ≡ hdr)
    × (sent.slot ≡ slot_frame)
    × (poll c (store_ack sent) ≡ rc0)
    × (recv_frame c (store_ack sent) false ks ≡ (nothing, c, store_ack sent))
    × ((wait_ack p (store_ack sent) ((steady (store_ack sent) 0, false) ∷ [])).0 ≡ some ack)

-- Between the copy of `tp_shm_send_ack`, which clears the slot, and its store, which fills it, a
-- producer that waits for the slot may send. With both ends mapped and ready, both processes alive
-- and one to four descriptors, its call then succeeds whatever stood in the slot, and its frame is
-- lost: after the store poll and receive find no frame, and the producer's `wait_ack` takes the ACK
-- of the earlier frame for that of the lost one.
pub send_ack-loses_frame :
    (p c : Shm) (page : Page) (ack : Ack) (hdr : FrameHeader) (fds : List ℕ) (ks : List Kernel)
    → p.mapped ≡ true
    → p.ready ≡ true
    → c.mapped ≡ true
    → c.ready ≡ true
    → is_cons_dead page.cons_state ≡ false
    → is_prod_dead page.prod_state ≡ false
    → 1 ≤ length fds
    → length fds ≤ 4
    → IsLost p c ack hdr ks
        (send_frame p (copy_ack page ack) hdr fds false (steady (copy_ack page ack)))
unfolding copy_ack store_ack publish poll recv_frame wait_ack ack_loop
send_ack-loses_frame p c page ack hdr fds ks pm pr cm cr cd pd h1 h4 =
    subst (IsLost p c ack hdr ks) (sym (send_frame-cleared p page ack hdr fds pm pr cd h1 h4))
      (refl, refl, refl, ground arith, ground arith, ground arith)
