-- ===== src/Layer/Queues.antt =====
-- src/hook/vklayer/device.c, present.c: presenting on the queues of the devices.
use idk_overlay.Prelude.{
  ℕ, zero, suc, ◌-◌, ◌≤◌, ◌≡◌, refl, ap, ◌∙◌, List, false, inl, inr, Option, none, some, ◌==◌,
  if◌then◌else◌, if_holds, arith,
}
use idk_overlay.Render.Context.{Context}
use idk_overlay.Layer.{
  Queue, Layer, find, put_or, find_device, owner_of, find_device_for_queue, can_present,
  get_device_queue, present_device,
}
use idk_overlay.Layer.Present.{Present, refused, vk_compositor_render, present_to, queue_present}
use idk_overlay.Layer.Tables.{free, added, free-added, find-added_other, put-free}

get_device_queue-queues :
    (device queue : ℕ) (l : Layer)
    → (queue == 0) ≡ false
    → (get_device_queue device queue l).queues
      ≡ added (record { queue = queue; owner = device }) l.queues
unfolding get_device_queue
get_device_queue-queues device queue l n = rw (n) refl

-- `n` calls of vkGetDeviceQueue for one queue.
abbrev pub ask : ℕ → ℕ → ℕ → Layer → Layer
ask zero device queue l = l
ask (suc n) device queue l = ask n device queue (get_device_queue device queue l)

get_device_queue-Keeps :
    (device queue other : ℕ) (l : Layer)
    → (queue == 0) ≡ false
    → (queue == other) ≡ false
    → (find_device_for_queue other (get_device_queue device queue l)
        ≡ find_device_for_queue other l)
      × (free (get_device_queue device queue l).queues ≡ free l.queues - 1)
unfolding find_device_for_queue
get_device_queue-Keeps device queue other l n m = (
  ap (λ qs. owner_of (find (λ (q : Queue). q.queue) other qs))
        (get_device_queue-queues device queue l n)
      ∙ ap owner_of (
          find-added_other (λ (q : Queue). q.queue) other (record { queue = queue; owner = device })
            l.queues m),
  ap free (get_device_queue-queues device queue l n)
      ∙ free-added (record { queue = queue; owner = device }) l.queues,
)

ask-Keeps :
    (n device queue other : ℕ) (l : Layer)
    → (queue == 0) ≡ false
    → (queue == other) ≡ false
    → (find_device_for_queue other (ask n device queue l) ≡ find_device_for_queue other l)
      × (free (ask n device queue l).queues ≡ free l.queues - n)
ask-Keeps zero device queue other l a b = (refl, omega arith)
ask-Keeps (suc n) device queue other l a b =
    let (x, y) = get_device_queue-Keeps device queue other l a b in
    let (z, t) = ask-Keeps n device queue other (get_device_queue device queue l) a b in
    (z ∙ x, omega (arith, y, t))

no_room : (e : Queue) (slots : List (Option Queue)) → free slots ≡ 0 → added e slots ≡ slots
unfolding put_or
no_room e slots f = elim (put-free e slots) [
  | inl (p, z) ↦ ap (λ o. put_or o slots) p
  | inr (next, p, g) ↦ absurd (omega (arith, f, g))
]

unnoted :
    (device queue : ℕ) (l : Layer)
    → free l.queues ≡ 0
    → find_device_for_queue queue (get_device_queue device queue l) ≡ find_device_for_queue queue l
unfolding get_device_queue find_device_for_queue
unnoted device queue l f =
    if_holds
      (λ (m : Layer).
        owner_of (find (λ (q : Queue). q.queue) queue m.queues)
        ≡ owner_of (find (λ (q : Queue). q.queue) queue l.queues))
      (queue == 0) l _ (λ e. refl)
      (λ e.
        ap (λ qs. owner_of (find (λ (q : Queue). q.queue) queue qs))
          (no_room (record { queue = queue; owner = device }) l.queues f))

-- vkGetDeviceQueue asked as often as the table has unused slots, for one and the same queue, fills the
-- table: another queue that the game asks for afterwards is not noted, and the layer refuses every
-- present on it, whatever it brings.
pub queue_present-exhausted :
    (p : Present) (n device queue device' other result : ℕ) (c : Context) (l : Layer)
    → (queue == 0) ≡ false
    → (queue == other) ≡ false
    → find_device_for_queue other l ≡ none
    → free l.queues ≤ n
    → queue_present p other result c (get_device_queue device' other (ask n device queue l))
      ≡ refused (vk_compositor_render c p.incoming)
unfolding queue_present present_device present_to
queue_present-exhausted p n device queue device' other result c l a b new room =
    ap
      (λ o.
        present_to
          (elim o [
            | none ↦ none
            | some h ↦ if can_present (find_device h noted) then some h else none
          ])
          p result (vk_compositor_render c p.incoming) noted)
      unknown
  where
    full_table : Layer
    full_table = ask n device queue l

    noted : Layer
    noted = get_device_queue device' other full_table

    kept :
        (find_device_for_queue other full_table ≡ find_device_for_queue other l)
        × (free full_table.queues ≡ free l.queues - n)
    kept = ask-Keeps n device queue other l a b

    unknown : find_device_for_queue other noted ≡ none
    unknown = unnoted device' other full_table (omega (arith, kept, room)) ∙ kept.0 ∙ new
