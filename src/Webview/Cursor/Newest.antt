-- ===== src/Webview/Cursor/Newest.antt =====
-- src/cli/webview_cef/input.cc: the newest cursor reaches the transport or waits.
use idk_overlay.Prelude.{
  ℕ, ◌≡◌, refl, List, [], ◌∷◌, Bool, true, false, ◌⊎◌, inl, inr, Option, none, some, get_elem?, ap,
  not, if_holds, arith,
}
use idk_overlay.Wire.{CursorUpdate}
use idk_overlay.Webview.Cursor.{CursorQueue, queue_cursor, meanwhile, after_send, flush_cursor}

-- The two threads' calls.
pub data CursorEvent : Type 0 where
  queue : CursorUpdate × List ℕ → CursorEvent
  flush : Bool → Option (CursorUpdate × List ℕ) → CursorEvent

unfoldable pub run_cursor : List CursorEvent → CursorQueue → CursorQueue
unfolding queue_cursor flush_cursor
run_cursor [] q = q
run_cursor (queue c ∷ es) q = run_cursor es (queue_cursor c q)
run_cursor (flush ok other ∷ es) q = run_cursor es (flush_cursor ok other q)

abbrev later : Option (CursorUpdate × List ℕ) → CursorUpdate × List ℕ → CursorUpdate × List ℕ
later none c = c
later (some d) c = d

-- The cursor that was queued last, after `c`.
unfoldable pub newest : List CursorEvent → CursorUpdate × List ℕ → CursorUpdate × List ℕ
newest [] c = c
newest (queue d ∷ es) c = newest es d
newest (flush ok other ∷ es) c = newest es (later other c)

-- The cursor `c` waits, or it is the last that was sent.
abbrev pub IsSettled : CursorUpdate × List ℕ → CursorQueue → Type 0
IsSettled c q =
    ((q.pending ≡ true) × (q.cursor ≡ c)) ⊎ ((q.pending ≡ false) × (get_elem? q.sent 0 ≡ some c))

queue_cursor-IsSettled :
    (c : CursorUpdate × List ℕ) (q : CursorQueue) → IsSettled c (queue_cursor c q)
unfolding queue_cursor
queue_cursor-IsSettled c q = inl (refl, refl)

after_send-IsSettled :
    (ok : Bool) (c d : CursorUpdate × List ℕ) (q : CursorQueue)
    → d ≡ c
    → q.pending ≡ false
    → IsSettled c (after_send ok d q)
unfolding after_send
after_send-IsSettled true c d q e p = inr (p, ap some e)
after_send-IsSettled false c d q e p =
    if_holds (IsSettled c) q.pending q _ (λ t. absurd (ground (arith, t, p))) (λ t. inl (refl, e))

-- A cursor that was queued during the call waits whatever the call answered.
after_send-kept :
    (ok : Bool) (c d : CursorUpdate × List ℕ) (q : CursorQueue)
    → q.pending ≡ true
    → q.cursor ≡ c
    → IsSettled c (after_send ok d q)
unfolding after_send
after_send-kept true c d q p e = inl (p, e)
after_send-kept false c d q p e =
    if_holds (IsSettled c) q.pending q _ (λ t. inl (p, e)) (λ t. absurd (ground (arith, t, p)))

flush_cursor-IsSettled :
    (ok : Bool) (other : Option (CursorUpdate × List ℕ)) (c : CursorUpdate × List ℕ)
    (q : CursorQueue)
    → IsSettled c q
    → IsSettled (later other c) (flush_cursor ok other q)
unfolding flush_cursor meanwhile queue_cursor
flush_cursor-IsSettled ok none c q i =
    if_holds (IsSettled c) (not q.pending) q _ (λ t. i) (λ t. waiting t i)
  where
    waiting :
        not q.pending ≡ false
        → IsSettled c q
        → IsSettled c (after_send ok q.cursor (record q { pending = false }))
    waiting t (inl (p, e)) =
        after_send-IsSettled ok c q.cursor (record q { pending = false }) e refl
    waiting t (inr (p, e)) = absurd (ground (arith, t, p))
flush_cursor-IsSettled ok (some d) c q i =
    if_holds (IsSettled d) (not q.pending) (queue_cursor d q) _ (λ t. inl (refl, refl))
      (λ t. after_send-kept ok d q.cursor (queue_cursor d (record q { pending = false })) refl refl)

-- Of whatever cursors the page sets while the input thread sends them, some of which the transport refuses:
-- the one that was set last waits to be sent, or it is the last that the transport took.
pub run_cursor-newest :
    (es : List CursorEvent) (c : CursorUpdate × List ℕ) (q : CursorQueue)
    → IsSettled c q
    → IsSettled (newest es c) (run_cursor es q)
unfolding run_cursor newest
run_cursor-newest [] c q i = i
run_cursor-newest (queue d ∷ es) c q i =
    run_cursor-newest es d (queue_cursor d q) (queue_cursor-IsSettled d q)
run_cursor-newest (flush ok other ∷ es) c q i =
    run_cursor-newest es (later other c) (flush_cursor ok other q)
      (flush_cursor-IsSettled ok other c q i)
