-- ===== src/MessageQueue/Order.antt =====
-- src/gateway/src/core/message-queue.ts: no accepted message is lost, repeated or reordered, and a
-- worker that waits is woken.
use flopsy.Prelude.{
  ℕ, ◌+◌, ◌≤◌, ◌<◌, ◌≡◌, refl, sym, ap, ◌∙◌, inl, inr, Bool, true, false, Option, none, some, List,
  [], ◌∷◌, ◌++◌, arith, ltb, ◌==◌, if◌then◌else◌, ==_iff, Bool-cases, length, length-append,
}
use mathlib.Core.List.{append-nil, append_assoc}
use flopsy.MessageQueue.{
  QueuedMessage, MessageQueue, max_queued_messages, new_queue, enqueue, dequeue, clear, timer_fires,
}

-- What happens to a queue: the channel and the worker call it, and its timer fires.
pub data Event (Media : Type 0) : Type 0 where
  enqueues : ℕ → QueuedMessage Media → Event Media
  dequeues fires clears : Event Media

abbrev pub has_value {ℓ} : {A : Type ℓ} → Option A → Bool
has_value none = false
has_value (some a) = true

-- How often a promise is the one that waits.
abbrev pub waits_as : ℕ → Option ℕ → ℕ
waits_as p none = 0
waits_as p (some w) = if w == p then 1 else 0

module _ {Media : Type 0} where
  abbrev pub step : MessageQueue Media → Event Media → MessageQueue Media
  step q (enqueues now m) = (enqueue now m q).1
  step q dequeues = (dequeue q).1
  step q fires = timer_fires q
  step q clears = clear q

  abbrev pub run : MessageQueue Media → List (Event Media) → MessageQueue Media
  run q [] = q
  run q (e ∷ es) = run (step q e) es

  batches : List (ℕ × List (QueuedMessage Media)) → List (QueuedMessage Media)
  batches [] = []
  batches ((p, b) ∷ bs) = b ++ batches bs

  -- The messages handed over so far, in order.
  unfoldable pub delivered : MessageQueue Media → List (QueuedMessage Media)
  unfolding batches
  delivered q = batches q.resolved

  -- The messages that `enqueue` accepted, in order.
  pub accepted : MessageQueue Media → List (Event Media) → List (QueuedMessage Media)
  accepted q [] = []
  accepted q (enqueues now m ∷ es) =
      let rest = accepted (enqueue now m q).1 es in if (enqueue now m q).0 then m ∷ rest else rest
  accepted q (e ∷ es) = accepted (step q e) es

  -- No `clear` among the events.
  abbrev pub keeps_all : List (Event Media) → Bool
  keeps_all [] = true
  keeps_all (clears ∷ es) = false
  keeps_all (e ∷ es) = keeps_all es

  batches-append :
      (xs ys : List (ℕ × List (QueuedMessage Media)))
      → batches (xs ++ ys) ≡ batches xs ++ batches ys
  unfolding batches
  batches-append [] ys = refl
  batches-append ((p, b) ∷ xs) ys =
      ap (λ l. b ++ l) (batches-append xs ys) ∙ sym (append_assoc b (batches xs) (batches ys))

  enqueue_out :
      (now : ℕ) (m : QueuedMessage Media) (q : MessageQueue Media)
      → let (took, q') = enqueue now m q in
        (delivered q' ≡ delivered q) × (q'.buffer ≡ (if took then q.buffer ++ m ∷ [] else q.buffer))
  unfolding enqueue delivered
  enqueue_out now m q = ground arith

  -- The record of one more batch.
  batches_snoc :
      (xs : List (ℕ × List (QueuedMessage Media))) (p : ℕ) (b : List (QueuedMessage Media))
      → batches (xs ++ (p, b) ∷ []) ≡ batches xs ++ b
  batches_snoc xs p b =
      batches-append xs ((p, b) ∷ []) ∙ unfold batches in ap (λ l. batches xs ++ l) (append-nil b)

  dequeue_at :
      (q : MessageQueue Media) (b : List (QueuedMessage Media)) (w : Option ℕ)
      → q.buffer ≡ b
      → q.waiter ≡ w
      → delivered (dequeue q).1 ++ (dequeue q).1.buffer ≡ delivered q ++ q.buffer
  unfolding dequeue delivered
  dequeue_at q [] none eb ew = ground (arith, eb, ew)
  dequeue_at q [] (some p) eb ew =
      ground (arith, eb, ew, batches_snoc q.resolved p [], append-nil (batches q.resolved))
  dequeue_at q (x ∷ xs) w eb ew = ground (
    arith,
    eb,
    batches_snoc q.resolved q.next_promise (x ∷ xs),
    append-nil (batches q.resolved ++ x ∷ xs),
  )

  fires_at :
      (q : MessageQueue Media) (w : Option ℕ)
      → q.waiter ≡ w
      → delivered (timer_fires q) ++ (timer_fires q).buffer ≡ delivered q ++ q.buffer
  unfolding timer_fires delivered
  fires_at q none ew = ground (arith, ew)
  fires_at q (some p) ew =
      ground
        (arith, ew, batches_snoc q.resolved p q.buffer, append-nil (batches q.resolved ++ q.buffer))

  dequeue_out :
      (q : MessageQueue Media)
      → delivered (dequeue q).1 ++ (dequeue q).1.buffer ≡ delivered q ++ q.buffer
  dequeue_out q = dequeue_at q q.buffer q.waiter refl refl

  fires_out :
      (q : MessageQueue Media)
      → delivered (timer_fires q) ++ (timer_fires q).buffer ≡ delivered q ++ q.buffer
  fires_out q = fires_at q q.waiter refl

  -- While nobody clears the queue, the messages handed over and then those still buffered are what
  -- was there before, followed by exactly the accepted messages, each once and in the order of
  -- acceptance.
  pub run_order :
      (q : MessageQueue Media) (es : List (Event Media))
      → keeps_all es ≡ true
      → delivered (run q es) ++ (run q es).buffer ≡ (delivered q ++ q.buffer) ++ accepted q es
  unfolding accepted
  run_order q [] h = sym (append-nil (delivered q ++ q.buffer))
  run_order q (enqueues now m ∷ es) h =
      let (same, grown) = enqueue_out now m q in
      let q' = (enqueue now m q).1 in
      let ih = run_order q' es h in
      elim (Bool-cases (enqueue now m q).0) [
        | inl took ↦
            let longer : q'.buffer ≡ q.buffer ++ m ∷ [] = rw took at grown in
            let head : delivered q' ++ q'.buffer ≡ (delivered q ++ q.buffer) ++ m ∷ [] =
              rw (same, longer) (sym (append_assoc (delivered q) q.buffer (m ∷ []))) in
            rw took (
              ih
              ∙ ap (λ l. l ++ accepted q' es) head
              ∙ append_assoc (delivered q ++ q.buffer) (m ∷ []) (accepted q' es))
        | inr full ↦
            let as_before : q'.buffer ≡ q.buffer = rw full at grown in
            rw full (ih ∙ rw (same, as_before))
      ]
  run_order q (dequeues ∷ es) h =
      run_order (dequeue q).1 es h ∙ ap (λ l. l ++ accepted (dequeue q).1 es) (dequeue_out q)
  run_order q (fires ∷ es) h =
      run_order (timer_fires q) es h ∙ ap (λ l. l ++ accepted (timer_fires q) es) (fires_out q)
  run_order q (clears ∷ es) h = cc

  -- The buffer is within its limit, and where a worker waits for messages that are there, the timer
  -- that will wake it is running.
  pub record IsSound (q : MessageQueue Media) : Type 0 where
    pub within : length q.buffer ≤ max_queued_messages
    pub woken : has_value q.waiter ≡ true → 0 < length q.buffer → has_value q.coalesce_timer ≡ true

  step-IsSound : (q : MessageQueue Media) (e : Event Media) → IsSound q → IsSound (step q e)
  unfolding enqueue dequeue timer_fires clear
  step-IsSound q (enqueues now m) h = ground (arith, h, length-append q.buffer (m ∷ []))
  step-IsSound q dequeues h = ground (arith, h)
  step-IsSound q fires h = ground (arith, h)
  step-IsSound q clears h = ground (arith, h)

  run-IsSound : (q : MessageQueue Media) (es : List (Event Media)) → IsSound q → IsSound (run q es)
  run-IsSound q [] h = h
  run-IsSound q (e ∷ es) h = run-IsSound (step q e) es (step-IsSound q e h)

  -- How often a promise was resolved.
  pub settled : ℕ → List (ℕ × List (QueuedMessage Media)) → ℕ
  settled p [] = 0
  settled p ((r, b) ∷ rs) = (if r == p then 1 else 0) + settled p rs

  settled-snoc :
      (p r : ℕ) (b : List (QueuedMessage Media)) (rs : List (ℕ × List (QueuedMessage Media)))
      → settled p (rs ++ (r, b) ∷ []) ≡ settled p rs + (if r == p then 1 else 0)
  unfolding settled
  settled-snoc p r b [] = omega arith
  settled-snoc p r b ((s, d) ∷ rs) = omega (arith, settled-snoc p r b rs)

  -- Every promise that was given out either waits or was resolved, and that once; no other promise
  -- does.
  abbrev pub IsAnswered : MessageQueue Media → Type 0
  IsAnswered q =
      (p : ℕ) → waits_as p q.waiter + settled p q.resolved ≡ (if ltb p q.next_promise then 1 else 0)

  dequeue-IsAnswered :
      (q : MessageQueue Media) (b : List (QueuedMessage Media)) (w : Option ℕ)
      → q.buffer ≡ b
      → q.waiter ≡ w
      → IsAnswered q
      → IsAnswered (dequeue q).1
  unfolding dequeue
  dequeue-IsAnswered q [] none eb ew h p = ground (arith, eb, ew, h p, ==_iff q.next_promise p)
  dequeue-IsAnswered q [] (some w) eb ew h p =
      ground (arith, eb, ew, h p, settled-snoc p w [] q.resolved, ==_iff q.next_promise p)
  dequeue-IsAnswered q (x ∷ xs) w eb ew h p =
      ground
        (arith, eb, h p, settled-snoc p q.next_promise (x ∷ xs) q.resolved, ==_iff q.next_promise p)

  fires-IsAnswered :
      (q : MessageQueue Media) (w : Option ℕ)
      → q.waiter ≡ w
      → IsAnswered q
      → IsAnswered (timer_fires q)
  unfolding timer_fires
  fires-IsAnswered q none ew h p = ground (arith, ew, h p)
  fires-IsAnswered q (some w) ew h p = ground (arith, ew, h p, settled-snoc p w q.buffer q.resolved)

  clear-IsAnswered :
      (q : MessageQueue Media) (w : Option ℕ) → q.waiter ≡ w → IsAnswered q → IsAnswered (clear q)
  unfolding clear
  clear-IsAnswered q none ew h p = ground (arith, ew, h p)
  clear-IsAnswered q (some w) ew h p = ground (arith, ew, h p, settled-snoc p w [] q.resolved)

  step-IsAnswered :
      (q : MessageQueue Media) (e : Event Media) → IsAnswered q → IsAnswered (step q e)
  unfolding enqueue
  step-IsAnswered q (enqueues now m) h = λ p. ground (arith, h p)
  step-IsAnswered q dequeues h = dequeue-IsAnswered q q.buffer q.waiter refl refl h
  step-IsAnswered q fires h = fires-IsAnswered q q.waiter refl h
  step-IsAnswered q clears h = clear-IsAnswered q q.waiter refl h

  run-IsAnswered :
      (q : MessageQueue Media) (es : List (Event Media)) → IsAnswered q → IsAnswered (run q es)
  run-IsAnswered q [] h = h
  run-IsAnswered q (e ∷ es) h = run-IsAnswered (step q e) es (step-IsAnswered q e h)

  -- A waiter that the timer wakes is resolved with the whole buffer.
  fires-resolved :
      (q : MessageQueue Media) (p : ℕ)
      → q.waiter ≡ some p
      → (timer_fires q).resolved ≡ q.resolved ++ (p, q.buffer) ∷ []
  unfolding timer_fires
  fires-resolved q p h = ground (arith, h)

  -- In every history of a new queue, `clear` included, the buffer holds at most 500 messages, and no
  -- wake-up is lost: a worker that waits while messages are buffered has a running timer; when a timer
  -- fires, the promise that waits is resolved with the whole buffer, and then nobody waits and, if
  -- somebody did, nothing is buffered; and every promise that `dequeue` returned is the one that waits
  -- or was resolved, exactly once, and no other promise is.
  pub run-new_queue :
      (delay : ℕ) (es : List (Event Media))
      → let q = run (new_queue delay) es in
        IsSound q
        × (has_value (timer_fires q).waiter ≡ false)
        × (has_value q.waiter ≡ true → length (timer_fires q).buffer ≡ 0)
        × IsAnswered q
        × ((p : ℕ)
            → q.waiter ≡ some p
            → (timer_fires q).resolved ≡ q.resolved ++ (p, q.buffer) ∷ [])
  unfolding new_queue timer_fires
  run-new_queue delay es =
      let q = run (new_queue delay) es in
      (
        run-IsSound (new_queue delay) es (ground arith),
        ground arith,
        ground arith,
        run-IsAnswered (new_queue delay) es (unfold settled in λ p. ground arith),
        fires-resolved q,
      )
