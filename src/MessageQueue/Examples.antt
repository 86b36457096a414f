-- ===== src/MessageQueue/Examples.antt =====
-- Runs of the queue of a worker.
use flopsy.Prelude.{
  ℕ, ◌≡◌, refl, Bool, true, false, some, List, [], ◌∷◌, ◌++◌, length, Text, codes, decimal,
}
use flopsy.MessageQueue.{QueuedMessage, new_queue, coalesce, enqueue, dequeue, timer_fires}
use flopsy.MessageQueue.Order.{
  Event, enqueues, dequeues, fires, run, delivered, accepted, IsSound, IsAnswered, has_value,
  run_order, run-new_queue,
}

abbrev message : Text → Bool → QueuedMessage ℕ
message text synthetic = record {
  text = text;
  enqueued_at = 5;
  media = some (7 ∷ []);
  synthetic = synthetic;
}

abbrev hello : QueuedMessage ℕ
hello = message (codes "hello") false

abbrev again : QueuedMessage ℕ
again = message (codes "again") false

abbrev nudge : QueuedMessage ℕ
nudge = message (codes "nudge") true

abbrev history : List (Event ℕ)
history = dequeues ∷ enqueues 10 hello ∷ enqueues 20 again ∷ fires ∷ enqueues 30 nudge ∷ []

run_order_example :
    delivered (run (new_queue 50) history) ++ (run (new_queue 50) history).buffer
    ≡ (delivered (new_queue 50) ++ (new_queue {Media = ℕ} 50).buffer)
      ++ accepted (new_queue 50) history
run_order_example = run_order (new_queue 50) history refl

handed_over : delivered (run (new_queue 50) history) ≡ hello ∷ again ∷ []
unfolding delivered new_queue enqueue dequeue timer_fires
handed_over = refl

run-new_queue_example :
    let q = run (new_queue 50) history in
    IsSound q
    × (has_value (timer_fires q).waiter ≡ false)
    × (has_value q.waiter ≡ true → length (timer_fires q).buffer ≡ 0)
    × IsAnswered q
    × ((p : ℕ) → q.waiter ≡ some p → (timer_fires q).resolved ≡ q.resolved ++ (p, q.buffer) ∷ [])
run-new_queue_example = run-new_queue 50 history

numbered_turn :
    (coalesce (hello ∷ nudge ∷ again ∷ [])).text ≡ codes "[1] hello" ++ 10 ∷ codes "[2] again"
unfolding coalesce decimal
numbered_turn = refl
