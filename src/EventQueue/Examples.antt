-- ===== src/EventQueue/Examples.antt =====
-- Runs of the event queue.
use flopsy.Prelude.{ℕ, ◌≡◌, refl, true, false, List, [], ◌∷◌}
use flopsy.EventQueue.{new_queue, push, try_dequeue, wait_for_event, timer_fires}
use flopsy.EventQueue.Order.{
  Operation, pushing, dequeuing, waiting, firing, step, run, start, IsOrderly, run-start-IsOrderly,
}

abbrev some_steps : List (Operation ℕ)
some_steps =
    waiting 50 ∷ waiting 90 ∷ firing 0 ∷ pushing 7 ∷ pushing 8 ∷ dequeuing ∷ waiting 20 ∷ []

run-start-IsOrderly_example : IsOrderly (run some_steps start)
run-start-IsOrderly_example = run-start-IsOrderly some_steps

-- The first waiter timed out, the second was told of the push, the third found an event.
all_resolved : (run some_steps start).queue.resolved ≡ (2, true) ∷ (1, true) ∷ (0, false) ∷ []
unfolding run step start new_queue push try_dequeue wait_for_event timer_fires
all_resolved = refl
