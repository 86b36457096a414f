-- ===== src/GlobalQueue/Examples.antt =====
-- Runs of the queue of all threads.
use flopsy.Prelude.{ℕ, ◌≡◌, refl, Bool, some, [], ◌∷◌, Text, codes, str_eq}
use mathlib.Core.List.{Perm}
use flopsy.GlobalQueue.{
  QueuePriority, now, next, later, GlobalQueueEntry, GlobalMessageQueue, enqueue, dequeue,
}
use flopsy.GlobalQueue.Order.{IsOrdered, IsBest, enqueue-IsOrdered, dequeue-IsBest}

abbrev entry : Text → Text → ℕ → QueuePriority → GlobalQueueEntry
entry id thread_id enqueued_at priority = record {
  id = id;
  thread_id = thread_id;
  text = codes "text";
  enqueued_at = enqueued_at;
  priority = priority;
}

abbrev urgent : GlobalQueueEntry
urgent = entry (codes "a") (codes "cli") 30 now

abbrev usual : GlobalQueueEntry
usual = entry (codes "b") (codes "line") 10 next

abbrev lazy : GlobalQueueEntry
lazy = entry (codes "c") (codes "cli") 20 later

abbrev held : GlobalMessageQueue
held = record { entries = usual ∷ lazy ∷ []; listeners = 1 ∷ []; calls = [] }

abbrev three : GlobalMessageQueue
three = record { entries = urgent ∷ usual ∷ lazy ∷ []; listeners = 1 ∷ []; calls = [] }

abbrev of_cli : GlobalQueueEntry → Bool
of_cli e = str_eq e.thread_id (codes "cli")

enqueue-IsOrdered_example :
    let q' = (enqueue urgent held).1 in
    IsOrdered q'.entries × Perm q'.entries (urgent ∷ usual ∷ lazy ∷ [])
enqueue-IsOrdered_example = enqueue-IsOrdered urgent held ((refl, tt), (tt, tt))

in_front : (enqueue urgent held).1.entries ≡ urgent ∷ usual ∷ lazy ∷ []
unfolding enqueue
in_front = refl

dequeue-IsBest_example : IsBest of_cli three.entries urgent (dequeue (some of_cli) three).1.entries
unfolding dequeue str_eq
dequeue-IsBest_example =
    dequeue-IsBest of_cli three urgent ((refl, (refl, tt)), ((refl, tt), (tt, tt))) refl
