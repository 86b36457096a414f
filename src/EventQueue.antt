-- ===== src/EventQueue.antt =====
-- src/gateway/src/core/event-queue.ts (EventQueue). A promise is a number, and a promise that is
-- resolved is in a list with its value, the last one first. A timer fires as a step of its own.
pub mod Order
pub mod Promises
mod Examples
use flopsy.Prelude.{
  ℕ, ◌+◌, Bool, true, false, not, ◌||◌, Option, none, some, List, [], ◌∷◌, ◌++◌, leb, ◌==◌,
  if◌then◌else◌, length, drop, keep,
}

abbrev pub max_queued_events : ℕ
max_queued_events = 1_000

pub record Waiter : Type 0 where
  pub promise : ℕ
  pub timeout_ms : ℕ

pub record EventQueue (E : Type 0) : Type 0 where
  pub queue : List E
  pub waiters : List Waiter
  pub next_promise : ℕ
  pub resolved : List (ℕ × Bool)

unfoldable pub new_queue : {E : Type 0} → EventQueue E
new_queue = record { queue = []; waiters = []; next_promise = 0; resolved = [] }

settle_all : Bool → List Waiter → List (ℕ × Bool) → List (ℕ × Bool)
settle_all notified [] resolved = resolved
settle_all notified (w ∷ ws) resolved = settle_all notified ws ((w.promise, notified) ∷ resolved)

unfoldable pub is_waiting : ℕ → List Waiter → Bool
is_waiting p [] = false
is_waiting p (w ∷ ws) = w.promise == p || is_waiting p ws

module _ {E : Type 0} where
  unfoldable pub size : EventQueue E → ℕ
  size q = length q.queue

  unfoldable pub notify_all : Bool → EventQueue E → EventQueue E
  unfolding settle_all
  notify_all notified q = record q {
    waiters = [];
    resolved = settle_all notified q.waiters q.resolved;
  }

  unfoldable pub push : E → EventQueue E → EventQueue E
  unfolding notify_all
  push event q =
      let kept = if leb max_queued_events (length q.queue) then drop 1 q.queue else q.queue in
      notify_all true (record q { queue = kept ++ event ∷ [] })

  after_shift : List E → EventQueue E → Option E × EventQueue E
  after_shift [] q = (none, q)
  after_shift (e ∷ es) q = (some e, record q { queue = es })

  unfoldable pub try_dequeue : EventQueue E → Option E × EventQueue E
  unfolding after_shift
  try_dequeue q = after_shift q.queue q

  -- The number of the promise, and the queue.
  wait : List E → ℕ → EventQueue E → EventQueue E
  wait (e ∷ es) timeout q = record q {
    next_promise = q.next_promise + 1;
    resolved = (q.next_promise, true) ∷ q.resolved;
  }
  wait [] timeout q = record q {
    next_promise = q.next_promise + 1;
    waiters = q.waiters ++ record { promise = q.next_promise; timeout_ms = timeout } ∷ [];
  }

  unfoldable pub wait_for_event : ℕ → EventQueue E → ℕ × EventQueue E
  unfolding wait
  wait_for_event timeout q = (q.next_promise, wait q.queue timeout q)

  -- The timer of a promise; one that was settled before is not again.
  unfoldable pub timer_fires : ℕ → EventQueue E → EventQueue E
  unfolding is_waiting
  timer_fires p q =
      if is_waiting p q.waiters
      then record q {
        waiters = keep (λ w. not (w.promise == p)) q.waiters;
        resolved = (p, false) ∷ q.resolved;
      }
      else q

  unfoldable pub clear : EventQueue E → EventQueue E
  unfolding notify_all
  clear q = notify_all true (record q { queue = [] })
