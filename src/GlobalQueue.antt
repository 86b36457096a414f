-- ===== src/GlobalQueue.antt =====
-- src/gateway/src/core/global-message-queue.ts: the queue that orders the messages of all threads by
-- priority. `randomUUID()` and `Date.now()` are arguments; a listener is a number, and `calls`
-- records which listeners were called.
mod Examples
pub mod Order
use flopsy.Prelude.{
  ℕ, zero, suc, Bool, true, false, not, ◌&&◌, Option, none, some, List, [], ◌∷◌, ◌++◌, ltb, leb,
  ◌==◌, if◌then◌else◌, length, take, drop, keep, Text, str_eq,
}

pub data QueuePriority : Type 0 where
  now next later : QueuePriority

pub record GlobalQueueEntry : Type 0 where
  pub id : Text
  pub thread_id : Text
  pub text : Text
  pub enqueued_at : ℕ
  pub priority : QueuePriority

abbrev pub priority_order : QueuePriority → ℕ
priority_order now = 0
priority_order next = 1
priority_order later = 2

pub record GlobalMessageQueue : Type 0 where
  pub entries : List GlobalQueueEntry
  pub listeners : List ℕ
  pub calls : List ℕ

unfoldable pub notify : GlobalMessageQueue → GlobalMessageQueue
notify q = record q { calls = q.calls ++ q.listeners }

-- The two `break`s of the scan.
abbrev pub stops : GlobalQueueEntry → GlobalQueueEntry → Bool
stops prev item =
    if ltb (priority_order prev.priority) (priority_order item.priority)
    then true
    else priority_order prev.priority == priority_order item.priority
      && leb prev.enqueued_at item.enqueued_at

stops_at : Option GlobalQueueEntry → GlobalQueueEntry → Bool
stops_at none item = false
stops_at (some prev) item = stops prev item

-- `entries[i]`.
abbrev pub entry_at : List GlobalQueueEntry → ℕ → Option GlobalQueueEntry
entry_at [] i = none
entry_at (e ∷ es) zero = some e
entry_at (e ∷ es) (suc i) = entry_at es i

-- `while (i > 0)` from the end.
position : GlobalQueueEntry → List GlobalQueueEntry → ℕ → ℕ
unfolding stops_at
position item entries zero = 0
position item entries (suc i) =
    let rest = position item entries i in if stops_at (entry_at entries i) item then suc i else rest

-- `entries.splice(i, 0, item)`.
abbrev pub splice_in : ℕ → GlobalQueueEntry → List GlobalQueueEntry → List GlobalQueueEntry
splice_in i item entries = take i entries ++ item ∷ drop i entries

unfoldable pub enqueue : GlobalQueueEntry → GlobalMessageQueue → Text × GlobalMessageQueue
unfolding position notify
enqueue item q =
    let i = position item q.entries (length q.entries) in
    (item.id, notify (record q { entries = splice_in i item q.entries }))

skipped :
    GlobalQueueEntry
    → Option (GlobalQueueEntry × List GlobalQueueEntry)
    → Option (GlobalQueueEntry × List GlobalQueueEntry)
skipped e none = none
skipped e (some (x, xs)) = some (x, e ∷ xs)

-- `entries.findIndex(filter)` and the entry there, with the entries that are left.
unfoldable pub pick :
    (GlobalQueueEntry → Bool)
    → List GlobalQueueEntry
    → Option (GlobalQueueEntry × List GlobalQueueEntry)
unfolding skipped
pick p [] = none
pick p (e ∷ es) = if p e then some (e, es) else skipped e (pick p es)

-- No filter takes the first entry, and notifies the listeners also when there is none.
dequeue_first :
    List GlobalQueueEntry → GlobalMessageQueue → Option GlobalQueueEntry × GlobalMessageQueue
unfolding notify
dequeue_first [] q = (none, notify q)
dequeue_first (e ∷ es) q = (some e, notify (record q { entries = es }))

dequeue_picked :
    Option (GlobalQueueEntry × List GlobalQueueEntry)
    → GlobalMessageQueue
    → Option GlobalQueueEntry × GlobalMessageQueue
unfolding notify
dequeue_picked none q = (none, q)
dequeue_picked (some (e, es)) q = (some e, notify (record q { entries = es }))

unfoldable pub dequeue :
    Option (GlobalQueueEntry → Bool)
    → GlobalMessageQueue
    → Option GlobalQueueEntry × GlobalMessageQueue
unfolding dequeue_first dequeue_picked pick
dequeue none q = dequeue_first q.entries q
dequeue (some p) q = dequeue_picked (pick p q.entries) q

unfoldable pub peek : Option (GlobalQueueEntry → Bool) → GlobalMessageQueue → List GlobalQueueEntry
peek none q = q.entries
peek (some p) q = keep p q.entries

unfoldable pub remove : Text → GlobalMessageQueue → Bool × GlobalMessageQueue
unfolding notify
remove id q =
    let left = keep (λ e. not (str_eq e.id id)) q.entries in
    if length left == length q.entries
    then (false, record q { entries = left })
    else (true, notify (record q { entries = left }))

-- A listener is added to a set; the function that is returned takes it out.
unfoldable pub subscribe : ℕ → GlobalMessageQueue → GlobalMessageQueue
subscribe l q = record q { listeners = keep (λ k. not (k == l)) q.listeners ++ l ∷ [] }

unfoldable pub unsubscribe : ℕ → GlobalMessageQueue → GlobalMessageQueue
unsubscribe l q = record q { listeners = keep (λ k. not (k == l)) q.listeners }
