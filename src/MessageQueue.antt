-- ===== src/MessageQueue.antt =====
-- src/gateway/src/core/message-queue.ts: the queue of one worker, which hands its messages over in
-- batches, and the text of a batch. A promise is a number, `resolved` records what each promise was
-- resolved with, and the coalescing timer is the time at which it fires. The type of an attachment
-- is a parameter.
mod Examples
pub mod Order
use flopsy.Prelude.{
  ℕ, ◌+◌, Bool, true, false, not, Option, none, some, List, [], ◌∷◌, ◌++◌, ltb, leb, if◌then◌else◌,
  length, keep, Text, codes, decimal,
}

abbrev pub max_queued_messages : ℕ
max_queued_messages = 500

abbrev overflow_log_interval_ms : ℕ
overflow_log_interval_ms = 60_000

pub record QueuedMessage (Media : Type 0) : Type 0 where
  pub text : Text
  pub enqueued_at : ℕ
  pub media : Option (List Media)
  pub synthetic : Bool

pub record MessageQueue (Media : Type 0) : Type 0 where
  pub buffer : List (QueuedMessage Media)
  pub waiter : Option ℕ
  pub coalesce_timer : Option ℕ
  pub coalesce_delay_ms : ℕ
  pub last_overflow_warn_at : ℕ
  pub overflow_drops_since_warn : ℕ
  pub next_promise : ℕ
  pub resolved : List (ℕ × List (QueuedMessage Media))

-- A waiter (re)starts the timer.
arm : ℕ → Option ℕ → Option ℕ → ℕ → Option ℕ
arm now none timer delay = timer
arm now (some p) timer delay = some (now + delay)

module _ {Media : Type 0} where
  unfoldable pub new_queue : ℕ → MessageQueue Media
  new_queue coalesce_delay_ms = record {
    buffer = [];
    waiter = none;
    coalesce_timer = none;
    coalesce_delay_ms = coalesce_delay_ms;
    last_overflow_warn_at = 0;
    overflow_drops_since_warn = 0;
    next_promise = 0;
    resolved = [];
  }

  unfoldable pub size : MessageQueue Media → ℕ
  size q = length q.buffer

  -- The warning is logged if the last one lies more than an interval back.
  drop_newest : ℕ → MessageQueue Media → MessageQueue Media
  drop_newest now q =
      if ltb (q.last_overflow_warn_at + overflow_log_interval_ms) now
      then record q { last_overflow_warn_at = now; overflow_drops_since_warn = 0 }
      else record q { overflow_drops_since_warn = q.overflow_drops_since_warn + 1 }

  unfoldable pub enqueue : ℕ → QueuedMessage Media → MessageQueue Media → Bool × MessageQueue Media
  unfolding drop_newest arm
  enqueue now m q =
      if leb max_queued_messages (length q.buffer) then (false, drop_newest now q) else (
        true,
        record q {
          buffer = q.buffer ++ m ∷ [];
          coalesce_timer = arm now q.waiter q.coalesce_timer q.coalesce_delay_ms;
        },
      )

  -- `resolve(batch)` for the promise.
  unfoldable pub resolve : ℕ → List (QueuedMessage Media) → MessageQueue Media → MessageQueue Media
  resolve p batch q = record q { resolved = q.resolved ++ (p, batch) ∷ [] }

  -- A waiter that is left is resolved with no message.
  unfoldable pub release : Option ℕ → MessageQueue Media → MessageQueue Media
  unfolding resolve
  release none q = q
  release (some p) q = resolve p [] (record q { waiter = none })

  unfoldable pub drain : MessageQueue Media → List (QueuedMessage Media) × MessageQueue Media
  drain q = (q.buffer, record q { buffer = [] })

  -- The promise that is returned, and the queue.
  unfoldable pub dequeue : MessageQueue Media → ℕ × MessageQueue Media
  unfolding drain resolve release
  dequeue q =
      let p = q.next_promise in
      let q' = record q { next_promise = p + 1 } in
      if ltb 0 (length q.buffer)
      then (let (batch, q'') = drain q' in (p, resolve p batch q''))
      else (p, record (release q'.waiter q') { waiter = some p })

  unfoldable pub clear : MessageQueue Media → MessageQueue Media
  unfolding release
  clear q = let q' = record q { buffer = []; coalesce_timer = none } in release q'.waiter q'

  flush_waiter : Option ℕ → MessageQueue Media → MessageQueue Media
  unfolding drain resolve
  flush_waiter none q = q
  flush_waiter (some p) q =
      let (batch, q') = drain (record q { waiter = none }) in resolve p batch q'

  unfoldable pub flush : MessageQueue Media → MessageQueue Media
  unfolding flush_waiter
  flush q = flush_waiter q.waiter q

  -- The callback of the timer.
  unfoldable pub timer_fires : MessageQueue Media → MessageQueue Media
  unfolding flush
  timer_fires q = flush (record q { coalesce_timer = none })

pub record CoalescedTurn (Media : Type 0) : Type 0 where
  pub text : Text
  pub media : List Media

module _ {Media : Type 0} where
  media_of : Option (List Media) → List Media
  media_of none = []
  media_of (some ms) = ms

  all_media : List (QueuedMessage Media) → List Media
  unfolding media_of
  all_media [] = []
  all_media (m ∷ ms) = media_of m.media ++ all_media ms

  -- `[i] text` for each item, joined by line breaks.
  numbered : ℕ → List (QueuedMessage Media) → Text
  numbered i [] = []
  numbered i (m ∷ []) = b'[' ∷ (decimal i ++ (codes "] " ++ m.text))
  numbered i (m ∷ n ∷ ms) =
      (b'[' ∷ (decimal i ++ (codes "] " ++ m.text))) ++ (10 ∷ numbered (i + 1) (n ∷ ms))

  -- The text by the items that are real: one, several, or none.
  coalesced_text : QueuedMessage Media → List (QueuedMessage Media) → Text
  unfolding numbered
  coalesced_text first [] = first.text
  coalesced_text first (m ∷ []) = m.text
  coalesced_text first (m ∷ n ∷ ms) = numbered 1 (m ∷ n ∷ ms)

  unfoldable pub coalesce : List (QueuedMessage Media) → CoalescedTurn Media
  unfolding all_media coalesced_text
  coalesce [] = record { text = []; media = [] }
  coalesce (first ∷ rest) = record {
    text = coalesced_text first (keep (λ m. not m.synthetic) (first ∷ rest));
    media = all_media (first ∷ rest);
  }
