-- ===== src/RetryQueue/Sound.antt =====
-- src/gateway/src/proactive/state/retry-queue.ts: the list and the index agree, no id is queued twice,
-- and no task is kept that has used up its attempts.
use flopsy.Prelude.{ℕ, Bool, Option, List, [], ◌∷◌, Text}
use flopsy.Prelude.JsMap
use flopsy.Prelude.JsMap.{JsMap}
use flopsy.RetryQueue.{load, RetryTask, NewTask, RetryQueue, add, record_attempt, remove}
use flopsy.RetryQueue.Loads.{IsClean}

-- What happens to a queue after it was made.
pub data Event (M J : Type 0) : Type 0 where
  adds : ℕ → NewTask M J → Event M J
  attempts : ℕ → Text → Bool → Option Text → Event M J
  removes : Text → Event M J
  loads : ℕ → List (RetryTask M J) → Event M J

-- A file that is loaded is one that a queue could have written.
abbrev pub IsReadable : {M J : Type 0} → Event M J → Type 0
IsReadable (loads now parsed) = IsClean parsed
IsReadable (adds now task) = Unit {0}
IsReadable (attempts now id success error) = Unit {0}
IsReadable (removes id) = Unit {0}

module _ {M J : Type 0} where
  abbrev pub step : RetryQueue M J → Event M J → RetryQueue M J
  step q (adds now task) = add now task q
  step q (attempts now id success error) = (record_attempt now id success error q).1
  step q (removes id) = remove id q
  step q (loads now parsed) = load now parsed q

  abbrev pub run : RetryQueue M J → List (Event M J) → RetryQueue M J
  run q [] = q
  run q (e ∷ es) = run (step q e) es
