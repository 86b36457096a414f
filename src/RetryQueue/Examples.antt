-- ===== src/RetryQueue/Examples.antt =====
-- Runs of the retry queue.
use flopsy.Prelude.{ℕ, ◌≡◌, refl, false, none, some, List, [], ◌∷◌, Text, codes, str_eq}
use flopsy.RetryQueue.{RetryTask, NewTask, delivery, new_queue, size, add, record_attempt, load}
use flopsy.RetryQueue.Sound.{Event, loads, adds, attempts, run}

abbrev blank : RetryTask Text Text
blank = record {
  id = [];
  type = delivery;
  message = none;
  job_payload = none;
  created_at = 0;
  attempts = 0;
  max_attempts = 3;
  next_retry_at = 0;
  last_error = none;
}

abbrev hello : NewTask Text Text
hello = record { id = codes "m1"; type = delivery; message = some (codes "hi"); job_payload = none }

abbrev failure : ℕ → Event Text Text
failure now = attempts now (codes "m1") false (some (codes "offline"))

-- A task of the file, which has failed once.
abbrev older : RetryTask Text Text
older = record blank { id = codes "m0"; attempts = 1 }

abbrev history : List (Event Text Text)
history =
    loads 5 (older ∷ []) ∷ adds 10 hello ∷ adds 20 hello ∷ failure 40_000 ∷ failure 200_000 ∷ []

queued_once : size (run (new_queue blank) history) ≡ 2
unfolding size load add record_attempt new_queue str_eq
queued_once = refl

given_up : size (run (run (new_queue blank) history) (failure 900_000 ∷ [])) ≡ 1
unfolding size load add record_attempt new_queue str_eq
given_up = refl

-- A file with an id twice is loaded with both tasks.
loaded_twice : size (load 100 (blank ∷ blank ∷ []) (new_queue blank)) ≡ 2
unfolding size load new_queue
loaded_twice = refl
