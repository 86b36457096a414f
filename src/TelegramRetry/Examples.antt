-- ===== src/TelegramRetry/Examples.antt =====
-- Runs of the retries.
use flopsy.Prelude.{
  ℕ, zero, suc, ◌≡◌, refl, true, Option, none, some, [], ◌∷◌, arith, leb, if◌then◌else◌, Text,
  codes, Outcome, returned, thrown,
}
use flopsy.TelegramRetry.{RetryOptions, attempts_of, retry_telegram}
use flopsy.TelegramRetry.Attempts.{Outlined, retry_telegram-Outlined}

-- An error is the wait that it asks for, with 0 for none.
abbrev asked : ℕ → Option ℕ
asked zero = none
asked (suc n) = some (suc n)

abbrev by_default : RetryOptions ℕ
by_default = record {
  attempts = none;
  min_delay_ms = none;
  max_delay_ms = none;
  jitter = none;
  should_retry = λ e. true;
  retry_after_ms = asked;
}

-- Two failures, of which the second asks for ten minutes, and an answer.
abbrev call : ℕ → Outcome ℕ Text
call attempt =
    if leb attempt 1
    then thrown 0
    else if leb attempt 2
    then thrown 600_000
    else returned (codes "ok")

abbrev random : ℕ → ℕ
random attempt = 250_000

retry_telegram-Outlined_example :
    Outlined by_default call random 1 (retry_telegram by_default call random)
unfolding attempts_of
retry_telegram-Outlined_example = retry_telegram-Outlined by_default call random (omega arith)

-- The ten minutes are cut to five.
asked_wait_is_cut :
    retry_telegram by_default call random ≡ (returned (codes "ok"), 380 ∷ 300_000 ∷ [])
unfolding retry_telegram
asked_wait_is_cut = refl
