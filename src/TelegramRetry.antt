-- ===== src/TelegramRetry.antt =====
-- src/gateway/src/channels/telegram/retry.ts (retryTelegram). The call is a function of the number of
-- the attempt, a jitter is counted in thousandths and a random number in millionths, and the delays
-- that were waited for are returned beside the result.
pub mod Attempts
mod Examples
use flopsy.Prelude.{
  ℕ, zero, suc, ◌+◌, ◌-◌, ◌*◌, ◌/◌, ◌^◌, min, max, Bool, not, ◌||◌, Option, none, some, List, [],
  ◌∷◌, leb, if◌then◌else◌, Outcome, returned, thrown,
}

pub record RetryOptions (E : Type 0) : Type 0 where
  pub attempts : Option ℕ
  pub min_delay_ms : Option ℕ
  pub max_delay_ms : Option ℕ
  pub jitter : Option ℕ
  pub should_retry : E → Bool
  pub retry_after_ms : E → Option ℕ

abbrev given : Option ℕ → ℕ → ℕ
given none d = d
given (some n) d = n

-- `Math.max(0, Math.round(delayMs * (1 + offset)))`.
unfoldable pub apply_jitter : ℕ → ℕ → ℕ → ℕ
apply_jitter delay jitter random =
    if leb jitter 0
    then delay
    else (2 * (delay * ((1_000_000_000 + 2 * (random * jitter)) - 1_000_000 * jitter))
        + 1_000_000_000)
      / 2_000_000_000

module _ {E : Type 0} where
  unfoldable pub attempts_of : RetryOptions E → ℕ
  attempts_of opts = given opts.attempts 3

  unfoldable pub max_delay_of : RetryOptions E → ℕ
  max_delay_of opts = given opts.max_delay_ms 300_000

  delay_after : RetryOptions E → ℕ → ℕ → Option ℕ → ℕ
  unfolding max_delay_of apply_jitter
  delay_after opts attempt random (some retry_after) =
      min (max retry_after (given opts.min_delay_ms 400)) (max_delay_of opts)
  delay_after opts attempt random none =
      min
        (apply_jitter (given opts.min_delay_ms 400 * 2 ^ (attempt - 1)) (given opts.jitter 100)
          random)
        (max_delay_of opts)

  unfoldable pub delay_of : RetryOptions E → ℕ → ℕ → E → ℕ
  unfolding delay_after
  delay_of opts attempt random err = delay_after opts attempt random (opts.retry_after_ms err)

module _ {E T : Type 0} (opts : RetryOptions E) (fn : ℕ → Outcome E T) (random : ℕ → ℕ) where
  after_attempt : ℕ → Outcome E T → Outcome (Option E) T × List ℕ → Outcome (Option E) T × List ℕ
  unfolding attempts_of delay_of
  after_attempt attempt (returned v) rest = (returned v, [])
  after_attempt attempt (thrown err) rest =
      if leb (attempts_of opts) attempt || not (opts.should_retry err)
      then (thrown (some err), [])
      else (rest.0, delay_of opts attempt (random attempt) err ∷ rest.1)

  -- The loop, with the number of attempts that are left; what is thrown is the last error, or none.
  unfoldable pub retry_from : ℕ → ℕ → Outcome (Option E) T × List ℕ
  unfolding after_attempt
  retry_from zero attempt = (thrown none, [])
  retry_from (suc left) attempt = after_attempt attempt (fn attempt) (retry_from left (attempt + 1))

  unfoldable pub retry_telegram : Outcome (Option E) T × List ℕ
  unfolding retry_from attempts_of
  retry_telegram = retry_from (attempts_of opts) 1
