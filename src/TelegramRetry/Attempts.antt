-- ===== src/TelegramRetry/Attempts.antt =====
-- src/gateway/src/channels/telegram/retry.ts: how often a call is made, and what comes of it.
use flopsy.Prelude.{
  ℕ, zero, suc, ◌+◌, ◌≤◌, min, ◌≡◌, refl, ◌⊎◌, inl, inr, true, false, Option, none, some, List, [],
  ◌∷◌, arith, leb, Bool-cases, Outcome, returned, thrown,
}
use flopsy.TelegramRetry.{
  RetryOptions, attempts_of, max_delay_of, delay_after, delay_of, after_attempt, retry_from,
  retry_telegram,
}

module _ {E T : Type 0} (opts : RetryOptions E) (fn : ℕ → Outcome E T) (random : ℕ → ℕ) where
  -- The wait after an error that names one is no shorter, but for the limit on all waits.
  abbrev pub Respects : Option ℕ → ℕ → Type 0
  Respects none d = Unit
  Respects (some t) d = min t (max_delay_of opts) ≤ d

  -- The attempts from one on failed with errors to retry, and were followed by these waits.
  abbrev pub Retried : ℕ → List ℕ → Type 0
  Retried attempt [] = Unit
  Retried attempt (d ∷ ds) =
      ((err : E) × (fn attempt ≡ thrown err)
        × (opts.should_retry err ≡ true)
        × (d ≤ max_delay_of opts)
        × Respects (opts.retry_after_ms err) d)
      × Retried (attempt + 1) ds

  -- The attempt after as many waits.
  abbrev pub last_of : ℕ → List ℕ → ℕ
  last_of attempt [] = attempt
  last_of attempt (d ∷ ds) = last_of (attempt + 1) ds

  -- The last attempt gave the result: a value, or an error that is not retried any more.
  abbrev pub Ended : ℕ → Outcome (Option E) T → Type 0
  Ended last (returned v) = fn last ≡ returned v
  Ended last (thrown none) = true ≡ false
  Ended last (thrown (some err)) =
      (fn last ≡ thrown err) × ((attempts_of opts ≡ last) ⊎ (opts.should_retry err ≡ false))

  delay_after-le : (attempt r : ℕ) (o : Option ℕ) → delay_after opts attempt r o ≤ max_delay_of opts
  unfolding delay_after
  delay_after-le attempt r none = omega arith
  delay_after-le attempt r (some t) = omega arith

  delay_after-Respects : (attempt r : ℕ) (o : Option ℕ) → Respects o (delay_after opts attempt r o)
  unfolding delay_after
  delay_after-Respects attempt r none = tt
  delay_after-Respects attempt r (some t) = omega arith

  pub Outlined : ℕ → Outcome (Option E) T × List ℕ → Type 0
  Outlined attempt (result, delays) =
      Retried attempt delays
      × Ended (last_of attempt delays) result
      × (last_of attempt delays ≤ attempts_of opts)

  after_attempt-Outlined :
      (attempt : ℕ) (o : Outcome E T) (rest : Outcome (Option E) T × List ℕ)
      → fn attempt ≡ o
      → attempt ≤ attempts_of opts
      → (attempt + 1 ≤ attempts_of opts → Outlined (attempt + 1) rest)
      → Outlined attempt (after_attempt opts fn random attempt o rest)
  unfolding after_attempt Outlined
  after_attempt-Outlined attempt (returned v) rest e le more = (tt, e, le)
  after_attempt-Outlined attempt (thrown err) (result, delays) e le more =
      elim (Bool-cases (leb (attempts_of opts) attempt)) [
        | inl last ↦ rw last (tt, (e, inl (ground (arith, le, last))), le)
        | inr left ↦ elim (Bool-cases (opts.should_retry err)) [
          | inl retried ↦
              let le' : attempt + 1 ≤ attempts_of opts = ground (arith, left) in
              let (r, ended, bounded) = more le' in
              rw left (
                rw retried (
                  (
                    (
                      err,
                      e,
                      retried,
                      unfold delay_of in
                          delay_after-le attempt (random attempt) (opts.retry_after_ms err),
                      unfold delay_of in
                          delay_after-Respects attempt (random attempt) (opts.retry_after_ms err),
                    ),
                    r,
                  ),
                  ended,
                  bounded,
                ))
          | inr not_retried ↦ rw left (rw not_retried (tt, (e, inr not_retried), le))
        ]
      ]

  retry_from-Outlined :
      (left attempt : ℕ)
      → left + attempt ≡ attempts_of opts + 1
      → attempt ≤ attempts_of opts
      → Outlined attempt (retry_from opts fn random left attempt)
  unfolding retry_from
  retry_from-Outlined zero attempt h le =
      let absurd : true ≡ false = ground (arith, h, le) in unfold Outlined in (tt, absurd, le)
  retry_from-Outlined (suc left) attempt h le =
      after_attempt-Outlined attempt (fn attempt) (retry_from opts fn random left (attempt + 1))
        refl le (retry_from-Outlined left (attempt + 1) (omega (arith, h)))

  -- If at least one attempt is allowed, the call is made at most as often as is allowed: all attempts
  -- but the last fail with errors to retry, and are each followed by a wait of at most the longest
  -- delay, which is at least what the error asks for or that longest delay; the last attempt gives the
  -- result, which is a value, or an error after the last attempt allowed or that is not to be retried.
  pub retry_telegram-Outlined : 1 ≤ attempts_of opts → Outlined 1 (retry_telegram opts fn random)
  unfolding retry_telegram
  retry_telegram-Outlined h = retry_from-Outlined (attempts_of opts) 1 (omega arith) h
