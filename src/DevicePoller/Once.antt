-- ===== src/DevicePoller/Once.antt =====
-- src/team/src/auth/device-poller.ts: one outcome for each authorization, and the interval of the
-- polls.
use flopsy.Prelude.{
  ℕ, ◌+◌, ◌*◌, ◌≤◌, ◌<◌, ◌≡◌, refl, ◌∙◌, inl, inr, Bool, true, false, Option, none, some, List, [],
  ◌∷◌, arith, Option-cases, length, length-append,
}
use flopsy.DevicePoller.{
  expired, error, on_success, on_failure, PollResult, success, pending, poll_error, terminal,
  DevicePoller, start_device_polling, tick, timer_fires, fires, poll_answers, poll_throws, cancel,
  take_answer, schedule, call, reason_of,
}

-- What happens to a poller: its timeout may fire, and a poll that is under way ends.
pub data Event (C : Type 0) : Type 0 where
  timeout throws : ℕ → Event C
  answers : ℕ → PollResult C → Event C
  cancels : Event C

abbrev pub one_if : Bool → ℕ
one_if true = 1
one_if false = 0

abbrev pub is_armed : Option ℕ → Bool
is_armed none = false
is_armed (some t) = true

module _ {C : Type 0} where
  abbrev pub step : DevicePoller C → Event C → DevicePoller C
  step p (timeout now) = timer_fires now p
  step p (answers now result) = poll_answers now result p
  step p (throws now) = poll_throws now p
  step p cancels = cancel p

  abbrev pub run : DevicePoller C → List (Event C) → DevicePoller C
  run p [] = p
  run p (e ∷ es) = run (step p e) es

  -- A poll ends only while it is under way, and nobody cancels.
  abbrev pub IsHistory : DevicePoller C → List (Event C) → Type 0
  IsHistory p [] = Unit {0}
  IsHistory p (timeout now ∷ es) = IsHistory (timer_fires now p) es
  IsHistory p (answers now result ∷ es) =
      (p.in_flight ≡ true) × IsHistory (poll_answers now result p) es
  IsHistory p (throws now ∷ es) = (p.in_flight ≡ true) × IsHistory (poll_throws now p) es
  IsHistory p (cancels ∷ es) = ⊥

  -- What the loop is waiting for, and the outcomes it has told.
  abbrev pub stakes : DevicePoller C → ℕ
  stakes p = one_if (is_armed p.timer) + one_if p.in_flight + length p.calls

  record IsLive (p : DevicePoller C) : Type 0 where
    running : p.is_cancelled ≡ false
    one : stakes p ≡ 1

  timer_fires-IsLive : (now : ℕ) (p : DevicePoller C) → IsLive p → IsLive (timer_fires now p)
  unfolding timer_fires fires tick schedule call
  timer_fires-IsLive now p h = elim (Option-cases p.timer) [
    | inl e ↦ simp e h
    | inr (t, e) ↦
        let told = length-append p.calls (on_failure expired none ∷ []) in
        record {
          running = ground (arith, e, h.running);
          one = ground (arith, e, h.running, h.one, told);
        }
  ]

  -- An answer is one outcome or one pending timeout.
  take_answer-one :
      (now : ℕ) (result : PollResult C) (p : DevicePoller C)
      → is_armed p.timer ≡ false
      → length p.calls ≡ 0
      → let p' = take_answer now result p in
        (one_if (is_armed p'.timer) + length p'.calls ≡ 1) × (p'.is_cancelled ≡ p.is_cancelled)
  unfolding take_answer schedule call
  take_answer-one now (success c) p t n =
      (rw t (omega (arith, n, length-append p.calls (on_success c ∷ []))), refl)
  take_answer-one now (pending interval_seconds slow_down) p t n = (rw n (omega arith), refl)
  take_answer-one now (poll_error detail) p t n =
      (rw t (omega (arith, n, length-append p.calls (on_failure error detail ∷ []))), refl)
  take_answer-one now (terminal status) p t n = (
    rw t (omega (arith, n, length-append p.calls (on_failure (reason_of status) none ∷ []))),
    refl,
  )

  poll_answers-IsLive :
      (now : ℕ) (result : PollResult C) (p : DevicePoller C)
      → p.in_flight ≡ true
      → IsLive p
      → IsLive (poll_answers now result p)
  unfolding poll_answers
  poll_answers-IsLive now result p f h =
      let idle : is_armed p.timer ≡ false = ground (arith, f, h.one) in
      let untold : length p.calls ≡ 0 = ground (arith, f, h.one) in
      let (one, same) = take_answer-one now result p idle untold in
      simp h.running (record { running = same ∙ h.running; one = omega (arith, one) })

  poll_throws-IsLive :
      (now : ℕ) (p : DevicePoller C) → p.in_flight ≡ true → IsLive p → IsLive (poll_throws now p)
  unfolding poll_throws schedule
  poll_throws-IsLive now p f h = ground (arith, f, h.running, h.one)

  run-IsLive :
      (p : DevicePoller C) (es : List (Event C)) → IsHistory p es → IsLive p → IsLive (run p es)
  run-IsLive p [] i h = h
  run-IsLive p (timeout now ∷ es) i h =
      run-IsLive (timer_fires now p) es i (timer_fires-IsLive now p h)
  run-IsLive p (answers now result ∷ es) i h =
      run-IsLive (poll_answers now result p) es i.1 (poll_answers-IsLive now result p i.0 h)
  run-IsLive p (throws now ∷ es) i h =
      run-IsLive (poll_throws now p) es i.1 (poll_throws-IsLive now p i.0 h)
  run-IsLive p (cancels ∷ es) i h = absurd i

  -- While nobody cancels, whatever the service answers or throws, and a poll ending only while one is
  -- under way, a poller is at each time in exactly one of three conditions: its timeout is pending, a
  -- poll is under way, or it has told one outcome. So it never stops without an outcome, never polls
  -- twice at once, and tells one outcome at most.
  pub stakes-run :
      (now interval_seconds expires_at : ℕ) (es : List (Event C))
      → IsHistory (start_device_polling now interval_seconds expires_at) es
      → stakes (run (start_device_polling now interval_seconds expires_at) es) ≡ 1
  stakes-run now interval_seconds expires_at es i =
      let start : IsLive (start_device_polling now interval_seconds expires_at) = record {
        running = unfold start_device_polling schedule in refl;
        one = unfold start_device_polling schedule in refl;
      } in
      (run-IsLive (start_device_polling now interval_seconds expires_at) es i start).one

  -- The service asks a poller that is not cancelled to slow down, its timeout fires after the longer
  -- interval and before the authorization expires, and this time the service says `pending` with an
  -- interval: the five seconds that were added are gone, and the poller waits for that interval, though
  -- RFC 8628 asks for the longer one in all subsequent polls.
  pub slow_down_forgotten :
      (t u v interval_seconds other : ℕ) (p : DevicePoller C)
      → p.is_cancelled ≡ false
      → t + (p.interval_sec + 5) * 1000 ≤ u
      → u < p.expires_at
      → let slowed = poll_answers t (pending other true) p in
        let next = poll_answers v (pending interval_seconds false) (timer_fires u slowed) in
        (slowed.interval_sec ≡ p.interval_sec + 5)
        × (next.interval_sec ≡ interval_seconds)
        × (next.timer ≡ some (v + interval_seconds * 1000))
  unfolding poll_answers take_answer schedule timer_fires fires tick
  slow_down_forgotten t u v interval_seconds other p c h l = ground (arith, c, h, l)
