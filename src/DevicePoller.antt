-- ===== src/DevicePoller.antt =====
-- src/team/src/auth/device-poller.ts: the poll loop of a device authorization. `Date.now()` is an
-- argument, `googleDeviceFlow.poll` is its answer, a pending timeout is the time at which it fires,
-- and `calls` records the callbacks that were made. A callback that throws is swallowed, and what a
-- callback does is not modelled. Times are in milliseconds.
mod Examples
pub mod Once
use flopsy.Prelude.{
  ℕ, ◌+◌, ◌*◌, max, Bool, true, false, Option, none, some, List, [], ◌∷◌, ◌++◌, leb, if◌then◌else◌,
  Text,
}

pub data FailureReason : Type 0 where
  expired denied cancelled error : FailureReason

pub data Callback (C : Type 0) : Type 0 where
  on_success : C → Callback C
  on_failure : FailureReason → Option Text → Callback C

-- The terminal statuses of a poll beside success and error.
pub data TerminalStatus : Type 0 where
  was_expired was_denied : TerminalStatus

pub data PollResult (C : Type 0) : Type 0 where
  success : C → PollResult C
  pending : ℕ → Bool → PollResult C
  poll_error : Option Text → PollResult C
  terminal : TerminalStatus → PollResult C

pub record DevicePoller (C : Type 0) : Type 0 where
  pub is_cancelled : Bool
  pub timer : Option ℕ
  pub in_flight : Bool
  pub interval_sec : ℕ
  pub expires_at : ℕ
  pub calls : List (Callback C)

abbrev pub reason_of : TerminalStatus → FailureReason
reason_of was_expired = expired
reason_of was_denied = denied

module _ {C : Type 0} where
  -- `setTimeout(() => void tick(), intervalSec * 1000)`.
  unfoldable pub schedule : ℕ → DevicePoller C → DevicePoller C
  schedule now p = record p { timer = some (now + p.interval_sec * 1000) }

  unfoldable pub call : Callback C → DevicePoller C → DevicePoller C
  call c p = record p { calls = p.calls ++ c ∷ [] }

  unfoldable pub start_device_polling : ℕ → ℕ → ℕ → DevicePoller C
  unfolding schedule
  start_device_polling now interval_seconds expires_at = schedule now (record {
    is_cancelled = false;
    timer = none;
    in_flight = false;
    interval_sec = max 1 interval_seconds;
    expires_at = expires_at;
    calls = [];
  })

  -- `tick` up to the `await` of the poll; it runs when the timeout fires.
  unfoldable pub tick : ℕ → DevicePoller C → DevicePoller C
  unfolding schedule call
  tick now p =
      if p.is_cancelled
      then p
      else if leb p.expires_at now
      then call (on_failure expired none) p
      else if p.in_flight
      then schedule now p
      else record p { in_flight = true }

  fires : ℕ → Option ℕ → DevicePoller C → DevicePoller C
  unfolding tick
  fires now none p = p
  fires now (some t) p = if leb t now then tick now (record p { timer = none }) else p

  unfoldable pub timer_fires : ℕ → DevicePoller C → DevicePoller C
  unfolding fires
  timer_fires now p = fires now p.timer p

  -- RFC 8628: a `slow_down` adds five seconds.
  take_answer : ℕ → PollResult C → DevicePoller C → DevicePoller C
  unfolding schedule call
  take_answer now (success credential) p = call (on_success credential) p
  take_answer now (pending interval_seconds slow_down) p =
      schedule now
        (record p { interval_sec = if slow_down then p.interval_sec + 5 else interval_seconds })
  take_answer now (poll_error detail) p = call (on_failure error detail) p
  take_answer now (terminal status) p = call (on_failure (reason_of status) none) p

  -- `tick` after the `await`, with its `finally`.
  unfoldable pub poll_answers : ℕ → PollResult C → DevicePoller C → DevicePoller C
  unfolding take_answer
  poll_answers now result p =
      if p.is_cancelled
      then record p { in_flight = false }
      else record (take_answer now result p) { in_flight = false }

  unfoldable pub poll_throws : ℕ → DevicePoller C → DevicePoller C
  unfolding schedule
  poll_throws now p = record (schedule now p) { in_flight = false }

  unfoldable pub cancel : DevicePoller C → DevicePoller C
  unfolding call
  cancel p = call (on_failure cancelled none) (record p { is_cancelled = true; timer = none })
