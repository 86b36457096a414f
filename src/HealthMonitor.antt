-- ===== src/HealthMonitor.antt =====
-- src/gateway/src/proactive/health/monitor.ts: the monitor that reconnects channels. The state of a
-- channel is an object that the callbacks of a reconnect keep hold of: it has a reference, and `heap`
-- gives the object of a reference. `Date.now()` is an argument, and a channel is its name with
-- whether its status is `connected`. A difference of times is written as a sum.
mod Examples
pub mod History
pub mod Pace
use flopsy.Prelude.{
  ℕ, ◌+◌, ◌*◌, ◌^◌, min, Bool, true, false, ◌&&◌, Option, none, some, List, [], ◌∷◌, ◌++◌, ltb, leb,
  ◌==◌, if◌then◌else◌, length, keep, Text,
}
use flopsy.Prelude.JsMap
use flopsy.Prelude.JsMap.{JsMap}

pub record ChannelHealthConfig : Type 0 where
  pub check_interval_ms : ℕ
  pub stale_event_threshold_ms : ℕ
  pub connect_grace_ms : ℕ
  pub max_restarts_per_hour : ℕ
  pub cooldown_cycles : ℕ

abbrev pub defaults : ChannelHealthConfig
defaults = record {
  check_interval_ms = 30_000;
  stale_event_threshold_ms = 10 * 60_000;
  connect_grace_ms = 30_000;
  max_restarts_per_hour = 10;
  cooldown_cycles = 0;
}

abbrev pub one_hour_ms : ℕ
one_hour_ms = 60 * 60_000

abbrev pub reconnect_backoff_base_ms : ℕ
reconnect_backoff_base_ms = 5000

abbrev pub reconnect_backoff_max_ms : ℕ
reconnect_backoff_max_ms = 5 * 60_000

pub record ChannelHealthState : Type 0 where
  pub last_event_at : ℕ
  pub connected_at : ℕ
  pub restarts_this_hour : List ℕ
  pub last_reconnect_attempt_at : ℕ
  pub consecutive_reconnect_failures : ℕ
  pub restarting : Bool

pub record ChannelHealthMonitor : Type 0 where
  pub config : ChannelHealthConfig
  pub heap : ℕ → ChannelHealthState
  pub next_ref : ℕ
  pub channel_state : JsMap ℕ
  pub timer : Bool

abbrev pub fresh_state : ℕ → ChannelHealthState
fresh_state now = record {
  last_event_at = now;
  connected_at = now;
  restarts_this_hour = [];
  last_reconnect_attempt_at = 0;
  consecutive_reconnect_failures = 0;
  restarting = false;
}

unfoldable pub assign :
    ℕ → (ChannelHealthState → ChannelHealthState) → ChannelHealthMonitor → ChannelHealthMonitor
assign ref change m = record m { heap = λ r. if r == ref then change (m.heap r) else m.heap r }

create_state : ℕ → Text → Option ℕ → ChannelHealthMonitor → ℕ × ChannelHealthMonitor
unfolding JsMap.set assign
create_state now name (some ref) m = (ref, m)
create_state now name none m = (
  m.next_ref,
  assign m.next_ref (λ _. fresh_state now)
      (record m {
        next_ref = m.next_ref + 1;
        channel_state = JsMap.set name m.next_ref m.channel_state;
      }),
)

unfoldable pub get_or_create_state : ℕ → Text → ChannelHealthMonitor → ℕ × ChannelHealthMonitor
unfolding create_state JsMap.get
get_or_create_state now name m = create_state now name (JsMap.get name m.channel_state) m

unfoldable pub start : ChannelHealthMonitor → ChannelHealthMonitor
start m = record m { timer = true }

unfoldable pub stop : ChannelHealthMonitor → ChannelHealthMonitor
stop m = record m { timer = false; channel_state = [] }

unfoldable pub saw_event : ℕ → ChannelHealthState → ChannelHealthState
saw_event now s = record s { last_event_at = now }

unfoldable pub saw_connect : ℕ → ChannelHealthState → ChannelHealthState
saw_connect now s = record s {
  connected_at = now;
  last_event_at = now;
  consecutive_reconnect_failures = 0;
}

unfoldable pub record_event : ℕ → Text → ChannelHealthMonitor → ChannelHealthMonitor
unfolding get_or_create_state saw_event assign
record_event now name m =
    let (ref, m') = get_or_create_state now name m in assign ref (saw_event now) m'

unfoldable pub record_connect : ℕ → Text → ChannelHealthMonitor → ChannelHealthMonitor
unfolding get_or_create_state saw_connect assign
record_connect now name m =
    let (ref, m') = get_or_create_state now name m in assign ref (saw_connect now) m'

unfoldable pub backoff_ms : ChannelHealthState → ℕ
backoff_ms s =
    min (reconnect_backoff_base_ms * 2 ^ s.consecutive_reconnect_failures) reconnect_backoff_max_ms

unfoldable pub in_hour : ℕ → ℕ → Bool
in_hour now t = ltb now (t + one_hour_ms)

-- The rolling limit, and the start of a reconnect.
unfoldable pub within_limit :
    ChannelHealthConfig → ℕ → ChannelHealthState → Bool × ChannelHealthState
unfolding in_hour
within_limit c now s =
    let recent = keep (in_hour now) s.restarts_this_hour in
    if leb c.max_restarts_per_hour (length recent)
    then (false, record s { restarts_this_hour = recent })
    else (
      true,
      record s {
        restarts_this_hour = recent ++ now ∷ [];
        last_reconnect_attempt_at = now;
        restarting = true;
      },
    )

-- The body of the loop of `check` for the state of a channel: whether `disconnect` is called, which
-- starts a reconnect.
unfoldable pub check_state :
    ChannelHealthConfig → ℕ → Bool → ChannelHealthState → Bool × ChannelHealthState
unfolding backoff_ms within_limit
check_state c now connected s =
    if connected
    then (false, s)
    else if ltb now (s.connected_at + c.connect_grace_ms)
    then (false, s)
    else if s.restarting
    then (false, s)
    else if ltb 0 s.last_reconnect_attempt_at
        && ltb now (s.last_reconnect_attempt_at + backoff_ms s)
    then (false, s)
    else within_limit c now s

-- The `then` and the `catch` of a reconnect.
unfoldable pub reconnected : ℕ → ChannelHealthState → ChannelHealthState
reconnected now s = record s {
  connected_at = now;
  last_event_at = now;
  consecutive_reconnect_failures = 0;
  restarting = false;
}

unfoldable pub reconnect_failed : ChannelHealthState → ChannelHealthState
reconnect_failed s = record s {
  restarting = false;
  consecutive_reconnect_failures = s.consecutive_reconnect_failures + 1;
}

-- The references of the states whose channels are reconnected.
unfoldable pub check : ℕ → List (Text × Bool) → ChannelHealthMonitor → List ℕ × ChannelHealthMonitor
unfolding get_or_create_state check_state assign
check now [] m = ([], m)
check now ((name, connected) ∷ channels) m =
    let (ref, m') = get_or_create_state now name m in
    let (starts, s) = check_state m.config now connected (m'.heap ref) in
    let (refs, m'') = check now channels (assign ref (λ _. s) m') in
    (if starts then ref ∷ refs else refs, m'')
