-- ===== src/Presence.antt =====
-- src/gateway/src/proactive/state/presence.ts (PresenceManager): when the user was active, and when
-- proactive messages are held back. The store is its state in memory and the copy that was written to
-- disk; `mutate` changes the first, and `flushNow` writes it.
mod Examples
use flopsy.Prelude.{
  ℕ, ◌+◌, Bool, false, not, ◌&&◌, ◌||◌, Option, none, some, ltb, leb, ◌==◌, if◌then◌else◌, Text,
  codes,
}

pub data ActivityWindow : Type 0 where
  active idle away : ActivityWindow

pub data ExplicitStatus : Type 0 where
  available busy dnd : ExplicitStatus

pub record UserPresence : Type 0 where
  pub last_message_at : ℕ
  pub activity_window : ActivityWindow
  pub explicit_status : Option ExplicitStatus
  pub status_expiry : Option ℕ
  pub status_reason : Option Text
  pub quiet_hours_until : Option ℕ

pub record StateStore : Type 0 where
  pub presence : UserPresence
  pub written : UserPresence

abbrev active_window_ms : ℕ
active_window_ms = 600_000

abbrev idle_window_ms : ℕ
idle_window_ms = 7_200_000

unfoldable pub compute_activity_window : ℕ → ℕ → ActivityWindow
compute_activity_window now last =
    if leb last 0
    then away
    else if ltb now (last + active_window_ms)
    then active
    else if ltb now (last + idle_window_ms)
    then idle
    else away

unfoldable pub flush_now : StateStore → StateStore
flush_now s = record s { written = s.presence }

unfoldable pub record_user_activity : ℕ → StateStore → StateStore
unfolding compute_activity_window
record_user_activity now s = record s {
  presence = record s.presence {
    last_message_at = now;
    activity_window = compute_activity_window now now;
  };
}

unfoldable pub set_explicit_status : ℕ → ExplicitStatus → ℕ → Option Text → StateStore → StateStore
unfolding flush_now
set_explicit_status now status duration reason s = flush_now (record s {
  presence = record s.presence {
    explicit_status = some status;
    status_expiry = some (now + duration);
    status_reason = reason;
  };
})

unfoldable pub clear_explicit_status : StateStore → StateStore
unfolding flush_now
clear_explicit_status s = flush_now (record s {
  presence = record s.presence {
    explicit_status = none;
    status_expiry = none;
    status_reason = none;
  };
})

unfoldable pub set_quiet_hours : ℕ → StateStore → StateStore
unfolding flush_now
set_quiet_hours until s =
    flush_now (record s { presence = record s.presence { quiet_hours_until = some until } })

pub data Suppression : Type 0 where
  not_suppressed quiet_hours : Suppression
  dnd_until : ℕ → Suppression

-- A time that is set, is not 0 and lies ahead.
ahead : ℕ → Option ℕ → Bool
ahead now none = false
ahead now (some t) = not (t == 0) && ltb now t

while_dnd : ℕ → Option ExplicitStatus → Option ℕ → Suppression
unfolding ahead
while_dnd now (some dnd) (some t) = if ahead now (some t) then dnd_until t else not_suppressed
while_dnd now _ _ = not_suppressed

unfoldable pub should_suppress : ℕ → StateStore → Suppression
unfolding ahead while_dnd
should_suppress now s =
    if ahead now s.presence.quiet_hours_until
    then quiet_hours
    else while_dnd now s.presence.explicit_status s.presence.status_expiry

-- The zone that counts: the one asked for, then `TZ`, then the configured one, then UTC.
unfoldable pub zone_of : Option Text → Option Text → Option Text → Text
zone_of (some tz) env default = tz
zone_of none (some tz) default = tz
zone_of none none (some tz) = tz
zone_of none none none = codes "UTC"

-- The hour of the clock in a zone is an argument.
unfoldable pub is_in_active_hours :
    (Text → ℕ) → ℕ → ℕ → Option Text → Option Text → Option Text → Bool
unfolding zone_of
is_in_active_hours hour_in start end timezone env default =
    let hour = hour_in (zone_of timezone env default) in
    if leb start end then leb start hour && ltb hour end else leb start hour || ltb hour end
