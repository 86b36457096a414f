-- ===== src/Presence/Examples.antt =====
-- Runs of the presence rules.
use flopsy.Prelude.{◌≡◌, refl, true, none}
use flopsy.Presence.{
  UserPresence, StateStore, dnd, away, set_explicit_status, set_quiet_hours, should_suppress,
  dnd_until, not_suppressed, quiet_hours, is_in_active_hours,
}

abbrev nobody : UserPresence
nobody = record {
  last_message_at = 0;
  activity_window = away;
  explicit_status = none;
  status_expiry = none;
  status_reason = none;
  quiet_hours_until = none;
}

abbrev fresh : StateStore
fresh = record { presence = nobody; written = nobody }

abbrev disturbed : StateStore
disturbed = set_explicit_status 100 dnd 50 none fresh

held_back : should_suppress 149 disturbed ≡ dnd_until 150
unfolding should_suppress set_explicit_status
held_back = refl

over : should_suppress 150 disturbed ≡ not_suppressed
unfolding should_suppress set_explicit_status
over = refl

quiet_first : should_suppress 120 (set_quiet_hours 130 disturbed) ≡ quiet_hours
unfolding should_suppress set_explicit_status set_quiet_hours
quiet_first = refl

over_midnight : is_in_active_hours (λ tz. 23) 22 6 none none none ≡ true
unfolding is_in_active_hours
over_midnight = refl
