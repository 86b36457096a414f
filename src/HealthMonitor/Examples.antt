-- ===== src/HealthMonitor/Examples.antt =====
-- Runs of the health monitor.
use flopsy.Prelude.{◌+◌, ◌≤◌, ◌≡◌, refl, false, List, [], ◌∷◌, arith, length, keep}
use flopsy.HealthMonitor.{defaults, fresh_state, in_hour, check_state, reconnect_failed}
use flopsy.HealthMonitor.History.{
  Event, checks, fails, succeeds, run, last_check, starts, ends, one_if, IsSpaced,
}
use flopsy.HealthMonitor.Pace.{starts-run}

-- A failed reconnect, and a check within the backoff that follows it.
abbrev history : List Event
history =
    checks 40_000 false ∷ fails ∷ checks 45_000 false ∷ checks 70_000 false ∷ succeeds 71_000 ∷ []

started : starts defaults (fresh_state 1000) [] history ≡ 70_000 ∷ 40_000 ∷ []
unfolding starts check_state reconnect_failed
started = refl

starts-run_example :
    let log = starts defaults (fresh_state 1000) [] history in
    (length (keep (in_hour (last_check 1000 history)) log) ≤ 10)
    × IsSpaced log
    × (length log ≡ ends history + one_if (run defaults (fresh_state 1000) history).restarting)
unfolding check_state reconnect_failed
starts-run_example =
    starts-run defaults 1000 history (omega arith)
      (omega arith, (refl, (omega arith, (omega arith, (refl, tt)))))
