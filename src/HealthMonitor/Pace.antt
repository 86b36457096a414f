-- ===== src/HealthMonitor/Pace.antt =====
-- src/gateway/src/proactive/health/monitor.ts: how often a channel is reconnected.
use flopsy.Prelude.{
  ℕ, ◌+◌, ◌≤◌, ◌<◌, ◌≡◌, refl, ap, ◌∙◌, ◌⊎◌, inl, inr, Bool, false, ◌&&◌, ◌||◌, List, [], ◌∷◌,
  arith, ltb, leb, if◌then◌else◌, Bool-cases, length, keep, All, length-append, keep-append,
}
use native.Mathlib.Nat.{le_trans}
use flopsy.HealthMonitor.{
  ChannelHealthConfig, ChannelHealthState, reconnect_backoff_base_ms, fresh_state, saw_event,
  saw_connect, backoff_ms, in_hour, within_limit, check_state, reconnected, reconnect_failed,
}
use flopsy.HealthMonitor.History.{
  Event, checks, events, connects, succeeds, fails, run, IsHistory, last_check, starts, ends,
  one_if, keep_later, length-keep_later, IsSpaced, latest, backoff-ge,
}

-- The state stands for the log of the reconnects that were started.
record Tracks (c : ChannelHealthConfig) (last : ℕ) (log : List ℕ) (s : ChannelHealthState)
    : Type 0 where
  recent :
      (u : ℕ)
      → last ≤ u
      → length (keep (in_hour u) s.restarts_this_hour) ≡ length (keep (in_hour u) log)
  within : length (keep (in_hour last) log) ≤ c.max_restarts_per_hour
  attempt : s.last_reconnect_attempt_at ≡ latest log
  positive : All (λ t. 0 < t) log
  spaced : IsSpaced log

-- A state whose record of the reconnects is the same, at a later check.
later-Tracks :
    (c : ChannelHealthConfig) (last now : ℕ) (log : List ℕ) (s s' : ChannelHealthState)
    → last ≤ now
    → s'.last_reconnect_attempt_at ≡ s.last_reconnect_attempt_at
    → ((u : ℕ)
        → now ≤ u
        → keep (in_hour u) s'.restarts_this_hour ≡ keep (in_hour u) s.restarts_this_hour)
    → Tracks c last log s
    → Tracks c now log s'
later-Tracks c last now log s s' h a r t = record {
  recent = λ u k. ap length (r u k) ∙ t.recent u (le_trans h k);
  within = omega (arith, t.within, length-keep_later last now log h);
  attempt = a ∙ t.attempt;
  positive = t.positive;
  spaced = t.spaced;
}

IsSpaced-cons :
    (t : ℕ) (log : List ℕ)
    → All (λ u. 0 < u) log
    → (0 < latest log → latest log + reconnect_backoff_base_ms ≤ t)
    → IsSpaced log
    → IsSpaced (t ∷ log)
IsSpaced-cons t [] p h k = tt
IsSpaced-cons t (u ∷ log) p h k = (h p.0, k)

within_limit-Tracks :
    (c : ChannelHealthConfig) (last now : ℕ) (log : List ℕ) (s : ChannelHealthState)
    → 0 < now
    → last ≤ now
    → (0 < s.last_reconnect_attempt_at → s.last_reconnect_attempt_at + backoff_ms s ≤ now)
    → Tracks c last log s
    → let (started, s') = within_limit c now s in
      Tracks c now (if started then now ∷ log else log) s'
unfolding within_limit
within_limit-Tracks c last now log s pos h gap t =
    let recent = keep (in_hour now) s.restarts_this_hour in
    let later = λ (u : ℕ) (k : now ≤ u). keep_later now u s.restarts_this_hour k in
    elim (Bool-cases (leb c.max_restarts_per_hour (length recent))) [
      | inl full ↦
          rw full (
            later-Tracks c last now log s (record s { restarts_this_hour = recent }) h refl later t)
      | inr room ↦ rw room (record {
        recent = λ u k. ground (
          arith,
          ap length (keep-append (in_hour u) recent (now ∷ [])),
          length-append (keep (in_hour u) recent) (keep (in_hour u) (now ∷ [])),
          ap length (later u k),
          t.recent u (le_trans h k),
        );
        within = ground (arith, room, t.recent now h);
        attempt = refl;
        positive = (pos, t.positive);
        spaced =
            IsSpaced-cons now log t.positive (ground (arith, gap, t.attempt, backoff-ge s))
              t.spaced;
      })
    ]

-- A check leaves the state alone, or comes to the limit after the backoff.
check_state-cases :
    (c : ChannelHealthConfig) (now : ℕ) (connected : Bool) (s : ChannelHealthState)
    → (check_state c now connected s ≡ (false, s))
      ⊎ ((check_state c now connected s ≡ within_limit c now s)
          × (0 < s.last_reconnect_attempt_at → s.last_reconnect_attempt_at + backoff_ms s ≤ now))
unfolding check_state
check_state-cases c now connected s =
    let late =
      ltb 0 s.last_reconnect_attempt_at && ltb now (s.last_reconnect_attempt_at + backoff_ms s) in
    elim (Bool-cases
      (connected || (ltb now (s.connected_at + c.connect_grace_ms) || (s.restarting || late)))) [
        | inl quiet ↦ inl (ground (arith, quiet))
        | inr due ↦ inr (ground (arith, due), ground (arith, due))
      ]

check_state-Tracks :
    (c : ChannelHealthConfig) (last now : ℕ) (connected : Bool) (log : List ℕ)
    (s : ChannelHealthState)
    → 0 < now
    → last ≤ now
    → Tracks c last log s
    → let (started, s') = check_state c now connected s in
      Tracks c now (if started then now ∷ log else log) s'
check_state-Tracks c last now connected log s pos h t = elim (check_state-cases c now connected s) [
  | inl quiet ↦ rw quiet (later-Tracks c last now log s s h refl (λ u k. refl) t)
  | inr (due, gap) ↦ rw due (within_limit-Tracks c last now log s pos h gap t)
]

-- A check starts a reconnect only when none is under way.
check_state-flights :
    (c : ChannelHealthConfig) (now : ℕ) (connected : Bool) (log : List ℕ) (s : ChannelHealthState)
    → let (started, s') = check_state c now connected s in
      length (if started then now ∷ log else log) + one_if s.restarting
      ≡ length log + one_if s'.restarting
unfolding check_state within_limit
check_state-flights c now connected log s = ground arith

record Paced (c : ChannelHealthConfig) (last done : ℕ) (log : List ℕ) (s : ChannelHealthState)
    : Type 0 where
  within : length (keep (in_hour last) log) ≤ c.max_restarts_per_hour
  spaced : IsSpaced log
  flights : length log ≡ done + one_if s.restarting

starts-Paced :
    (c : ChannelHealthConfig) (last done : ℕ) (log : List ℕ) (s : ChannelHealthState)
    (es : List Event)
    → 0 < last
    → IsHistory c last s es
    → Tracks c last log s
    → length log ≡ done + one_if s.restarting
    → Paced c (last_check last es) (done + ends es) (starts c s log es) (run c s es)
unfolding starts saw_event saw_connect reconnected reconnect_failed
starts-Paced c last done log s [] pos h t f = record {
  within = t.within;
  spaced = t.spaced;
  flights = omega (arith, f);
}
starts-Paced c last done log s (checks now connected ∷ es) pos h t f =
    let (started, s') = check_state c now connected s in
    let log' = if started then now ∷ log else log in
    starts-Paced c now done log' s' es (omega (arith, pos, h.0)) h.1
      (check_state-Tracks c last now connected log s (omega (arith, pos, h.0)) h.0 t)
      (omega (arith, f, check_state-flights c now connected log s))
starts-Paced c last done log s (events now ∷ es) pos h t f =
    let t' = later-Tracks c last last log s (saw_event now s) (omega arith) refl (λ u k. refl) t in
    starts-Paced c last done log (saw_event now s) es pos h t' f
starts-Paced c last done log s (connects now ∷ es) pos h t f =
    let t' =
      later-Tracks c last last log s (saw_connect now s) (omega arith) refl (λ u k. refl) t in
    starts-Paced c last done log (saw_connect now s) es pos h t' f
starts-Paced c last done log s (succeeds now ∷ es) pos h t f =
    let s' : ChannelHealthState = reconnected now s in
    let t' = later-Tracks c last last log s s' (omega arith) refl (λ u k. refl) t in
    let f' : length log ≡ (done + 1) + one_if s'.restarting = omega (arith, f, ap one_if h.0) in
    let more : (done + 1) + ends es ≡ done + (1 + ends es) = omega arith in
    rw more at (starts-Paced c last (done + 1) log s' es pos h.1 t' f')
starts-Paced c last done log s (fails ∷ es) pos h t f =
    let s' : ChannelHealthState = reconnect_failed s in
    let t' = later-Tracks c last last log s s' (omega arith) refl (λ u k. refl) t in
    let f' : length log ≡ (done + 1) + one_if s'.restarting = omega (arith, f, ap one_if h.0) in
    let more : (done + 1) + ends es ≡ done + (1 + ends es) = omega arith in
    rw more at (starts-Paced c last (done + 1) log s' es pos h.1 t' f')

-- In every history of a channel on a clock that is past zero, its checks in order of time and a
-- reconnect ending only while one is under way: within the hour up to the last check at most
-- `maxRestartsPerHour` reconnects started, those that follow each other started at least five seconds
-- apart, and the reconnects that started are those that ended, with one more exactly when the state
-- says that one is under way.
pub starts-run :
    (c : ChannelHealthConfig) (now : ℕ) (es : List Event)
    → 0 < now
    → IsHistory c now (fresh_state now) es
    → let log = starts c (fresh_state now) [] es in
      (length (keep (in_hour (last_check now es)) log) ≤ c.max_restarts_per_hour)
      × IsSpaced log
      × (length log ≡ ends es + one_if (run c (fresh_state now) es).restarting)
starts-run c now es pos h =
    let s = fresh_state now in
    let t : Tracks c now [] s = record {
      recent = λ u k. refl;
      within = omega arith;
      attempt = refl;
      positive = tt;
      spaced = tt;
    } in
    let p = starts-Paced c now 0 [] s es pos h t refl in
    (p.within, p.spaced, omega (arith, p.flights))
