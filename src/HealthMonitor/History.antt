-- ===== src/HealthMonitor/History.antt =====
-- src/gateway/src/proactive/health/monitor.ts: the histories of the state of a channel, and the log
-- of the reconnects that they start.
use flopsy.Prelude.{
  ℕ, zero, suc, ◌+◌, ◌^◌, ◌≤◌, ◌≡◌, refl, Bool, true, false, List, [], ◌∷◌, arith, if◌then◌else◌,
  length, keep,
}
use flopsy.HealthMonitor.{
  ChannelHealthConfig, ChannelHealthState, reconnect_backoff_base_ms, saw_event, saw_connect,
  backoff_ms, in_hour, check_state, reconnected, reconnect_failed,
}

-- What happens to the state of one channel.
pub data Event : Type 0 where
  checks : ℕ → Bool → Event
  events connects succeeds : ℕ → Event
  fails : Event

abbrev pub step : ChannelHealthConfig → ChannelHealthState → Event → ChannelHealthState
step c s (checks now connected) = (check_state c now connected s).1
step c s (events now) = saw_event now s
step c s (connects now) = saw_connect now s
step c s (succeeds now) = reconnected now s
step c s fails = reconnect_failed s

abbrev pub run : ChannelHealthConfig → ChannelHealthState → List Event → ChannelHealthState
run c s [] = s
run c s (e ∷ es) = run c (step c s e) es

-- The checks are not before `last`, in order, and a reconnect ends only while one is under way.
abbrev pub IsHistory : ChannelHealthConfig → ℕ → ChannelHealthState → List Event → Type 0
IsHistory c last s [] = Unit {0}
IsHistory c last s (checks now connected ∷ es) =
    (last ≤ now) × IsHistory c now (check_state c now connected s).1 es
IsHistory c last s (events now ∷ es) = IsHistory c last (saw_event now s) es
IsHistory c last s (connects now ∷ es) = IsHistory c last (saw_connect now s) es
IsHistory c last s (succeeds now ∷ es) =
    (s.restarting ≡ true) × IsHistory c last (reconnected now s) es
IsHistory c last s (fails ∷ es) = (s.restarting ≡ true) × IsHistory c last (reconnect_failed s) es

-- The time of the last check.
abbrev pub last_check : ℕ → List Event → ℕ
last_check last [] = last
last_check last (checks now connected ∷ es) = last_check now es
last_check last (e ∷ es) = last_check last es

-- The times at which a reconnect started, the last one first, before those of `log`.
unfoldable pub starts : ChannelHealthConfig → ChannelHealthState → List ℕ → List Event → List ℕ
starts c s log [] = log
starts c s log (checks now connected ∷ es) =
    let (started, s') = check_state c now connected s in
    starts c s' (if started then now ∷ log else log) es
starts c s log (e ∷ es) = starts c (step c s e) log es

-- How many reconnects ended.
abbrev pub ends : List Event → ℕ
ends [] = 0
ends (succeeds now ∷ es) = 1 + ends es
ends (fails ∷ es) = 1 + ends es
ends (e ∷ es) = ends es

abbrev pub one_if : Bool → ℕ
one_if true = 1
one_if false = 0

pub keep_later :
    (t u : ℕ) (xs : List ℕ) → t ≤ u → keep (in_hour u) (keep (in_hour t) xs) ≡ keep (in_hour u) xs
unfolding in_hour
keep_later t u [] h = refl
keep_later t u (x ∷ xs) h = ground (arith, keep_later t u xs h)

pub length-keep_later :
    (t u : ℕ) (xs : List ℕ) → t ≤ u → length (keep (in_hour u) xs) ≤ length (keep (in_hour t) xs)
unfolding in_hour
length-keep_later t u [] h = omega arith
length-keep_later t u (x ∷ xs) h = ground (arith, length-keep_later t u xs h)

-- Two reconnects that follow each other start at least the base of the backoff apart.
abbrev pub IsSpaced : List ℕ → Type 0
IsSpaced [] = Unit {0}
IsSpaced (t ∷ []) = Unit {0}
IsSpaced (t ∷ u ∷ ts) = (u + reconnect_backoff_base_ms ≤ t) × IsSpaced (u ∷ ts)

abbrev pub latest : List ℕ → ℕ
latest [] = 0
latest (t ∷ ts) = t

pow-pos : (n : ℕ) → 1 ≤ 2 ^ n
pow-pos zero = omega arith
pow-pos (suc n) = ground (arith, pow-pos n)

pub backoff-ge : (s : ChannelHealthState) → reconnect_backoff_base_ms ≤ backoff_ms s
unfolding backoff_ms
backoff-ge s = omega (arith, pow-pos s.consecutive_reconnect_failures)
