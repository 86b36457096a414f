-- ===== src/RateLimiter/Window.antt =====
-- src/gateway/src/core/security.ts: the rate limit is a limit on every sliding window.
use flopsy.Prelude.{
  ℕ, ◌+◌, ◌≤◌, ◌<◌, ◌≡◌, refl, sym, ap, ◌∙◌, inl, inr, true, false, none, List, [], ◌∷◌, ◌++◌,
  arith, ltb, leb, Bool-cases, length, keep, All, length-append, length-keep-le, keep-append,
  All-append,
}
use native.Mathlib.Nat.{le_trans}
use flopsy.RateLimiter.{
  RateLimitConfig, ClientState, Decision, allowed, retry_after, admit, new_client, in_window,
  truthy, until, check_client,
}

-- The times of a clock that does not go back.
abbrev pub IsClock : ℕ → List ℕ → Type 0
IsClock last [] = Unit {0}
IsClock last (t ∷ ts) = (last ≤ t) × IsClock t ts

abbrev pub last_of : ℕ → List ℕ → ℕ
last_of last [] = last
last_of last (t ∷ ts) = last_of t ts

keep_later :
    (c : RateLimitConfig) (t u : ℕ) (xs : List ℕ)
    → t ≤ u
    → keep (in_window c u) (keep (in_window c t) xs) ≡ keep (in_window c u) xs
unfolding in_window
keep_later c t u [] h = refl
keep_later c t u (x ∷ xs) h = ground (arith, keep_later c t u xs h)

length-keep_later :
    (c : RateLimitConfig) (t u : ℕ) (xs : List ℕ)
    → t ≤ u
    → length (keep (in_window c u) xs) ≤ length (keep (in_window c t) xs)
unfolding in_window
length-keep_later c t u [] h = omega arith
length-keep_later c t u (x ∷ xs) h = ground (arith, length-keep_later c t u xs h)

-- All the times lie a window back.
keep_none :
    (c : RateLimitConfig) (b now : ℕ) (xs : List ℕ)
    → c.window_ms ≤ c.block_duration_ms
    → All (λ a. a + c.block_duration_ms ≤ b) xs
    → b ≤ now
    → keep (in_window c now) xs ≡ []
unfolding in_window
keep_none c b now [] w h k = refl
keep_none c b now (x ∷ xs) w h k = ground (arith, h.0, keep_none c b now xs w h.1 k)

-- The state of a client whose requests at the times `log` were allowed, up to the time `last`.
record Tracks (c : RateLimitConfig) (last : ℕ) (log : List ℕ) (s : ClientState) : Type 0 where
  recent : (u : ℕ) → last ≤ u → keep (in_window c u) s.requests ≡ keep (in_window c u) log
  past : All (λ a. a ≤ last) log
  served :
      truthy s.blocked_until ≡ true → All (λ a. a + c.block_duration_ms ≤ until s.blocked_until) log
  within : length (keep (in_window c last) log) ≤ c.max_requests

-- The log after a decision.
abbrev pub logged : Decision → ℕ → List ℕ → List ℕ
logged allowed now log = log ++ now ∷ []
logged (retry_after ms) now log = log

All-later : (t u : ℕ) (xs : List ℕ) → t ≤ u → All (λ a. a ≤ t) xs → All (λ a. a ≤ u) xs
All-later t u [] h k = tt
All-later t u (x ∷ xs) h k = (omega arith, All-later t u xs h k.1)

All-blocked :
    (c : RateLimitConfig) (now : ℕ) (log : List ℕ)
    → All (λ a. a ≤ now) log
    → All (λ a. a + c.block_duration_ms ≤ now + c.block_duration_ms) log
All-blocked c now [] h = tt
All-blocked c now (a ∷ log) h = (omega (arith, h.0), All-blocked c now log h.1)

not-leb : (a b : ℕ) → leb a b ≡ false → b < a
not-leb a b h = ground arith

not-ltb : (a b : ℕ) → ltb a b ≡ false → b ≤ a
not-ltb a b h = ground arith

-- Not blocked: the requests of the state stand for the log.
admit-Tracks :
    (c : RateLimitConfig) (now : ℕ) (log : List ℕ) (s : ClientState)
    → ((u : ℕ) → now ≤ u → keep (in_window c u) s.requests ≡ keep (in_window c u) log)
    → All (λ a. a ≤ now) log
    → truthy s.blocked_until ≡ false
    → length (keep (in_window c now) log) ≤ c.max_requests
    → let (d, s') = admit c now s in Tracks c now (logged d now log) s'
unfolding admit
admit-Tracks c now log s recent past free within =
    elim (Bool-cases (leb c.max_requests (length (keep (in_window c now) s.requests)))) [
      | inl full ↦ rw full (record {
        recent = λ u h. keep_later c now u s.requests h ∙ recent u h;
        past = past;
        served = λ _. All-blocked c now log past;
        within = within;
      })
      | inr room ↦
          let now_ = now ∷ [] in
          let few : length (keep (in_window c now) log) < c.max_requests =
            rw (recent now (omega arith)) at (not-leb c.max_requests _ room) in
          rw room (record {
            recent = λ u h.
                keep-append (in_window c u) (keep (in_window c now) s.requests) now_
                ∙ ap (λ l. l ++ keep (in_window c u) now_)
                    (keep_later c now u s.requests h ∙ recent u h)
                ∙ sym (keep-append (in_window c u) log now_);
            past = All-append (λ a. a ≤ now) log now_ past (omega arith, tt);
            served = λ h. absurd (ground (arith, h, free));
            within = rw (keep-append (in_window c now) log now_) (
                omega (
                  arith,
                  few,
                  length-append (keep (in_window c now) log) (keep (in_window c now) now_),
                  length-keep-le (in_window c now) now_,
                ));
          })
    ]

-- One call of `checkRequest` for a client that is tracked.
check_client-Tracks :
    (c : RateLimitConfig) (last now : ℕ) (log : List ℕ) (s : ClientState)
    → c.window_ms ≤ c.block_duration_ms
    → last ≤ now
    → Tracks c last log s
    → let (d, s') = check_client c now s in Tracks c now (logged d now log) s'
unfolding check_client
check_client-Tracks c last now log s w h t =
    let past = All-later last now log h t.past in
    let within : length (keep (in_window c now) log) ≤ c.max_requests =
      omega (arith, t.within, length-keep_later c last now log h) in
    let recent = λ (u : ℕ) (k : now ≤ u). t.recent u (le_trans h k) in
    elim (Bool-cases (truthy s.blocked_until)) [
      | inr free ↦ rw free (admit-Tracks c now log s recent past free within)
      | inl blocked ↦ rw blocked (elim (Bool-cases (ltb now (until s.blocked_until))) [
        | inl early ↦
            rw early (record { recent = recent; past = past; served = t.served; within = within })
        | inr over ↦
            let gone = λ (u : ℕ) (k : now ≤ u).
              keep_none c (until s.blocked_until) u log w (t.served blocked)
                (le_trans (not-ltb now (until s.blocked_until) over) k) in
            rw over (
              admit-Tracks c now log (record s { blocked_until = none; requests = [] })
                (λ u k. sym (gone u k)) past refl within)
      ])
    ]

-- The times of the allowed requests of a client, after those of `log`.
unfoldable pub allowed_log : RateLimitConfig → ClientState → List ℕ → List ℕ → List ℕ
allowed_log c s log [] = log
allowed_log c s log (t ∷ ts) =
    let (d, s') = check_client c t s in allowed_log c s' (logged d t log) ts

allowed_log-within :
    (c : RateLimitConfig) (last : ℕ) (log : List ℕ) (s : ClientState) (ts : List ℕ)
    → c.window_ms ≤ c.block_duration_ms
    → IsClock last ts
    → Tracks c last log s
    → length (keep (in_window c (last_of last ts)) (allowed_log c s log ts)) ≤ c.max_requests
unfolding allowed_log
allowed_log-within c last log s [] w k t = t.within
allowed_log-within c last log s (now ∷ ts) w k t =
    let (d, s') = check_client c now s in
    allowed_log-within c now (logged d now log) s' ts w k.1
      (check_client-Tracks c last now log s w k.0 t)

-- However a client times its requests, at the time of each of them at most `maxRequests` were allowed
-- in the window that ends there. The clock does not go back, a block lasts at least a window, and the
-- state of the client is not dropped in between.
pub sliding_window :
    (c : RateLimitConfig) (ts : List ℕ)
    → c.window_ms ≤ c.block_duration_ms
    → IsClock 0 ts
    → length (keep (in_window c (last_of 0 ts)) (allowed_log c new_client [] ts)) ≤ c.max_requests
sliding_window c ts w k = allowed_log-within c 0 [] new_client ts w k (record {
  recent = λ u h. refl;
  past = tt;
  served = λ h. absurd (ground (arith, h));
  within = omega arith;
})
