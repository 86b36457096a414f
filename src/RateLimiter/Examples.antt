-- ===== src/RateLimiter/Examples.antt =====
-- Runs of the rate limiter.
use flopsy.Prelude.{
  ℕ, ◌≤◌, ◌≡◌, refl, true, none, some, List, [], ◌∷◌, arith, if◌then◌else◌, length, keep, codes,
  str_eq,
}
use flopsy.Prelude.JsMap
use flopsy.RateLimiter.Clients.{state_of, check_request-check_client}
use flopsy.RateLimiter.{
  RateLimiter, check_request, RateLimitConfig, new_client, in_window, check_client,
}
use flopsy.RateLimiter.Window.{last_of, allowed_log, sliding_window}

abbrev two_a_second : RateLimitConfig
two_a_second = record {
  window_ms = 1000;
  max_requests = 2;
  max_connections_per_ip = 5;
  block_duration_ms = 3000;
  max_tracked_clients = 10;
}

abbrev requests : List ℕ
requests = 100 ∷ 200 ∷ 300 ∷ 5000 ∷ []

sliding_window_example :
    length (
      keep
        (in_window two_a_second (last_of 0 requests))
        (allowed_log two_a_second new_client [] requests))
    ≤ 2
sliding_window_example =
    sliding_window two_a_second requests (omega arith)
      (omega arith, (omega arith, (omega arith, (omega arith, tt))))

third_refused : allowed_log two_a_second new_client [] requests ≡ 100 ∷ 200 ∷ 5000 ∷ []
unfolding allowed_log check_client
third_refused = refl

abbrev limiter : RateLimiter
limiter = record {
  config = two_a_second;
  clients = (codes "a", record { requests = 100 ∷ 200 ∷ []; blocked_until = none }) ∷ [];
  connections_by_ip = [];
  sweeping = true;
}

check_request-check_client_example :
    let (d, l') = check_request 300 (codes "a") limiter in
    let (d', s') =
      check_client two_a_second 300 (state_of (JsMap.get (codes "a") limiter.clients)) in
    (d ≡ d')
    × (JsMap.get (codes "b") l'.clients ≡ (
        if str_eq (codes "a") (codes "b") then some s' else JsMap.get (codes "b") limiter.clients))
check_request-check_client_example =
    check_request-check_client 300 (codes "a") (codes "b") limiter (omega arith)
