-- ===== src/RateLimiter.antt =====
-- src/gateway/src/core/security.ts: the rate limiter of the webhook server. `Date.now()` is an
-- argument. A time in a window, `ts > now - windowMs`, is written without the difference, which may
-- be negative.
mod Examples
pub mod Clients
pub mod Window
use flopsy.Prelude.{
  ℕ, ◌+◌, ◌-◌, Bool, true, false, not, ◌&&◌, Option, none, some, List, [], ◌∷◌, ◌++◌, ltb, leb,
  ◌==◌, if◌then◌else◌, length, drop, keep, Text, str_eq,
}
use flopsy.Prelude.JsMap
use flopsy.Prelude.JsMap.{JsMap}

pub record RateLimitConfig : Type 0 where
  pub window_ms : ℕ
  pub max_requests : ℕ
  pub max_connections_per_ip : ℕ
  pub block_duration_ms : ℕ
  pub max_tracked_clients : ℕ

abbrev pub default_rate_limit : RateLimitConfig
default_rate_limit = record {
  window_ms = 60_000;
  max_requests = 100;
  max_connections_per_ip = 5;
  block_duration_ms = 300_000;
  max_tracked_clients = 10_000;
}

pub record ClientState : Type 0 where
  pub requests : List ℕ
  pub blocked_until : Option ℕ

pub record RateLimiter : Type 0 where
  pub config : RateLimitConfig
  pub clients : JsMap ClientState
  pub connections_by_ip : JsMap (List Text)
  pub sweeping : Bool

pub data Decision : Type 0 where
  allowed : Decision
  retry_after : ℕ → Decision

abbrev pub new_client : ClientState
new_client = record { requests = []; blocked_until = none }

unfoldable pub in_window : RateLimitConfig → ℕ → ℕ → Bool
in_window c now ts = ltb now (ts + c.window_ms)

-- `blockedUntil` is falsy when it is null or 0.
abbrev pub truthy : Option ℕ → Bool
truthy none = false
truthy (some t) = not (t == 0)

abbrev pub until : Option ℕ → ℕ
until none = 0
until (some t) = t

admit : RateLimitConfig → ℕ → ClientState → Decision × ClientState
unfolding in_window
admit c now s =
    let recent = keep (in_window c now) s.requests in
    if leb c.max_requests (length recent)
    then (
      retry_after c.block_duration_ms,
      record s { requests = recent; blocked_until = some (now + c.block_duration_ms) },
    )
    else (allowed, record s { requests = recent ++ now ∷ [] })

-- The part of `checkRequest` that works on the state of one client.
unfoldable pub check_client : RateLimitConfig → ℕ → ClientState → Decision × ClientState
unfolding admit
check_client c now s =
    if truthy s.blocked_until && ltb now (until s.blocked_until)
    then (retry_after (until s.blocked_until - now), s)
    else if truthy s.blocked_until
    then admit c now (record s { blocked_until = none; requests = [] })
    else admit c now s

-- The first `excess` keys of the map, in order of insertion.
unfoldable pub enforce_client_limit : RateLimiter → RateLimiter
enforce_client_limit l =
    if leb (length l.clients) l.config.max_tracked_clients
    then l
    else record l { clients = drop (length l.clients - l.config.max_tracked_clients) l.clients }

-- A state that the limit dropped at once is no longer in the map, and is not written back.
write_back : Text → ClientState → RateLimiter → RateLimiter
unfolding JsMap.has JsMap.set
write_back id s l =
    if JsMap.has id l.clients then record l { clients = JsMap.set id s l.clients } else l

check_found : ℕ → Text → Option ClientState → RateLimiter → Decision × RateLimiter
unfolding check_client enforce_client_limit write_back JsMap.set
check_found now id (some s) l = let (d, s') = check_client l.config now s in (d, write_back id s' l)
check_found now id none l =
    let l' = enforce_client_limit (record l { clients = JsMap.set id new_client l.clients }) in
    let (d, s') = check_client l.config now new_client in (d, write_back id s' l')

unfoldable pub check_request : ℕ → Text → RateLimiter → Decision × RateLimiter
unfolding check_found JsMap.get
check_request now id l = check_found now id (JsMap.get id l.clients) l

below_cap : ℕ → Option (List Text) → Bool
below_cap cap none = true
below_cap cap (some conns) = ltb (length conns) cap

unfoldable pub check_connection : Text → RateLimiter → Bool
unfolding below_cap JsMap.get
check_connection ip l = below_cap l.config.max_connections_per_ip (JsMap.get ip l.connections_by_ip)

-- Set.add and Set.delete.
abbrev pub add_to : Text → List Text → List Text
add_to x [] = x ∷ []
add_to x (y ∷ ys) = if str_eq y x then y ∷ ys else y ∷ add_to x ys

abbrev pub delete_from : Text → List Text → List Text
delete_from x ys = keep (λ y. not (str_eq y x)) ys

abbrev pub connections : Option (List Text) → List Text
connections none = []
connections (some conns) = conns

unfoldable pub register_connection : Text → Text → RateLimiter → RateLimiter
unfolding JsMap.get JsMap.set
register_connection id ip l = record l {
  connections_by_ip =
      JsMap.set ip (add_to id (connections (JsMap.get ip l.connections_by_ip))) l.connections_by_ip;
}

drop_connection : Text → Text → Option (List Text) → JsMap (List Text) → JsMap (List Text)
unfolding JsMap.set JsMap.delete
drop_connection id ip none m = m
drop_connection id ip (some conns) m =
    let left = delete_from id conns in
    if length left == 0 then JsMap.delete ip m else JsMap.set ip left m

unfoldable pub unregister_connection : Text → Text → RateLimiter → RateLimiter
unfolding drop_connection JsMap.get JsMap.delete
unregister_connection id ip l = record l {
  clients = JsMap.delete id l.clients;
  connections_by_ip = drop_connection id ip (JsMap.get ip l.connections_by_ip) l.connections_by_ip;
}

unfoldable pub stop : RateLimiter → RateLimiter
stop l = record l { clients = []; connections_by_ip = []; sweeping = false }

-- Whether the sweep deletes a client, whose requests are already those in the window.
abbrev pub is_stale : ℕ → ClientState → Bool
is_stale now s =
    if length s.requests == 0 && not (truthy s.blocked_until)
    then true
    else truthy s.blocked_until && (leb (until s.blocked_until) now && length s.requests == 0)

cleanup_clients : RateLimitConfig → ℕ → JsMap ClientState → JsMap ClientState
unfolding in_window
cleanup_clients c now [] = []
cleanup_clients c now ((id, s) ∷ m) =
    let s' = record s { requests = keep (in_window c now) s.requests } in
    let rest = cleanup_clients c now m in if is_stale now s' then rest else (id, s') ∷ rest

unfoldable pub cleanup : ℕ → RateLimiter → RateLimiter
unfolding cleanup_clients
cleanup now l = record l { clients = cleanup_clients l.config now l.clients }
