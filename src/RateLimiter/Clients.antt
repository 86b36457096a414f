-- ===== src/RateLimiter/Clients.antt =====
-- src/gateway/src/core/security.ts: the state that the limiter keeps for each client.
use flopsy.Prelude.{
  ℕ, ◌≤◌, ◌<◌, ◌≡◌, refl, ◌∙◌, Option, none, some, arith, if◌then◌else◌, length, Text, str_eq,
  str_eq_refl,
}
use flopsy.Prelude.JsMap
use flopsy.Prelude.JsMap.{JsMap}
use flopsy.RateLimiter.{
  RateLimiter, ClientState, new_client, check_client, check_request, check_found, write_back,
  enforce_client_limit,
}

-- A client that is not tracked starts anew.
abbrev pub state_of : Option ClientState → ClientState
state_of none = new_client
state_of (some s) = s

get-write_back :
    (id j : Text) (s old : ClientState) (l : RateLimiter)
    → JsMap.get id l.clients ≡ some old
    → JsMap.get j (write_back id s l).clients
      ≡ (if str_eq id j then some s else JsMap.get j l.clients)
unfolding write_back
get-write_back id j s old l e =
    ground (arith, JsMap.has-of_get id l.clients old e, JsMap.get-set id j s l.clients)

enforce_below :
    (l : RateLimiter) → length l.clients ≤ l.config.max_tracked_clients → enforce_client_limit l ≡ l
unfolding enforce_client_limit
enforce_below l h = ground (arith, h)

check_found-get :
    (now : ℕ) (id j : Text) (o : Option ClientState) (l : RateLimiter)
    → JsMap.get id l.clients ≡ o
    → length l.clients < l.config.max_tracked_clients
    → let (d, l') = check_found now id o l in
      let (d', s') = check_client l.config now (state_of o) in
      (d ≡ d') × (JsMap.get j l'.clients ≡ (if str_eq id j then some s' else JsMap.get j l.clients))
unfolding check_found
check_found-get now id j (some s) l e h =
    (refl, get-write_back id j (check_client l.config now s).1 s l e)
check_found-get now id j none l e h =
    let l1 : RateLimiter = record l { clients = JsMap.set id new_client l.clients } in
    let s' : ClientState = (check_client l.config now new_client).1 in
    let same : enforce_client_limit l1 ≡ l1 =
      enforce_below l1 (omega (arith, h, JsMap.length-set-le id new_client l.clients)) in
    let there : JsMap.get id l1.clients ≡ some new_client =
      JsMap.get-set id id new_client l.clients ∙ rw (str_eq_refl id) in
    simp same (
      refl,
      get-write_back id j s' new_client l1 there
          ∙ ground (arith, JsMap.get-set id j new_client l.clients),
    )

-- While the limiter tracks fewer clients than it may, a request is decided by the state of its own
-- client, a fresh one if the client is new; afterwards the limiter holds the state that this decision
-- leaves for the client, and the state of every other client is as before.
pub check_request-check_client :
    (now : ℕ) (id j : Text) (l : RateLimiter)
    → length l.clients < l.config.max_tracked_clients
    → let (d, l') = check_request now id l in
      let (d', s') = check_client l.config now (state_of (JsMap.get id l.clients)) in
      (d ≡ d') × (JsMap.get j l'.clients ≡ (if str_eq id j then some s' else JsMap.get j l.clients))
unfolding check_request
check_request-check_client now id j l h = check_found-get now id j (JsMap.get id l.clients) l refl h
