-- ===== src/Vault/Proxy.antt =====
-- src/vault/src/server/proxy.ts: the proxy that puts secrets for placeholders. A request is what
-- arrives on the socket, and what it answers or forwards is the result; certificates, time limits
-- and the streaming of bodies are not modelled. Every write to the audit trail is.
pub mod Release
mod Examples
use flopsy.Prelude.{
  ℕ, ◌+◌, Bool, true, false, not, ◌||◌, Option, none, some, List, [], ◌∷◌, ◌++◌, ◌==◌,
  if◌then◌else◌, length, keep, Text, codes, str_eq, decimal, Outcome, returned, thrown,
}
use flopsy.Prelude.JsMap
use flopsy.Prelude.JsMap.{JsMap}
use flopsy.Prelude.Substrings.{cut_at}
use flopsy.Vault.{Bytes, Crypto}
use flopsy.Vault.Store.{AuditEntry, AuditRow, append_audit}
use flopsy.Vault.Tokens.{
  ScopeJson, TokenRow, TokenError, was_invalid, was_expired, was_revoked, was_malformed, bad_label,
  VerifiedToken, verify_token, host_matches_scope, secret_matches_scope,
}
use flopsy.Vault.Rules.{RuleRow, parse_inject_into, match_rule}
use flopsy.Vault.Inject.{UrlSearchParams, ApplyContext, injection}
use flopsy.Vault.Broker.{Broker, BrokerError, get}
use flopsy.Vault.Request.{
  Target, parse_connect_target, read_bearer, one_value, Headers, RequestHead, parse_head,
}

abbrev pub Trail : Type 0
Trail = List AuditRow

pub data ProxyReply : Type 0 where
  denied : ℕ → ProxyReply
  bad_request : ProxyReply
  forwarded : Text → Target → Text → Headers → ProxyReply

abbrev pub proxy_entry : Text → Text → Text → Text → Option Text → AuditEntry
proxy_entry who action resource outcome metadata = record {
  actor_token = who;
  action = action;
  resource = some resource;
  outcome = outcome;
  metadata = metadata;
}

reason : TokenError → Text
reason was_invalid = codes "invalid"
reason was_expired = codes "expired"
reason was_revoked = codes "revoked"
reason was_malformed = codes "malformed"
reason bad_label = codes "invalid"

is_hop_header : Text → Bool
unfolding str_eq
is_hop_header k =
    str_eq k (codes "proxy-authorization")
    || (str_eq k (codes "proxy-connection") || str_eq k (codes "host"))

unfoldable pub upstream_headers : Target → Headers → Headers
unfolding is_hop_header JsMap.set
upstream_headers target headers =
    let host =
      if target.port == 443 then target.host else target.host ++ (b':' ∷ decimal target.port) in
    JsMap.set (codes "accept-encoding") (one_value (codes "identity"))
      (JsMap.set (codes "host") (one_value host) (keep (λ h. not (is_hop_header h.0)) headers))

-- The path before the query string.
path_only : Text → Option (Text × Text) → Text
path_only path none = path
path_only path (some (before, after)) = before

module _ (c : Crypto) (env : Text → Option Text) (json : ScopeJson) (url : UrlSearchParams)
    (base64_text : Text → Text) (to_json : ℕ → ℕ → Text) (now : ℕ) where
  use_secret :
      (Text → ApplyContext)
      → ApplyContext
      → Outcome BrokerError Text × Trail
      → Bool × ApplyContext × Trail
  use_secret put ctx (thrown e, trail) = (false, ctx, trail)
  use_secret put ctx (returned real, trail) = (true, put real, trail)

  inject_with :
      Option (Text → ApplyContext)
      → RuleRow
      → Broker
      → VerifiedToken
      → ApplyContext
      → Trail
      → Bool × ApplyContext × Trail
  unfolding use_secret get
  inject_with none rule b token ctx trail = (false, ctx, trail)
  inject_with (some put) rule b token ctx trail = use_secret put ctx (
      get c env now b rule.secret_name (record { who = token.label; fallback_to_env = false })
        trail)

  unfoldable pub apply_rule :
      RuleRow → Broker → VerifiedToken → ApplyContext → Trail → Bool × ApplyContext × Trail
  unfolding inject_with injection secret_matches_scope parse_inject_into
  apply_rule rule b token ctx trail =
      if not (secret_matches_scope token.scope rule.secret_name)
      then (false, ctx, trail)
      else inject_with (injection url (parse_inject_into rule.inject_into) rule.placeholder ctx)
          rule b token ctx trail

  -- The rules in turn, and how many did something.
  unfoldable pub apply_rules :
      List RuleRow → Broker → VerifiedToken → ℕ → ApplyContext → Trail → ℕ × ApplyContext × Trail
  unfolding apply_rule
  apply_rules [] b token n ctx trail = (n, ctx, trail)
  apply_rules (r ∷ rs) b token n ctx trail =
      let (applied, ctx', trail') = apply_rule r b token ctx trail in
      apply_rules rs b token (if applied then n + 1 else n) ctx' trail'

  forward :
      Bytes → VerifiedToken → Target → Text → ℕ → ℕ × ApplyContext × Trail → ProxyReply × Trail
  unfolding upstream_headers path_only cut_at
  forward dek token target method matched (n, ctx, trail) = (
    forwarded method target ctx.url_path (upstream_headers target ctx.headers),
    append_audit c now dek
        (proxy_entry token.label (codes "proxy.forward")
          (method
            ++ (codes " https://"
                ++ (target.host ++ path_only ctx.url_path (cut_at b'?' ctx.url_path))))
          (codes "success") (some (to_json n matched)))
        trail,
  )

  handle_head :
      Bytes
      → List RuleRow
      → Broker
      → VerifiedToken
      → Target
      → Option RequestHead
      → Trail
      → ProxyReply × Trail
  unfolding forward match_rule apply_rules
  handle_head dek rules b token target none trail = (bad_request, trail)
  handle_head dek rules b token target (some head) trail =
      let matching = match_rule target.host rules in
      forward dek token target head.method (length matching) (
        apply_rules matching b token 0 (record { headers = head.headers; url_path = head.path })
          trail)

  unfoldable pub handle_decrypted_request :
      Bytes → List RuleRow → Broker → VerifiedToken → Target → Text → Trail → ProxyReply × Trail
  unfolding handle_head parse_head
  handle_decrypted_request dek rules b token target text trail =
      handle_head dek rules b token target (parse_head text) trail

  connect_entry : Text → Target → Text → Option Text → AuditEntry
  connect_entry who target outcome metadata =
      proxy_entry who (codes "proxy.connect") (target.host ++ (b':' ∷ decimal target.port)) outcome
        metadata

  admit :
      Bytes
      → Target
      → Outcome TokenError VerifiedToken
      → Trail
      → Outcome ℕ (VerifiedToken × Target) × Trail
  unfolding connect_entry reason host_matches_scope
  admit dek target (thrown e) trail = (
    thrown 407,
    append_audit c now dek
        (connect_entry (codes "unknown") target (codes "denied:token-" ++ reason e) none) trail,
  )
  admit dek target (returned token) trail =
      if not (host_matches_scope token.scope target.host)
      then (
        thrown 403,
        append_audit c now dek
            (connect_entry token.label target (codes "denied:host-not-in-scope") none) trail,
      )
      else (
        returned (token, target),
        append_audit c now dek
            (connect_entry token.label target (codes "success")
              (some (codes "{\"mode\":\"mitm\"}")))
            trail,
      )

  authorise :
      Bytes
      → List TokenRow
      → Option Target
      → Option Text
      → Trail
      → Outcome ℕ (VerifiedToken × Target) × Trail
  unfolding admit verify_token
  authorise dek tokens none raw trail = (thrown 400, trail)
  authorise dek tokens (some target) none trail = (thrown 407, trail)
  authorise dek tokens (some target) (some []) trail = (thrown 407, trail)
  authorise dek tokens (some target) (some (x ∷ xs)) trail =
      admit dek target (verify_token c json now (x ∷ xs) tokens) trail

  -- A CONNECT request with its URL and its Proxy-Authorization header: the token and the target it
  -- is let through to, or the status of the refusal.
  unfoldable pub handle_connect :
      Bytes
      → List TokenRow
      → Option Text
      → Option Text
      → Trail
      → Outcome ℕ (VerifiedToken × Target) × Trail
  unfolding authorise parse_connect_target read_bearer
  handle_connect dek tokens target_url auth trail =
      authorise dek tokens (parse_connect_target target_url) (read_bearer base64_text auth) trail

  tunnel :
      Bytes
      → List RuleRow
      → Broker
      → Text
      → Outcome ℕ (VerifiedToken × Target) × Trail
      → ProxyReply × Trail
  unfolding handle_decrypted_request
  tunnel dek rules b text (thrown status, trail) = (denied status, trail)
  tunnel dek rules b text (returned (token, target), trail) =
      handle_decrypted_request dek rules b token target text trail

  -- A CONNECT request and the request that follows in its tunnel.
  unfoldable pub serve :
      Bytes
      → List TokenRow
      → List RuleRow
      → Broker
      → Option Text
      → Option Text
      → Text
      → Trail
      → ProxyReply × Trail
  unfolding tunnel handle_connect
  serve dek tokens rules b target_url auth text trail =
      tunnel dek rules b text (handle_connect dek tokens target_url auth trail)
