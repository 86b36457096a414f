-- ===== src/Vault/Proxy/Release.antt =====
-- src/vault/src/server/proxy.ts: which secrets the proxy gives out, and to whom.
use flopsy.Prelude.{
  ℕ, ◌+◌, ◌≡◌, refl, sym, ap, ◌∙◌, inl, inr, true, false, Option, none, some, List, [], ◌∷◌, arith,
  if◌then◌else◌, Bool-cases, All, Text, Outcome, returned, thrown,
}
use flopsy.Vault.{Bytes, Crypto}
use flopsy.Vault.Tokens.{
  ScopeJson, TokenRow, TokenError, VerifiedToken, verify_token, host_matches_scope,
  secret_matches_scope,
}
use flopsy.Vault.Rules.{RuleRow, match_rule, parse_inject_into}
use flopsy.Vault.Inject.{UrlSearchParams, ApplyContext, injection}
use flopsy.Vault.Broker.{Broker, BrokerError, GetCredentialOptions, get}
use flopsy.Vault.Broker.Audited.{get-trail}
use flopsy.Vault.Request.{
  Target, Headers, RequestHead, parse_head, parse_connect_target, read_bearer,
}
use flopsy.Vault.Proxy.{
  Trail, forwarded, apply_rule, apply_rules, inject_with, use_secret, handle_connect,
  handle_decrypted_request, handle_head, forward, authorise, admit, serve, tunnel,
}

module _ (c : Crypto) (env : Text → Option Text) (json : ScopeJson) (url : UrlSearchParams)
    (base64_text : Text → Text) (to_json : ℕ → ℕ → Text) (now : ℕ) where
  -- What the broker answers to the proxy.
  unfoldable pub read : Broker → VerifiedToken → Text → Outcome BrokerError Text
  unfolding get
  read b token name =
      (get c env now b name (record { who = token.label; fallback_to_env = false }) []).0

  -- The two brokers answer alike for the secret of the rule, if it is in the token's scope.
  abbrev pub Agree : Broker → Broker → VerifiedToken → RuleRow → Type 0
  Agree b b' token r =
      secret_matches_scope token.scope r.secret_name ≡ true
      → read b token r.secret_name ≡ read b' token r.secret_name

  -- The same reply or context, whatever the trails.
  abbrev Same3 : {A B : Type 0} → A × B × Trail → A × B × Trail → Type 0
  Same3 (a, b, t) (a', b', t') = (a ≡ a') × (b ≡ b')

  use_secret-same :
      (put : Text → ApplyContext) (ctx : ApplyContext) (x x' : Outcome BrokerError Text × Trail)
      → x.0 ≡ x'.0
      → Same3
          (use_secret c env json url base64_text to_json now put ctx x)
          (use_secret c env json url base64_text to_json now put ctx x')
  unfolding use_secret
  use_secret-same put ctx (returned v, t) (returned w, t') e = (refl, ap put (cc))
  use_secret-same put ctx (thrown v, t) (thrown w, t') e = (refl, refl)
  use_secret-same put ctx (returned v, t) (thrown w, t') e = cc
  use_secret-same put ctx (thrown v, t) (returned w, t') e = cc

  inject_with-same :
      (put : Option (Text → ApplyContext)) (r : RuleRow) (b b' : Broker) (token : VerifiedToken)
      (ctx : ApplyContext) (t t' : Trail)
      → read b token r.secret_name ≡ read b' token r.secret_name
      → Same3
          (inject_with c env json url base64_text to_json now put r b token ctx t)
          (inject_with c env json url base64_text to_json now put r b' token ctx t')
  unfolding inject_with read
  inject_with-same none r b b' token ctx t t' e = (refl, refl)
  inject_with-same (some put) r b b' token ctx t t' e =
      let opts : GetCredentialOptions = record { who = token.label; fallback_to_env = false } in
      use_secret-same put ctx (get c env now b r.secret_name opts t)
        (get c env now b' r.secret_name opts t')
        (get-trail c env now b r.secret_name opts t []
          ∙ e
          ∙ get-trail c env now b' r.secret_name opts [] t')

  apply_rule-same :
      (r : RuleRow) (b b' : Broker) (token : VerifiedToken) (ctx : ApplyContext) (t t' : Trail)
      → Agree b b' token r
      → Same3
          (apply_rule c env json url base64_text to_json now r b token ctx t)
          (apply_rule c env json url base64_text to_json now r b' token ctx t')
  unfolding apply_rule
  apply_rule-same r b b' token ctx t t' agree =
      elim (Bool-cases (secret_matches_scope token.scope r.secret_name)) [
        | inl scoped ↦ rw scoped (
            inject_with-same (injection url (parse_inject_into r.inject_into) r.placeholder ctx) r b
              b' token ctx t t' (agree scoped))
        | inr outside ↦ rw outside (refl, refl)
      ]

  apply_rules-same :
      (rs : List RuleRow) (b b' : Broker) (token : VerifiedToken) (n n' : ℕ)
      (ctx ctx' : ApplyContext) (t t' : Trail)
      → All (Agree b b' token) rs
      → n ≡ n'
      → ctx ≡ ctx'
      → Same3
          (apply_rules c env json url base64_text to_json now rs b token n ctx t)
          (apply_rules c env json url base64_text to_json now rs b' token n' ctx' t')
  unfolding apply_rules
  apply_rules-same [] b b' token n n' ctx ctx' t t' agree e e' = (e, e')
  apply_rules-same (r ∷ rs) b b' token n n' ctx ctx' t t' agree e e' =
      let x = apply_rule c env json url base64_text to_json now r b token ctx' t in
      let x' = apply_rule c env json url base64_text to_json now r b' token ctx' t' in
      let (p, q) = apply_rule-same r b b' token ctx' t t' agree.0 in
      rw (e, e')
        (apply_rules-same rs b b' token (if x.0 then n' + 1 else n') (if x'.0 then n' + 1 else n')
          x.1 x'.1 x.2 x'.2 agree.1 (ap (λ a. if a then n' + 1 else n') p) q)

  handle_head-same :
      (dek dek' : Bytes) (rules : List RuleRow) (b b' : Broker) (token : VerifiedToken)
      (target : Target) (head : Option RequestHead) (t t' : Trail)
      → All (Agree b b' token) (match_rule target.host rules)
      → (handle_head c env json url base64_text to_json now dek rules b token target head t).0
        ≡ (handle_head c env json url base64_text to_json now dek' rules b' token target head t').0
  unfolding handle_head forward
  handle_head-same dek dek' rules b b' token target none t t' agree = refl
  handle_head-same dek dek' rules b b' token target (some head) t t' agree =
      let ctx : ApplyContext = record { headers = head.headers; url_path = head.path } in
      let (p, q) =
        apply_rules-same (match_rule target.host rules) b b' token 0 0 ctx ctx t t' agree refl
          refl in
      rw q refl

  admit-key :
      (dek dek' : Bytes) (target : Target) (v : Outcome TokenError VerifiedToken) (t t' : Trail)
      → (admit c env json url base64_text to_json now dek target v t).0
        ≡ (admit c env json url base64_text to_json now dek' target v t').0
  unfolding admit
  admit-key dek dek' target (thrown e) t t' = refl
  admit-key dek dek' target (returned token) t t' =
      elim (Bool-cases (host_matches_scope token.scope target.host)) [
        | inl inside ↦ rw inside refl
        | inr outside ↦ rw outside refl
      ]

  authorise-key :
      (dek dek' : Bytes) (tokens : List TokenRow) (target : Option Target) (raw : Option Text)
      (t t' : Trail)
      → (authorise c env json url base64_text to_json now dek tokens target raw t).0
        ≡ (authorise c env json url base64_text to_json now dek' tokens target raw t').0
  unfolding authorise
  authorise-key dek dek' tokens none raw t t' = refl
  authorise-key dek dek' tokens (some target) none t t' = refl
  authorise-key dek dek' tokens (some target) (some []) t t' = refl
  authorise-key dek dek' tokens (some target) (some (x ∷ xs)) t t' =
      admit-key dek dek' target (verify_token c json now (x ∷ xs) tokens) t t'

  tunnel-same :
      (dek dek' : Bytes) (rules : List RuleRow) (b b' : Broker) (text : Text)
      (x x' : Outcome ℕ (VerifiedToken × Target) × Trail)
      → x.0 ≡ x'.0
      → ((token : VerifiedToken) (target : Target)
          → x.0 ≡ returned (token, target)
          → All (Agree b b' token) (match_rule target.host rules))
      → (tunnel c env json url base64_text to_json now dek rules b text x).0
        ≡ (tunnel c env json url base64_text to_json now dek' rules b' text x').0
  unfolding tunnel handle_decrypted_request
  tunnel-same dek dek' rules b b' text (thrown s, t) (thrown s', t') e agree = cc
  tunnel-same dek dek' rules b b' text (thrown s, t) (returned w, t') e agree = cc
  tunnel-same dek dek' rules b b' text (returned w, t) (thrown s', t') e agree = cc
  tunnel-same dek dek' rules b b' text (returned (k, g), t) (returned (k', g'), t') e agree =
      let p : k ≡ k' = cc in
      let q : g ≡ g' = cc in
      rw (sym p, sym q)
        (handle_head-same dek dek' rules b b' k g (parse_head text) t t' (agree k g refl))

  -- What the proxy replies or forwards depends on the secrets only through those that a rule for the
  -- target's host names and the scope of the token admits: if two brokers answer alike for these, a
  -- CONNECT request and the request in its tunnel have the same outcome with both, whatever the keys
  -- and the trails are.
  pub serve-brokers :
      (dek dek' : Bytes) (tokens : List TokenRow) (rules : List RuleRow) (b b' : Broker)
      (target_url auth : Option Text) (text : Text) (t t' : Trail)
      → ((token : VerifiedToken) (target : Target)
          → (handle_connect c env json url base64_text to_json now dek tokens target_url auth t).0
            ≡ returned (token, target)
          → All (Agree b b' token) (match_rule target.host rules))
      → (serve c env json url base64_text to_json now dek tokens rules b target_url auth text t).0
        ≡ (serve c env json url base64_text to_json now dek' tokens rules b' target_url auth text
            t').0
  unfolding serve handle_connect
  serve-brokers dek dek' tokens rules b b' target_url auth text t t' agree =
      let target = parse_connect_target target_url in
      let raw = read_bearer base64_text auth in
      tunnel-same dek dek' rules b b' text
        (authorise c env json url base64_text to_json now dek tokens target raw t)
        (authorise c env json url base64_text to_json now dek' tokens target raw t')
        (authorise-key dek dek' tokens target raw t t') agree

  abbrev SameAdmission : VerifiedToken × Target → VerifiedToken × Target → Type 0
  SameAdmission a b = ◌≡◌ {A = Outcome ℕ (VerifiedToken × Target)} (returned a) (returned b)

  admit-returned :
      (dek : Bytes) (target : Target) (v : Outcome TokenError VerifiedToken) (t : Trail)
      (token : VerifiedToken) (target' : Target)
      → (admit c env json url base64_text to_json now dek target v t).0 ≡ returned (token, target')
      → (v ≡ returned token)
        × (target ≡ target')
        × (host_matches_scope token.scope target'.host ≡ true)
  unfolding admit
  admit-returned dek target (thrown e) t token target' h = cc
  admit-returned dek target (returned k) t token target' h =
      elim (Bool-cases (host_matches_scope k.scope target.host)) [
        | inl inside ↦
            let same : SameAdmission (k, target) (token, target') = ground (arith, h, inside) in
            let p : k ≡ token = cc in
            let q : target ≡ target' = cc in (ap (λ a. returned a) p, q, rw (sym p, sym q) inside)
        | inr outside ↦ ground (arith, h, outside)
      ]

  authorise-returned :
      (dek : Bytes) (tokens : List TokenRow) (target : Option Target) (raw : Option Text)
      (t : Trail) (token : VerifiedToken) (target' : Target)
      → (authorise c env json url base64_text to_json now dek tokens target raw t).0
        ≡ returned (token, target')
      → (word : Text) × (target ≡ some target')
        × (raw ≡ some word)
        × (verify_token c json now word tokens ≡ returned token)
        × (host_matches_scope token.scope target'.host ≡ true)
  unfolding authorise
  authorise-returned dek tokens none raw t token target' h = cc
  authorise-returned dek tokens (some target) none t token target' h = cc
  authorise-returned dek tokens (some target) (some []) t token target' h = cc
  authorise-returned dek tokens (some target) (some (x ∷ xs)) t token target' h =
      let (v, same, inside) =
        admit-returned dek target (verify_token c json now (x ∷ xs) tokens) t token target' h in
      (x ∷ xs, ap (λ g. some g) same, refl, v, inside)

  handle_head-forwarded :
      (dek : Bytes) (rules : List RuleRow) (b : Broker) (k : VerifiedToken) (g : Target)
      (head : Option RequestHead) (t : Trail) (method path : Text) (target : Target)
      (headers : Headers)
      → (handle_head c env json url base64_text to_json now dek rules b k g head t).0
        ≡ forwarded method target path headers
      → g ≡ target
  unfolding handle_head forward
  handle_head-forwarded dek rules b k g none t method path target headers h = cc
  handle_head-forwarded dek rules b k g (some head) t method path target headers h = cc

  tunnel-forwarded :
      (dek : Bytes) (rules : List RuleRow) (b : Broker) (text : Text)
      (x : Outcome ℕ (VerifiedToken × Target) × Trail) (method path : Text) (target : Target)
      (headers : Headers)
      → (tunnel c env json url base64_text to_json now dek rules b text x).0
        ≡ forwarded method target path headers
      → (token : VerifiedToken) × (x.0 ≡ returned (token, target))
  unfolding tunnel handle_decrypted_request
  tunnel-forwarded dek rules b text (thrown s, t) method path target headers h = cc
  tunnel-forwarded dek rules b text (returned (k, g), t) method path target headers h = (
    k,
    ap (λ a. returned (k, a))
        (handle_head-forwarded dek rules b k g (parse_head text) t method path target headers h),
  )

  -- A request is forwarded only to the target of its CONNECT request, and only if that carries a
  -- token which is accepted and whose scope admits the target's host.
  pub serve-forwarded :
      (dek : Bytes) (tokens : List TokenRow) (rules : List RuleRow) (b : Broker)
      (target_url auth : Option Text) (text : Text) (t : Trail) (method path : Text)
      (target : Target) (headers : Headers)
      → (serve c env json url base64_text to_json now dek tokens rules b target_url auth text t).0
        ≡ forwarded method target path headers
      → (token : VerifiedToken) × (word : Text) × (parse_connect_target target_url ≡ some target)
        × (read_bearer base64_text auth ≡ some word)
        × (verify_token c json now word tokens ≡ returned token)
        × (host_matches_scope token.scope target.host ≡ true)
  unfolding serve handle_connect
  serve-forwarded dek tokens rules b target_url auth text t method path target headers h =
      let url_target = parse_connect_target target_url in
      let raw = read_bearer base64_text auth in
      let (token, admitted) =
        tunnel-forwarded dek rules b text
          (authorise c env json url base64_text to_json now dek tokens url_target raw t) method path
          target headers h in
      let (word, p, q, v, inside) =
        authorise-returned dek tokens url_target raw t token target admitted in
      (token, word, p, q, v, inside)
