-- ===== src/Vault/Proxy/Examples.antt =====
-- Runs of the proxy, with a rule that puts a secret into a header.
use flopsy.Prelude.{
  ℕ, ◌≡◌, refl, inl, inr, true, false, Option, none, some, [], ◌∷◌, ◌++◌, Bool-cases, All, Text,
  codes, decimal, returned,
}
use flopsy.Vault.Cipher.{open_sealed}
use flopsy.Vault.Store.{VaultDb, get_secret}
use flopsy.Vault.Examples.{ks, toy, plain_json, one_row, empty_db}
use flopsy.Vault.Tokens.{VerifiedToken, verify_token, host_matches_scope, mint_token, decode_scope}
use flopsy.Vault.Rules.{RuleRow, match_rule, list_rules, host_matches}
use flopsy.Vault.Inject.{UrlSearchParams}
use flopsy.Vault.Broker.{Broker}
use flopsy.Vault.Request.{Target, one_value, Headers, parse_connect_target, read_bearer}
use flopsy.Vault.Proxy.{forwarded, handle_connect, serve}
use flopsy.Vault.Proxy.Release.{read, Agree, serve-brokers, serve-forwarded}

abbrev url : UrlSearchParams
url = record { parse = λ t. []; print = λ m. [] }

abbrev env : Text → Option Text
env name = none

abbrev same_text : Text → Text
same_text t = t

abbrev counts : ℕ → ℕ → Text
counts n m = decimal n

abbrev secret_db : Text → Text → VaultDb
secret_db key extra = record empty_db {
  secrets =
      (
        codes "KEY",
        record {
          sealed = record { nonce = ks 12; tag = ks 16; ciphertext = key };
          created_at = 0;
          updated_at = 0;
        },
      )
      ∷ (
        codes "OTHER",
        record {
          sealed = record { nonce = ks 12; tag = ks 16; ciphertext = extra };
          created_at = 0;
          updated_at = 0;
        },
      )
      ∷ [];
}

abbrev broker : Text → Broker
broker extra = record {
  dek = some (ks 32);
  db = some (secret_db (codes "s3cret") extra);
  closed = false;
}

abbrev rule : RuleRow
rule = record {
  id = codes "r1";
  host_pattern = codes "*.example.com";
  placeholder = codes "__key__";
  secret_name = codes "KEY";
  inject_into = codes "header:X-Key";
  created_at = 0;
}

abbrev connect_url : Option Text
connect_url = some (codes "api.example.com:443")

abbrev auth : Option Text
auth = some (codes "Bearer fv_agt_" ++ ks 32)

abbrev head_text : Text
head_text = codes "GET /v1?x=1 HTTP/1.1" ++ 13 ∷ 10 ∷ codes "X-Key: Bearer __key__"

abbrev target : Target
target = record { host = codes "api.example.com"; port = 443 }

abbrev sent : Headers
sent =
    (codes "x-key", one_value (codes "Bearer s3cret"))
    ∷ (codes "host", one_value (codes "api.example.com"))
    ∷ (codes "accept-encoding", one_value (codes "identity"))
    ∷ []

sent_forwarded :
    (serve toy env plain_json url same_text counts 60
      (ks 32)
      one_row
      (rule ∷ [])
      (broker (codes "a"))
      connect_url
      auth
      head_text
      []).0
    ≡ forwarded (codes "GET") target (codes "/v1?x=1") sent
unfolding serve mint_token decode_scope get_secret open_sealed
sent_forwarded = refl

agreed :
    (token : VerifiedToken) (g : Target)
    → (handle_connect toy env plain_json url same_text counts 60
        (ks 32)
        one_row
        connect_url
        auth
        []).0
      ≡ returned (token, g)
    → All
        (Agree toy env plain_json url same_text counts 60
          (broker (codes "a"))
          (broker (codes "b"))
          token)
        (match_rule g.host (rule ∷ []))
unfolding match_rule list_rules read get_secret open_sealed
agreed token g h = elim (Bool-cases (host_matches g.host rule.host_pattern)) [
  | inl hit ↦ rw hit ((λ s. refl), tt)
  | inr miss ↦ rw miss tt
]

serve-forwarded_example :
    (token : VerifiedToken) × (word : Text) × (parse_connect_target connect_url ≡ some target)
    × (read_bearer same_text auth ≡ some word)
    × (verify_token toy plain_json 60 word one_row ≡ returned token)
    × (host_matches_scope token.scope target.host ≡ true)
serve-forwarded_example =
    serve-forwarded toy env plain_json url same_text counts 60 (ks 32) one_row (rule ∷ [])
      (broker (codes "a")) connect_url auth head_text [] (codes "GET") (codes "/v1?x=1") target sent
      sent_forwarded

serve-brokers_example :
    (serve toy env plain_json url same_text counts 60
      (ks 32)
      one_row
      (rule ∷ [])
      (broker (codes "a"))
      connect_url
      auth
      head_text
      []).0
    ≡ (serve toy env plain_json url same_text counts 60
        (ks 32)
        one_row
        (rule ∷ [])
        (broker (codes "b"))
        connect_url
        auth
        head_text
        []).0
serve-brokers_example =
    serve-brokers toy env plain_json url same_text counts 60 (ks 32) (ks 32) one_row (rule ∷ [])
      (broker (codes "a")) (broker (codes "b")) connect_url auth head_text [] [] agreed
