-- ===== src/Vault/Tokens.antt =====
-- src/vault/src/store/tokens.ts: the tokens of agents, and what each may reach. The JSON text of a
-- scope is read and written by two functions that are arguments.
pub mod Revocation
use flopsy.Prelude.{
  ℕ, ◌+◌, Bool, true, false, not, ◌&&◌, ◌||◌, Option, none, some, List, [], ◌∷◌, ◌++◌, ltb, leb,
  ◌==◌, if◌then◌else◌, length, drop, keep, Text, codes, str_eq, starts_with, Outcome, returned,
  thrown,
}
use flopsy.Prelude.Substrings.{ends_with, some_of}
use flopsy.Vault.{Crypto}
use flopsy.Vault.Store.{is_letter, every}

abbrev pub token_prefix : Text
token_prefix = codes "fv_agt_"

pub record DecodedScope : Type 0 where
  pub allow_hosts : List Text
  pub allow_secrets : List Text

-- `JSON.stringify` of the two lists. `JSON.parse` and the reading of the two fields fail or give,
-- for each, its list if it is an array.
pub record ScopeJson : Type 0 where
  pub stringify : List Text → List Text → Text
  pub parse : Text → Option (Option (List Text) × Option (List Text))

pub record TokenRow : Type 0 where
  pub token_hash : Text
  pub label : Text
  pub scope : Text
  pub expires_at : Option ℕ
  pub revoked : Bool
  pub created_at : ℕ

pub record MintTokenInput : Type 0 where
  pub label : Text
  pub allow_hosts : Option (List Text)
  pub allow_secrets : Option (List Text)
  pub ttl_ms : Option ℕ

pub record VerifiedToken : Type 0 where
  pub label : Text
  pub scope : DecodedScope
  pub expires_at : Option ℕ

pub data TokenError : Type 0 where
  bad_label was_invalid was_expired was_revoked was_malformed : TokenError

abbrev or_empty : Option (List Text) → List Text
or_empty none = []
or_empty (some l) = l

is_label_char : ℕ → Bool
is_label_char x =
    is_letter x || ((leb b'0' x && leb x b'9') || (x == b'.' || (x == b'_' || x == b'-')))

unfoldable pub is_label : Text → Bool
unfolding every is_label_char
is_label l = leb 1 (length l) && (leb (length l) 64 && every is_label_char l)

deadline : ℕ → Option ℕ → Option ℕ
deadline now none = none
deadline now (some ttl) = if leb ttl 0 then none else some (now + ttl)

unfoldable pub find_token : Text → List TokenRow → Option TokenRow
find_token hash [] = none
find_token hash (r ∷ rs) = if str_eq r.token_hash hash then some r else find_token hash rs

-- `INSERT … ON CONFLICT(token_hash) DO NOTHING`.
unfoldable pub insert_token : TokenRow → List TokenRow → List TokenRow
unfolding find_token
insert_token row rows =
    if some_of (λ r. str_eq r.token_hash row.token_hash) rows then rows else rows ++ row ∷ []

is_past : ℕ → Option ℕ → Bool
is_past now none = false
is_past now (some at) = ltb at now

decoded_scope : Option (Option (List Text) × Option (List Text)) → DecodedScope
decoded_scope none = record { allow_hosts = []; allow_secrets = [] }
decoded_scope (some (hosts, secrets)) = record {
  allow_hosts = or_empty hosts;
  allow_secrets = or_empty secrets;
}

unfoldable pub decode_scope : ScopeJson → Text → DecodedScope
unfolding decoded_scope
decode_scope json scope = decoded_scope (json.parse scope)

unfoldable pub encode_scope : ScopeJson → MintTokenInput → Text
encode_scope json input = json.stringify (or_empty input.allow_hosts) (or_empty input.allow_secrets)

module _ (c : Crypto) (json : ScopeJson) where
  -- The random part of the token is an argument. The raw token is returned with the table.
  unfoldable pub mint_token :
      ℕ → Text → MintTokenInput → List TokenRow → Outcome TokenError (Text × List TokenRow)
  unfolding is_label deadline insert_token
  mint_token now random input rows =
      let raw = token_prefix ++ random in
      if not (is_label input.label)
      then thrown bad_label
      else returned (
        raw,
        insert_token
            (record {
              token_hash = c.sha256_hex raw;
              label = input.label;
              scope = encode_scope json input;
              expires_at = deadline now input.ttl_ms;
              revoked = false;
              created_at = now;
            })
            rows,
      )

  verified : ℕ → Option TokenRow → Outcome TokenError VerifiedToken
  unfolding is_past
  verified now none = thrown was_invalid
  verified now (some row) =
      if row.revoked
      then thrown was_revoked
      else if is_past now row.expires_at
      then thrown was_expired
      else returned (record {
        label = row.label;
        scope = decode_scope json row.scope;
        expires_at = row.expires_at;
      })

  unfoldable pub verify_token : ℕ → Text → List TokenRow → Outcome TokenError VerifiedToken
  unfolding verified find_token starts_with
  verify_token now raw rows =
      if not (starts_with raw token_prefix) || ltb (length raw) (length token_prefix + 32)
      then thrown was_malformed
      else verified now (find_token (c.sha256_hex raw) rows)

unfoldable pub revoke_rows : Text → List TokenRow → List TokenRow
unfolding str_eq
revoke_rows label [] = []
revoke_rows label (r ∷ rs) =
    (if str_eq r.label label then record r { revoked = true } else r) ∷ revoke_rows label rs

unfoldable pub revoke_token : Text → List TokenRow → Bool × List TokenRow
unfolding some_of revoke_rows
revoke_token label rows =
    (some_of (λ r. str_eq r.label label && not r.revoked) rows, revoke_rows label rows)

unfoldable pub delete_token : Text → List TokenRow → Bool × List TokenRow
unfolding some_of str_eq
delete_token label rows =
    (some_of (λ r. str_eq r.label label) rows, keep (λ r. not (str_eq r.label label)) rows)

matches_pattern : Text → Text → Bool
unfolding str_eq starts_with ends_with
matches_pattern value pattern =
    if str_eq pattern (codes "*")
    then true
    else if starts_with pattern (codes "*.")
    then ends_with value (drop 1 pattern)
    else str_eq value pattern

unfoldable pub host_matches_scope : DecodedScope → Text → Bool
unfolding some_of matches_pattern
host_matches_scope scope host = some_of (λ pattern. matches_pattern host pattern) scope.allow_hosts

unfoldable pub secret_matches_scope : DecodedScope → Text → Bool
unfolding some_of matches_pattern
secret_matches_scope scope name =
    some_of (λ pattern. matches_pattern name pattern) scope.allow_secrets
