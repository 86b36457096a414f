-- ===== src/Vault/Broker.antt =====
-- src/vault/src/broker.ts: the credential broker, which holds the key while it is open and writes
-- every read to the audit trail. The trail is passed on beside it, as the proxy writes to the same.
pub mod Audited
use flopsy.Prelude.{
  ℕ, Bool, true, Option, none, some, List, [], ◌∷◌, if◌then◌else◌, Text, codes, Outcome, returned,
  thrown,
}
use flopsy.Vault.{Bytes, Crypto, VaultError}
use flopsy.Vault.Store.{VaultDb, AuditEntry, AuditRow, get_secret, append_audit}

pub record Broker : Type 0 where
  pub dek : Option Bytes
  pub db : Option VaultDb
  pub closed : Bool

pub data BrokerError : Type 0 where
  broker_sealed : BrokerError
  credential_missing : Text → BrokerError
  vault_error : VaultError → BrokerError

pub record GetCredentialOptions : Type 0 where
  pub who : Text
  pub fallback_to_env : Bool

abbrev pub credential_read : Text → Text → Text → AuditEntry
credential_read who name outcome = record {
  actor_token = who;
  action = codes "credential.read";
  resource = some name;
  outcome = outcome;
  metadata = none;
}

-- A variable of the environment, if the fallback is asked for and it is not empty.
unfoldable pub fallback : GetCredentialOptions → Option Text → Option Text
fallback opts none = none
fallback opts (some []) = none
fallback opts (some (x ∷ xs)) = if opts.fallback_to_env then some (x ∷ xs) else none

module _ (c : Crypto) (env : Text → Option Text) where
  from_env :
      ℕ
      → Bytes
      → Text
      → GetCredentialOptions
      → Option Text
      → List AuditRow
      → Outcome BrokerError Text × List AuditRow
  from_env now dek name opts (some value) trail = (
    returned value,
    append_audit c now dek (credential_read opts.who name (codes "fallback-env")) trail,
  )
  from_env now dek name opts none trail = (
    thrown (credential_missing name),
    append_audit c now dek (credential_read opts.who name (codes "denied:not-found")) trail,
  )

  from_vault :
      ℕ
      → Bytes
      → Text
      → GetCredentialOptions
      → Outcome VaultError (Option Text)
      → List AuditRow
      → Outcome BrokerError Text × List AuditRow
  unfolding from_env fallback
  from_vault now dek name opts (thrown e) trail = (thrown (vault_error e), trail)
  from_vault now dek name opts (returned (some value)) trail = (
    returned value,
    append_audit c now dek (credential_read opts.who name (codes "success")) trail,
  )
  from_vault now dek name opts (returned none) trail =
      from_env now dek name opts (fallback opts (env name)) trail

  get_open :
      ℕ
      → Option Bytes
      → Option VaultDb
      → Text
      → GetCredentialOptions
      → List AuditRow
      → Outcome BrokerError Text × List AuditRow
  unfolding from_vault
  get_open now (some dek) (some db) name opts trail =
      from_vault now dek name opts (get_secret c dek name db) trail
  get_open now _ _ name opts trail = (thrown broker_sealed, trail)

  unfoldable pub get :
      ℕ
      → Broker
      → Text
      → GetCredentialOptions
      → List AuditRow
      → Outcome BrokerError Text × List AuditRow
  unfolding get_open
  get now b name opts trail =
      if b.closed then (thrown broker_sealed, trail) else get_open now b.dek b.db name opts trail

  missing_as_none : Outcome BrokerError Text → Outcome BrokerError (Option Text)
  missing_as_none (returned value) = returned (some value)
  missing_as_none (thrown (credential_missing name)) = returned none
  missing_as_none (thrown broker_sealed) = thrown broker_sealed
  missing_as_none (thrown (vault_error e)) = thrown (vault_error e)

  unfoldable pub try_get :
      ℕ
      → Broker
      → Text
      → GetCredentialOptions
      → List AuditRow
      → Outcome BrokerError (Option Text) × List AuditRow
  unfolding get missing_as_none
  try_get now b name opts trail =
      let (result, trail') = get now b name opts trail in (missing_as_none result, trail')

unfoldable pub close : Broker → Broker
close b = if b.closed then b else record { dek = none; db = none; closed = true }
