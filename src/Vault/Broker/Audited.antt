-- ===== src/Vault/Broker/Audited.antt =====
-- src/vault/src/broker.ts: what a read of a credential answers, and what it leaves in the trail.
use flopsy.Prelude.{
  ℕ, ◌≡◌, refl, inl, inr, Option, none, some, List, Bool-cases, Text, Outcome, returned, thrown,
}
use flopsy.Vault.{Bytes, Crypto, VaultError}
use flopsy.Vault.Store.{VaultDb, AuditRow, get_secret}
use flopsy.Vault.Broker.{
  Broker, GetCredentialOptions, get, get_open, from_vault, from_env, fallback,
}

module _ (c : Crypto) (env : Text → Option Text) where
  from_env-trail :
      (now : ℕ) (dek : Bytes) (name : Text) (opts : GetCredentialOptions) (v : Option Text)
      (t t' : List AuditRow)
      → (from_env c env now dek name opts v t).0 ≡ (from_env c env now dek name opts v t').0
  unfolding from_env
  from_env-trail now dek name opts none t t' = refl
  from_env-trail now dek name opts (some v) t t' = refl

  from_vault-trail :
      (now : ℕ) (dek : Bytes) (name : Text) (opts : GetCredentialOptions)
      (r : Outcome VaultError (Option Text)) (t t' : List AuditRow)
      → (from_vault c env now dek name opts r t).0 ≡ (from_vault c env now dek name opts r t').0
  unfolding from_vault
  from_vault-trail now dek name opts (thrown e) t t' = refl
  from_vault-trail now dek name opts (returned (some v)) t t' = refl
  from_vault-trail now dek name opts (returned none) t t' =
      from_env-trail now dek name opts (fallback opts (env name)) t t'

  get_open-trail :
      (now : ℕ) (dek : Option Bytes) (db : Option VaultDb) (name : Text)
      (opts : GetCredentialOptions) (t t' : List AuditRow)
      → (get_open c env now dek db name opts t).0 ≡ (get_open c env now dek db name opts t').0
  unfolding get_open
  get_open-trail now none db name opts t t' = refl
  get_open-trail now (some dek) none name opts t t' = refl
  get_open-trail now (some dek) (some db) name opts t t' =
      from_vault-trail now dek name opts (get_secret c dek name db) t t'

  -- What a broker answers does not depend on the trail.
  pub get-trail :
      (now : ℕ) (b : Broker) (name : Text) (opts : GetCredentialOptions) (t t' : List AuditRow)
      → (get c env now b name opts t).0 ≡ (get c env now b name opts t').0
  unfolding get
  get-trail now b name opts t t' = elim (Bool-cases b.closed) [
    | inl closed ↦ rw closed refl
    | inr live ↦ rw live (get_open-trail now b.dek b.db name opts t t')
  ]
