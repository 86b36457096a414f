-- ===== src/Vault/Seal.antt =====
-- src/vault/src/seal.ts and crypto/kdf.ts: the key that seals the secrets, itself sealed under the master password.
pub mod Passwords
use flopsy.Prelude.{
  ℕ, Bool, not, Option, some, [], ◌∷◌, ◌==◌, if◌then◌else◌, length, Text, codes, str_eq, Outcome,
  returned, thrown,
}
use flopsy.Vault.{
  Bytes, Crypto, VaultError, already_initialised, not_initialised, incomplete, wrong_password,
  verifier_mismatch, verifier_failed, empty_password, bad_salt,
}
use flopsy.Vault.Cipher.{seal, open_sealed, encode_sealed, decode_sealed}
use flopsy.Vault.Store.{VaultDb, get_meta, put_meta, is_vault_initialised, verifier_plaintext}

infixl 5 ◌>>=◌ ◌>>◌
abbrev pub ◌>>=◌ :
    {A B : Type 0} → Outcome VaultError A → (A → Outcome VaultError B) → Outcome VaultError B
thrown e >>= f = thrown e
returned a >>= f = f a

abbrev pub ◌>>◌ :
    {B : Type 0} → Outcome VaultError (Unit {0}) → Outcome VaultError B → Outcome VaultError B
m >> k = m >>= λ _. k

-- `catch` that throws another error, whatever was caught.
abbrev pub throw_instead : {A : Type 0} → VaultError → Outcome VaultError A → Outcome VaultError A
throw_instead e (thrown _) = thrown e
throw_instead e (returned a) = returned a

abbrev pub dek_aad : Text
dek_aad = codes "flopsy-vault-dek"

abbrev pub verifier_aad : Text
verifier_aad = codes "flopsy-vault-verifier"

-- `timingSafeEqual` behind a test of the lengths.
unfoldable pub same_bytes : Bytes → Bytes → Bool
unfolding str_eq
same_bytes xs ys = str_eq xs ys

abbrev pub salt_bytes : ℕ
salt_bytes = 16

module _ (c : Crypto) where
  -- An empty password and a salt of another length are refused.
  unfoldable pub derive_kek : Text → Bytes → Outcome VaultError Bytes
  derive_kek [] salt = thrown empty_password
  derive_kek (p ∷ ps) salt =
      if not (length salt == salt_bytes)
      then thrown bad_salt
      else returned (c.argon2id (p ∷ ps) salt)

  -- The random values are the salt, the key, and the nonces of the two seals.
  unfoldable pub init_vault :
      Bytes → Bytes → Bytes → Bytes → Text → VaultDb → Outcome VaultError VaultDb
  unfolding put_meta
  init_vault salt dek nonce nonce' password db =
      if is_vault_initialised db then thrown already_initialised else (do
        kek ← derive_kek password salt
        wrapped ← seal c nonce kek dek (c.to_utf8 dek_aad)
        verifier ← seal c nonce' dek (c.to_utf8 verifier_plaintext) (c.to_utf8 verifier_aad)
        returned (
            put_meta (codes "verifier") (encode_sealed verifier) (
              put_meta (codes "wrapped_dek") (encode_sealed wrapped)
                (put_meta (codes "salt") salt db))))

  open_bytes : Bytes → Bytes → Bytes → Outcome VaultError Bytes
  open_bytes key raw aad = do s ← decode_sealed raw; open_sealed c key s aad

  unfoldable pub check_verifier : Bytes → Bytes → Outcome VaultError (Unit {0})
  unfolding open_bytes
  check_verifier dek verifier_raw = do
    verified ← throw_instead verifier_failed (open_bytes dek verifier_raw (c.to_utf8 verifier_aad))
    (if same_bytes verified (c.to_utf8 verifier_plaintext)
        then returned tt
        else thrown verifier_mismatch)

  unwrap_dek : Text → Bytes → Bytes → Outcome VaultError Bytes
  unfolding open_bytes
  unwrap_dek password salt wrapped_raw = do
    kek ← derive_kek password salt
    throw_instead wrong_password (open_bytes kek wrapped_raw (c.to_utf8 dek_aad))

  unfoldable pub open_wrapped : Text → Bytes → Bytes → Bytes → Outcome VaultError Bytes
  unfolding check_verifier unwrap_dek
  open_wrapped password salt wrapped_raw verifier_raw = do
    dek ← unwrap_dek password salt wrapped_raw
    check_verifier dek verifier_raw
    returned dek

  unseal_with : Text → Option Bytes → Option Bytes → Option Bytes → Outcome VaultError Bytes
  unfolding open_wrapped
  unseal_with password (some salt) (some wrapped) (some verifier) =
      open_wrapped password salt wrapped verifier
  unseal_with password _ _ _ = thrown incomplete

  unfoldable pub unseal_vault : Text → VaultDb → Outcome VaultError Bytes
  unfolding unseal_with
  unseal_vault password db =
      if not (is_vault_initialised db)
      then thrown not_initialised
      else unseal_with password (get_meta (codes "salt") db) (get_meta (codes "wrapped_dek") db)
          (get_meta (codes "verifier") db)

  unfoldable pub change_master_password :
      Bytes → Bytes → Text → Text → VaultDb → Outcome VaultError VaultDb
  unfolding put_meta
  change_master_password salt nonce current_password new_password db = do
    dek ← unseal_vault current_password db
    kek ← derive_kek new_password salt
    wrapped ← seal c nonce kek dek (c.to_utf8 dek_aad)
    returned
        (put_meta (codes "wrapped_dek") (encode_sealed wrapped) (put_meta (codes "salt") salt db))
