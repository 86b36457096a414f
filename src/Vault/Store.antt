-- ===== src/Vault/Store.antt =====
-- src/vault/src/store/meta.ts, secrets.ts and audit.ts: the tables of the vault.
use flopsy.Prelude.{
  ℕ, zero, suc, ◌+◌, ◌-◌, ◌/◌, ◌%◌, Bool, true, false, not, ◌&&◌, ◌||◌, Option, none, some, List,
  [], ◌∷◌, ◌++◌, leb, ◌==◌, if◌then◌else◌, length, keep, Text, codes, decimal, Outcome, returned,
  thrown,
}
use flopsy.Prelude.JsMap
use flopsy.Prelude.JsMap.{JsMap}
use flopsy.Vault.{Bytes, Crypto, VaultError, bad_name}
use flopsy.Vault.Cipher.{Sealed, seal, open_sealed}

pub record SecretRow : Type 0 where
  pub sealed : Sealed
  pub created_at : ℕ
  pub updated_at : ℕ

pub record AuditEntry : Type 0 where
  pub actor_token : Text
  pub action : Text
  pub resource : Option Text
  pub outcome : Text
  pub metadata : Option Text

pub record AuditRow : Type 0 where
  pub ts_ms : ℕ
  pub entry : AuditEntry
  pub chain_hmac : Bytes

-- The tables `vault_meta` and `vault_secrets`.
pub record VaultDb : Type 0 where
  pub meta : JsMap Bytes
  pub secrets : JsMap SecretRow

unfoldable pub get_meta : Text → VaultDb → Option Bytes
unfolding JsMap.get
get_meta key db = JsMap.get key db.meta

unfoldable pub put_meta : Text → Bytes → VaultDb → VaultDb
unfolding JsMap.set
put_meta key value db = record db { meta = JsMap.set key value db.meta }

abbrev pub is_some {ℓ} : {A : Type ℓ} → Option A → Bool
is_some none = false
is_some (some a) = true

unfoldable pub is_vault_initialised : VaultDb → Bool
unfolding get_meta
is_vault_initialised db =
    is_some (get_meta (codes "salt") db) && is_some (get_meta (codes "wrapped_dek") db)

abbrev pub verifier_plaintext : Text
verifier_plaintext = codes "flopsy-vault-v1"

-- `[A-Za-z_]` and `[A-Za-z0-9_.-]`.
abbrev pub is_letter : ℕ → Bool
is_letter x = (leb b'A' x && leb x b'Z') || (leb b'a' x && leb x b'z')

abbrev pub is_name_char : ℕ → Bool
is_name_char x = is_letter x || ((leb b'0' x && leb x b'9') || (x == 95 || (x == 46 || x == 45)))

unfoldable pub every : (ℕ → Bool) → Text → Bool
every p [] = true
every p (x ∷ xs) = p x && every p xs

unfoldable pub is_secret_name : Text → Bool
unfolding every
is_secret_name [] = false
is_secret_name (x ∷ xs) = (is_letter x || x == 95) && (every is_name_char xs && leb (length xs) 127)

-- `Buffer.alloc(n)`.
abbrev zeros : ℕ → Bytes
zeros zero = []
zeros (suc n) = 0 ∷ zeros n

created : ℕ → Option SecretRow → ℕ
created now none = now
created now (some row) = row.created_at

module _ (c : Crypto) where
  store_secret : ℕ → Text → Outcome VaultError Sealed → VaultDb → Outcome VaultError VaultDb
  unfolding JsMap.get JsMap.set created
  store_secret now name (thrown e) db = thrown e
  store_secret now name (returned s) db = returned (record db {
    secrets =
        JsMap.set name
          (record {
            sealed = s;
            created_at = created now (JsMap.get name db.secrets);
            updated_at = now;
          })
          db.secrets;
  })

  unfoldable pub put_secret : ℕ → Bytes → Bytes → Text → Text → VaultDb → Outcome VaultError VaultDb
  unfolding is_secret_name store_secret
  put_secret now nonce dek name plaintext db =
      if not (is_secret_name name)
      then thrown bad_name
      else store_secret now name (seal c nonce dek (c.to_utf8 plaintext) (c.to_utf8 name)) db

  decoded : Outcome VaultError Bytes → Outcome VaultError (Option Text)
  decoded (thrown e) = thrown e
  decoded (returned pt) = returned (some (c.of_utf8 pt))

  open_row : Bytes → Text → Option SecretRow → Outcome VaultError (Option Text)
  unfolding decoded
  open_row dek name none = returned none
  open_row dek name (some row) = decoded (open_sealed c dek row.sealed (c.to_utf8 name))

  unfoldable pub get_secret : Bytes → Text → VaultDb → Outcome VaultError (Option Text)
  unfolding open_row JsMap.get
  get_secret dek name db = open_row dek name (JsMap.get name db.secrets)

  -- The rows of `vault_audit`, the last one first. A field goes into the chain with its length, in
  -- four bytes, before it.
  unfoldable pub last_chain_hmac : List AuditRow → Bytes
  last_chain_hmac [] = zeros 32
  last_chain_hmac (r ∷ rs) = r.chain_hmac

  unfoldable pub encode_field : Text → Bytes
  encode_field value =
      let buf = c.to_utf8 value in
      let n = length buf in
      (n % 256 ∷ (n / 256 % 256) ∷ (n / 65_536 % 256) ∷ (n / 16_777_216 % 256) ∷ []) ++ buf

  abbrev text_of : Option Text → Text
  text_of none = []
  text_of (some t) = t

  unfoldable pub append_audit : ℕ → Bytes → AuditEntry → List AuditRow → List AuditRow
  unfolding last_chain_hmac encode_field
  append_audit now dek e rows =
      let key = c.hmac_sha256 dek (c.to_utf8 (codes "flopsy-vault-audit-chain")) in
      record {
        ts_ms = now;
        entry = e;
        chain_hmac = c.hmac_sha256 key (
            last_chain_hmac rows
            ++ (encode_field (decimal now)
                ++ (encode_field e.actor_token
                    ++ (encode_field e.action
                        ++ (encode_field (text_of e.resource)
                            ++ (encode_field e.outcome ++ encode_field (text_of e.metadata)))))));
      }
      ∷ rows

  unfoldable pub prune_audit : ℕ → ℕ → List AuditRow → ℕ × List AuditRow
  prune_audit now retention_ms rows =
      let left = keep (λ r. leb now (r.ts_ms + retention_ms)) rows in
      (length rows - length left, left)
