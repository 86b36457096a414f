-- ===== src/Vault/Examples.antt =====
-- Runs of the vault, over a cryptography that hides nothing but satisfies the laws.
use flopsy.Prelude.{
  ℕ, zero, suc, ◌≡◌, refl, true, none, some, List, [], ◌∷◌, ◌++◌, map, arith, Text, codes, str_eq,
  Outcome, returned, thrown,
}
use flopsy.Prelude.Substrings.{some_of}
use flopsy.Vault.{empty_password, Bytes, Crypto, CryptoLaws}
use flopsy.Vault.Cipher.{seal, open_sealed, encode_sealed, decode_sealed}
use flopsy.Vault.Store.{VaultDb, get_secret, is_vault_initialised}
use flopsy.Vault.Listing.{list_tokens}
use flopsy.Vault.Seal.{derive_kek, same_bytes, init_vault, unseal_vault, change_master_password}
use flopsy.Vault.Seal.Passwords.{unseal_vault-change_master_password}
use flopsy.Vault.Tokens.{
  ScopeJson, TokenRow, MintTokenInput, was_revoked, VerifiedToken, mint_token, verify_token,
  revoke_token, decode_scope,
}
use flopsy.Vault.Tokens.Revocation.{step, minting, steps, minted, verify_token-revoke_token}

abbrev pub ks : ℕ → Bytes
ks zero = []
ks (suc n) = 7 ∷ ks n

-- Sealed text is the text itself; a tag is sixteen sevens.
abbrev pub toy : Crypto
toy = record {
  to_utf8 = λ t. t;
  of_utf8 = λ b. b;
  sha256_hex = λ t. t;
  hmac_sha256 = λ k m. [];
  argon2id = λ password salt. ks 32;
  gcm_encrypt = λ key nonce aad text. (text, ks 16);
  gcm_decrypt = λ key nonce aad ciphertext tag. some ciphertext;
}

toy-CryptoLaws : CryptoLaws toy
toy-CryptoLaws = record {
  tag_length = λ key nonce aad text. refl;
  opens = λ key nonce aad text. refl;
  key_length = λ password salt. refl;
}

abbrev pub empty_db : VaultDb
empty_db = record { meta = []; secrets = [] }

abbrev db_of : {E : Type 0} → Outcome E VaultDb → VaultDb
db_of (returned db) = db
db_of (thrown e) = empty_db

abbrev fresh_db : VaultDb
fresh_db = db_of (init_vault toy (ks 16) (ks 32) (ks 12) (ks 12) (codes "old") empty_db)

fresh_db_opens : unseal_vault toy (codes "old") fresh_db ≡ returned (ks 32)
unfolding init_vault unseal_vault derive_kek str_eq is_vault_initialised seal decode_sealed
    encode_sealed open_sealed same_bytes
fresh_db_opens = refl

empty_password_refused :
    change_master_password toy (9 ∷ ks 15) (ks 12) (codes "old") [] fresh_db ≡ thrown empty_password
unfolding init_vault unseal_vault change_master_password derive_kek str_eq is_vault_initialised seal
    decode_sealed encode_sealed open_sealed same_bytes
empty_password_refused = refl

unseal_vault-change_master_password_example :
    (db' : VaultDb) × (change_master_password toy
        (9 ∷ ks 15)
        (ks 12)
        (codes "old")
        (codes "new")
        fresh_db
      ≡ returned db')
    × (unseal_vault toy (codes "new") db' ≡ returned (ks 32))
    × ((name : Text) → get_secret toy (ks 32) name db' ≡ get_secret toy (ks 32) name fresh_db)
unseal_vault-change_master_password_example =
    unseal_vault-change_master_password toy toy-CryptoLaws (9 ∷ ks 15) (ks 12) (ks 32) (codes "old")
      (codes "new") fresh_db fresh_db_opens (omega arith) refl refl

abbrev pub plain_json : ScopeJson
plain_json = record {
  stringify = λ hosts secrets. [];
  parse = λ t. some (some (codes "*.example.com" ∷ []), some (codes "KEY" ∷ []));
}

abbrev ci : MintTokenInput
ci = record { label = codes "ci"; allow_hosts = none; allow_secrets = none; ttl_ms = some 50 }

abbrev rows_of : {E : Type 0} → Outcome E (Text × List TokenRow) → List TokenRow
rows_of (returned (raw, rows)) = rows
rows_of (thrown e) = []

abbrev pub one_row : List TokenRow
one_row = rows_of (mint_token toy plain_json 10 (ks 32) ci [])

abbrev second : Text
second = codes "fv_agt_" ++ 8 ∷ ks 31

abbrev scope_token : VerifiedToken
scope_token = record {
  label = codes "ci";
  scope = record { allow_hosts = codes "*.example.com" ∷ []; allow_secrets = codes "KEY" ∷ [] };
  expires_at = some 70;
}

second_accepted :
    verify_token toy plain_json 60 second
      (steps toy plain_json (minting 20 (8 ∷ ks 31) ci ∷ []) (revoke_token (codes "ci") one_row).1)
    ≡ returned scope_token
unfolding verify_token steps revoke_token mint_token str_eq step decode_scope
second_accepted = refl

first_refused :
    verify_token toy plain_json 60 (codes "fv_agt_" ++ ks 32) (revoke_token (codes "ci") one_row).1
    ≡ thrown was_revoked
unfolding verify_token steps revoke_token mint_token str_eq
first_refused = refl

verify_token-revoke_token_example :
    some_of
      (λ h. str_eq h second)
      (minted toy plain_json (codes "ci") (minting 20 (8 ∷ ks 31) ci ∷ []) [])
    ≡ true
unfolding str_eq
verify_token-revoke_token_example =
    verify_token-revoke_token toy plain_json (codes "ci") one_row (minting 20 (8 ∷ ks 31) ci ∷ [])
      60 second scope_token second_accepted refl

-- A limit of none at all still shows one row.
one_listed :
    map (λ t. t.label) (list_tokens (record { limit = some 0; offset = none }) one_row)
    ≡ codes "ci" ∷ []
unfolding list_tokens mint_token some_of
one_listed = refl
