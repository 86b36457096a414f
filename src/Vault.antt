-- ===== src/Vault.antt =====
-- src/vault/src: the credential vault. Its children are named for the files that they model. The
-- cryptography of node:crypto is a record of operations, with what the code relies on as a record of
-- laws: AES-256-GCM opens what it sealed, under the same key, nonce and additional data, with a tag
-- of 16 bytes, and argon2id derives a key of 32 bytes. Random bytes and `Date.now()` are arguments. A
-- Buffer is the list of its bytes; wiping one is not modelled.
pub mod Cipher
pub mod Store
pub mod Seal
pub mod Tokens
pub mod Rules
pub mod Broker
pub mod Listing
pub mod Request
pub mod Inject
pub mod Proxy
mod Examples
use flopsy.Prelude.{ℕ, ◌≡◌, Option, some, List, length, Text}

abbrev pub Bytes : Type 0
Bytes = List ℕ

pub record Crypto : Type 0 where
  pub to_utf8 : Text → Bytes
  pub of_utf8 : Bytes → Text
  pub sha256_hex : Text → Text
  pub hmac_sha256 : Bytes → Bytes → Bytes
  pub argon2id : Text → Bytes → Bytes
  -- Key, nonce, additional data and plaintext to ciphertext and tag; and back, if the tag is right.
  pub gcm_encrypt : Bytes → Bytes → Bytes → Bytes → Bytes × Bytes
  pub gcm_decrypt : Bytes → Bytes → Bytes → Bytes → Bytes → Option Bytes

pub record CryptoLaws (c : Crypto) : Type 0 where
  pub tag_length : (key nonce aad text : Bytes) → length (c.gcm_encrypt key nonce aad text).1 ≡ 16
  pub opens :
      (key nonce aad text : Bytes)
      → let (ciphertext, tag) = c.gcm_encrypt key nonce aad text in
        c.gcm_decrypt key nonce aad ciphertext tag ≡ some text
  pub key_length : (password : Text) (salt : Bytes) → length (c.argon2id password salt) ≡ 32

pub data VaultError : Type 0 where
  bad_key bad_nonce bad_tag : VaultError
  not_authentic too_short : VaultError
  already_initialised not_initialised incomplete : VaultError
  wrong_password verifier_mismatch verifier_failed : VaultError
  bad_name : VaultError
  empty_password bad_salt : VaultError
