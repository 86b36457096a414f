-- ===== src/Vault/Cipher.antt =====
-- src/vault/src/crypto/cipher.ts, and the byte form of a sealed value of src/vault/src/store/meta.ts.
use flopsy.Prelude.{
  ℕ, ◌+◌, not, Option, none, some, ◌++◌, ltb, ◌==◌, if◌then◌else◌, length, take, drop, Outcome,
  returned, thrown,
}
use flopsy.Vault.{Bytes, Crypto, VaultError, bad_key, bad_nonce, bad_tag, not_authentic, too_short}

abbrev pub nonce_bytes : ℕ
nonce_bytes = 12

abbrev pub tag_bytes : ℕ
tag_bytes = 16

abbrev pub key_bytes : ℕ
key_bytes = 32

pub record Sealed : Type 0 where
  pub nonce : Bytes
  pub tag : Bytes
  pub ciphertext : Bytes

module _ (c : Crypto) where
  unfoldable pub seal : Bytes → Bytes → Bytes → Bytes → Outcome VaultError Sealed
  seal nonce key plaintext aad =
      if not (length key == key_bytes)
      then thrown bad_key
      else (let (ciphertext, tag) = c.gcm_encrypt key nonce aad plaintext in
          returned (record { nonce = nonce; tag = tag; ciphertext = ciphertext }))

  authentic : Option Bytes → Outcome VaultError Bytes
  authentic none = thrown not_authentic
  authentic (some text) = returned text

  unfoldable pub open_sealed : Bytes → Sealed → Bytes → Outcome VaultError Bytes
  unfolding authentic
  open_sealed key s aad =
      if not (length key == key_bytes)
      then thrown bad_key
      else if not (length s.nonce == nonce_bytes)
      then thrown bad_nonce
      else if not (length s.tag == tag_bytes)
      then thrown bad_tag
      else authentic (c.gcm_decrypt key s.nonce aad s.ciphertext s.tag)

unfoldable pub encode_sealed : Sealed → Bytes
encode_sealed s = s.nonce ++ (s.tag ++ s.ciphertext)

unfoldable pub decode_sealed : Bytes → Outcome VaultError Sealed
decode_sealed buf =
    if ltb (length buf) (12 + 16)
    then thrown too_short
    else returned
        (record { nonce = take 12 buf; tag = take 16 (drop 12 buf); ciphertext = drop 28 buf })
