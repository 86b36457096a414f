-- ===== src/Vault/Seal/Passwords.antt =====
-- src/vault/src/seal.ts: a vault is opened by its password, and by the new one after a change.
use flopsy.Prelude.{
  ◌+◌, ◌<◌, ◌≡◌, refl, sym, ap, ◌∙◌, false, Option, none, some, [], ◌∷◌, ◌++◌, arith, ltb,
  if◌then◌else◌, length, take, drop, length-append, Text, codes, str_eq, str_eq_refl, Outcome,
  returned, thrown,
}
use flopsy.Prelude.JsMap
use flopsy.Prelude.JsMap.{JsMap}
use native.Mathlib.Nat.{zero-add, suc-add}
use flopsy.Vault.{Bytes, Crypto, CryptoLaws, VaultError, verifier_failed, verifier_mismatch}
use flopsy.Vault.Cipher.{Sealed, seal, open_sealed, encode_sealed, decode_sealed}
use flopsy.Vault.Store.{
  VaultDb, get_meta, put_meta, is_vault_initialised, verifier_plaintext, get_secret,
}
use flopsy.Vault.Seal.{
  salt_bytes, derive_kek, init_vault, unseal_vault, unseal_with, open_wrapped, check_verifier,
  change_master_password, ◌>>=◌, ◌>>◌, dek_aad, verifier_aad, same_bytes, throw_instead, open_bytes,
  unwrap_dek,
}

take-append : (xs ys : Bytes) → take (length xs) (xs ++ ys) ≡ xs
take-append [] ys = refl
take-append (x ∷ xs) ys = ap (λ l. x ∷ l) (take-append xs ys)

drop-append : (xs ys : Bytes) → drop (length xs) (xs ++ ys) ≡ ys
drop-append [] ys = refl
drop-append (x ∷ xs) ys = drop-append xs ys

drop-append-append : (xs ys zs : Bytes) → drop (length xs + length ys) (xs ++ (ys ++ zs)) ≡ zs
drop-append-append [] ys zs = rw zero-add (drop-append ys zs)
drop-append-append (x ∷ xs) ys zs = rw suc-add (drop-append-append xs ys zs)

-- A sealed value is read back from its bytes.
decode-encode_sealed :
    (s : Sealed)
    → length s.nonce ≡ 12
    → length s.tag ≡ 16
    → decode_sealed (encode_sealed s) ≡ returned s
unfolding decode_sealed encode_sealed
decode-encode_sealed s n t =
    let rest = s.tag ++ s.ciphertext in
    let nonce : take 12 (s.nonce ++ rest) ≡ s.nonce =
      ap (λ k. take k (s.nonce ++ rest)) (sym n) ∙ take-append s.nonce rest in
    let after : drop 12 (s.nonce ++ rest) ≡ rest =
      ap (λ k. drop k (s.nonce ++ rest)) (sym n) ∙ drop-append s.nonce rest in
    let tag : take 16 rest ≡ s.tag =
      ap (λ k. take k rest) (sym t) ∙ take-append s.tag s.ciphertext in
    let whole : 28 ≡ length s.nonce + length s.tag = omega (arith, n, t) in
    let ciphertext : drop 28 (s.nonce ++ rest) ≡ s.ciphertext =
      ap (λ k. drop k (s.nonce ++ rest)) whole ∙ drop-append-append s.nonce s.tag s.ciphertext in
    let long : ltb (length (s.nonce ++ rest)) 28 ≡ false =
      ground (arith, n, t, length-append s.nonce rest, length-append s.tag s.ciphertext) in
    rw long (rw (nonce, after, tag, ciphertext))

bind-returned :
    {A B : Type 0} (m : Outcome VaultError A) (f : A → Outcome VaultError B) (b : B)
    → (m >>= f) ≡ returned b
    → (a : A) × (m ≡ returned a) × (f a ≡ returned b)
bind-returned (returned a) f b h = (a, refl, h)
bind-returned (thrown e) f b h = cc

throw_instead-returned :
    {A : Type 0} (e : VaultError) (m : Outcome VaultError A) (a : A)
    → throw_instead e m ≡ returned a
    → m ≡ returned a
throw_instead-returned e (returned a) b h = h
throw_instead-returned e (thrown d) b h = cc

module _ (c : Crypto) (laws : CryptoLaws c) where
  abbrev sealed_of : Bytes → Bytes → Bytes → Bytes → Sealed
  sealed_of nonce key text aad =
      let (ciphertext, tag) = c.gcm_encrypt key nonce aad text in
      record { nonce = nonce; tag = tag; ciphertext = ciphertext }

  seal-returned :
      (nonce key text aad : Bytes)
      → length key ≡ 32
      → seal c nonce key text aad ≡ returned (sealed_of nonce key text aad)
  unfolding seal
  seal-returned nonce key text aad h = ground (arith, h)

  open-sealed_of :
      (nonce key text aad : Bytes)
      → length key ≡ 32
      → length nonce ≡ 12
      → open_sealed c key (sealed_of nonce key text aad) aad ≡ returned text
  unfolding open_sealed
  open-sealed_of nonce key text aad h n =
      ground (arith, h, n, laws.tag_length key nonce aad text, laws.opens key nonce aad text)

  -- What was sealed and written as bytes is opened again.
  open-decode-encode :
      (nonce key text aad : Bytes)
      → length key ≡ 32
      → length nonce ≡ 12
      → (decode_sealed (encode_sealed (sealed_of nonce key text aad)) >>= λ s.
          open_sealed c key s aad)
        ≡ returned text
  open-decode-encode nonce key text aad h n =
      rw
        (decode-encode_sealed (sealed_of nonce key text aad) n (laws.tag_length key nonce aad text))
        (open-sealed_of nonce key text aad h n)

  derive_kek-returned :
      (password : Text) (salt : Bytes)
      → 0 < length password
      → length salt ≡ salt_bytes
      → derive_kek c password salt ≡ returned (c.argon2id password salt)
  unfolding derive_kek
  derive_kek-returned [] salt p s = absurd (omega (arith, p))
  derive_kek-returned (x ∷ xs) salt p s = ground (arith, s)

  -- What a vault holds when it opens: the three values, of which the verifier fits the key.
  record Opens (password : Text) (db : VaultDb) (dek : Bytes) : Type 0 where
    salt : Bytes
    wrapped : Bytes
    verifier : Bytes
    has_salt : get_meta (codes "salt") db ≡ some salt
    has_wrapped : get_meta (codes "wrapped_dek") db ≡ some wrapped
    has_verifier : get_meta (codes "verifier") db ≡ some verifier
    opened : open_wrapped c password salt wrapped verifier ≡ returned dek

  Opens-unseal :
      (password : Text) (db : VaultDb) (dek : Bytes)
      → Opens password db dek
      → unseal_vault c password db ≡ returned dek
  unfolding unseal_vault unseal_with is_vault_initialised
  Opens-unseal password db dek o = rw (o.has_salt, o.has_wrapped, o.has_verifier) o.opened

  open_sealed-key :
      (key : Bytes) (s : Sealed) (aad text : Bytes)
      → open_sealed c key s aad ≡ returned text
      → length key ≡ 32
  unfolding open_sealed
  open_sealed-key key s aad text h = ground (arith, h)

  check_verifier-checks :
      (dek verifier : Bytes) → check_verifier c dek verifier ≡ returned tt → length dek ≡ 32
  unfolding check_verifier
  check_verifier-checks dek verifier h =
      let aad = c.to_utf8 verifier_aad in
      let (verified, opened, same) =
        bind-returned (throw_instead verifier_failed (open_bytes c dek verifier aad))
          (λ v.
            if same_bytes v (c.to_utf8 verifier_plaintext)
            then returned tt
            else thrown verifier_mismatch)
          tt h in
      let (s, decoded, text) =
        bind-returned (decode_sealed verifier) (λ s. open_sealed c dek s aad) verified
          (unfold open_bytes in
            throw_instead-returned verifier_failed (open_bytes c dek verifier aad) verified
              opened) in
      open_sealed-key dek s aad verified text

  open_wrapped-checks :
      (password : Text) (salt wrapped verifier dek : Bytes)
      → open_wrapped c password salt wrapped verifier ≡ returned dek
      → check_verifier c dek verifier ≡ returned tt
  unfolding open_wrapped
  open_wrapped-checks password salt wrapped verifier dek h =
      let (dek', opened, rest) =
        bind-returned (unwrap_dek c password salt wrapped)
          (λ d. check_verifier c d verifier >> returned d) dek h in
      let (u, checked, same) =
        bind-returned (check_verifier c dek' verifier) (λ _. returned dek') dek rest in
      ground (arith, checked, same)

  unseal_with-Opens :
      (password : Text) (db : VaultDb) (dek : Bytes) (x y z : Option Bytes)
      → get_meta (codes "salt") db ≡ x
      → get_meta (codes "wrapped_dek") db ≡ y
      → get_meta (codes "verifier") db ≡ z
      → unseal_with c password x y z ≡ returned dek
      → Opens password db dek
  unfolding unseal_with
  unseal_with-Opens password db dek (some x) (some y) (some z) p q r h = record {
    salt = x;
    wrapped = y;
    verifier = z;
    has_salt = p;
    has_wrapped = q;
    has_verifier = r;
    opened = h;
  }
  unseal_with-Opens password db dek none y z p q r h = cc
  unseal_with-Opens password db dek (some x) none z p q r h = cc
  unseal_with-Opens password db dek (some x) (some y) none p q r h = cc

  unseal-Opens :
      (password : Text) (db : VaultDb) (dek : Bytes)
      → unseal_vault c password db ≡ returned dek
      → Opens password db dek
  unfolding unseal_vault unseal_with
  unseal-Opens password db dek h =
      unseal_with-Opens password db dek (get_meta (codes "salt") db)
        (get_meta (codes "wrapped_dek") db) (get_meta (codes "verifier") db) refl refl refl
        (ground (arith, h))

  open_wrapped-new :
      (password : Text) (salt nonce dek verifier : Bytes)
      → 0 < length password
      → length salt ≡ salt_bytes
      → length dek ≡ 32
      → length nonce ≡ 12
      → check_verifier c dek verifier ≡ returned tt
      → open_wrapped c password salt
          (encode_sealed (sealed_of nonce (c.argon2id password salt) dek (c.to_utf8 dek_aad)))
          verifier
        ≡ returned dek
  unfolding open_wrapped unwrap_dek open_bytes
  open_wrapped-new password salt nonce dek verifier p s h n v =
      rw (derive_kek-returned password salt p s) (
        rw
          (open-decode-encode nonce (c.argon2id password salt) dek (c.to_utf8 dek_aad)
            (laws.key_length password salt) n)
          (rw v))

  get_meta-put_meta :
      (k j : Text) (v : Bytes) (db : VaultDb)
      → get_meta j (put_meta k v db) ≡ (if str_eq k j then some v else get_meta j db)
  unfolding get_meta put_meta
  get_meta-put_meta k j v db = JsMap.get-set k j v db.meta

  -- The vault after a change.
  changed : Bytes → Bytes → Text → Bytes → VaultDb → VaultDb
  changed salt nonce password dek db =
      put_meta (codes "wrapped_dek")
        (encode_sealed (sealed_of nonce (c.argon2id password salt) dek (c.to_utf8 dek_aad)))
        (put_meta (codes "salt") salt db)

  changed-Opens :
      (salt nonce dek : Bytes) (current new : Text) (db : VaultDb)
      → 0 < length new
      → length salt ≡ salt_bytes
      → length nonce ≡ 12
      → Opens current db dek
      → Opens new (changed salt nonce new dek db) dek
  unfolding changed str_eq
  changed-Opens salt nonce dek current new db p s n o =
      let wrapped = encode_sealed (sealed_of nonce (c.argon2id new salt) dek (c.to_utf8 dek_aad)) in
      let db' = put_meta (codes "salt") salt db in
      let v = open_wrapped-checks current o.salt o.wrapped o.verifier dek o.opened in
      record {
        salt = salt;
        wrapped = wrapped;
        verifier = o.verifier;
        has_salt =
            get_meta-put_meta (codes "wrapped_dek") (codes "salt") wrapped db'
            ∙ get_meta-put_meta (codes "salt") (codes "salt") salt db;
        has_wrapped = get_meta-put_meta (codes "wrapped_dek") (codes "wrapped_dek") wrapped db';
        has_verifier =
            get_meta-put_meta (codes "wrapped_dek") (codes "verifier") wrapped db'
            ∙ get_meta-put_meta (codes "salt") (codes "verifier") salt db
            ∙ o.has_verifier;
        opened =
            open_wrapped-new new salt nonce dek o.verifier p s
              (check_verifier-checks dek o.verifier v) n v;
      }

  -- If the current password opens the vault, then changing it succeeds, the new password opens the
  -- vault to the same key, and every secret reads as before. The new password is not empty; the salt
  -- that is drawn has 16 bytes and the nonce 12.
  pub unseal_vault-change_master_password :
      (salt nonce dek : Bytes) (current new : Text) (db : VaultDb)
      → unseal_vault c current db ≡ returned dek
      → 0 < length new
      → length salt ≡ salt_bytes
      → length nonce ≡ 12
      → (db' : VaultDb) × (change_master_password c salt nonce current new db ≡ returned db')
        × (unseal_vault c new db' ≡ returned dek)
        × ((name : Text) → get_secret c dek name db' ≡ get_secret c dek name db)
  unfolding change_master_password changed
  unseal_vault-change_master_password salt nonce dek current new db h p s n =
      let o = unseal-Opens current db dek h in
      let sealing =
        seal-returned nonce (c.argon2id new salt) dek (c.to_utf8 dek_aad)
          (laws.key_length new salt) in
      (
        changed salt nonce new dek db,
        rw h (rw (derive_kek-returned new salt p s) (rw sealing)),
        Opens-unseal new (changed salt nonce new dek db) dek
            (changed-Opens salt nonce dek current new db p s n o),
        unfold get_secret put_meta in λ name. refl,
      )

  -- A vault that was not initialised is, afterwards, and its password opens it to its key. The
  -- password is not empty; the salt has 16 bytes, the nonces 12 and the key 32.
  pub unseal_vault-init_vault :
      (salt dek nonce nonce' : Bytes) (password : Text) (db : VaultDb)
      → is_vault_initialised db ≡ false
      → 0 < length password
      → length salt ≡ salt_bytes
      → length dek ≡ 32
      → length nonce ≡ 12
      → length nonce' ≡ 12
      → (db' : VaultDb) × (init_vault c salt dek nonce nonce' password db ≡ returned db')
        × (unseal_vault c password db' ≡ returned dek)
  unfolding init_vault str_eq
  unseal_vault-init_vault salt dek nonce nonce' password db fresh p s k n n' =
      let kek = c.argon2id password salt in
      let wrapped = encode_sealed (sealed_of nonce kek dek (c.to_utf8 dek_aad)) in
      let text = c.to_utf8 verifier_plaintext in
      let verifier = encode_sealed (sealed_of nonce' dek text (c.to_utf8 verifier_aad)) in
      let db1 = put_meta (codes "salt") salt db in
      let db2 = put_meta (codes "wrapped_dek") wrapped db1 in
      let db' = put_meta (codes "verifier") verifier db2 in
      let checks : check_verifier c dek verifier ≡ returned tt =
        unfold check_verifier open_bytes same_bytes in
        rw (open-decode-encode nonce' dek text (c.to_utf8 verifier_aad) k n')
          (rw (str_eq_refl text)) in
      let opens : Opens password db' dek = record {
        salt = salt;
        wrapped = wrapped;
        verifier = verifier;
        has_salt =
            get_meta-put_meta (codes "verifier") (codes "salt") verifier db2
            ∙ get_meta-put_meta (codes "wrapped_dek") (codes "salt") wrapped db1
            ∙ get_meta-put_meta (codes "salt") (codes "salt") salt db;
        has_wrapped =
            get_meta-put_meta (codes "verifier") (codes "wrapped_dek") verifier db2
            ∙ get_meta-put_meta (codes "wrapped_dek") (codes "wrapped_dek") wrapped db1;
        has_verifier = get_meta-put_meta (codes "verifier") (codes "verifier") verifier db2;
        opened = open_wrapped-new password salt nonce dek verifier p s k n checks;
      } in
      (
        db',
        rw fresh (
            rw (derive_kek-returned password salt p s) (
              rw (seal-returned nonce kek dek (c.to_utf8 dek_aad) (laws.key_length password salt))
                (rw (seal-returned nonce' dek text (c.to_utf8 verifier_aad) k)))),
        Opens-unseal password db' dek opens,
      )
