-- ===== src/Vault/Tokens/Revocation.antt =====
-- src/vault/src/store/tokens.ts: a label that was revoked opens nothing more.
use flopsy.Prelude.{
  ℕ, ◌≡◌, refl, sym, ap, ◌∙◌, inl, inr, true, false, not, none, some, List, [], ◌∷◌, ◌++◌, arith,
  if◌then◌else◌, Bool-cases, Option-cases, All, All-append, All-keep, Text, str_eq, str_eq_iff,
  str_eq_refl, Outcome, returned, thrown,
}
use flopsy.Prelude.Substrings.{some_of}
use flopsy.Vault.{Crypto}
use flopsy.Vault.Tokens.{
  ScopeJson, TokenRow, MintTokenInput, TokenError, VerifiedToken, token_prefix, mint_token,
  insert_token, find_token, verified, verify_token, revoke_rows, revoke_token, delete_token,
  encode_scope, deadline, is_label,
}

-- What may happen to the table of tokens.
pub data Operation : Type 0 where
  minting : ℕ → Text → MintTokenInput → Operation
  revoking : Text → Operation
  deleting : Text → Operation

abbrev kept : List TokenRow → Outcome TokenError (Text × List TokenRow) → List TokenRow
kept rows (thrown e) = rows
kept rows (returned (raw, rows')) = rows'

module _ (c : Crypto) (json : ScopeJson) where
  unfoldable pub step : Operation → List TokenRow → List TokenRow
  step (minting now random input) rows = kept rows (mint_token c json now random input rows)
  step (revoking label) rows = (revoke_token label rows).1
  step (deleting label) rows = (delete_token label rows).1

  unfoldable pub steps : List Operation → List TokenRow → List TokenRow
  steps [] rows = rows
  steps (o ∷ os) rows = steps os (step o rows)

  -- The hashes of the tokens that are minted with a label, on top of others.
  abbrev pub minted_by : Text → Operation → List Text → List Text
  minted_by l (minting now random input) hs =
      if str_eq input.label l then c.sha256_hex (token_prefix ++ random) ∷ hs else hs
  minted_by l (revoking label) hs = hs
  minted_by l (deleting label) hs = hs

  abbrev pub minted : Text → List Operation → List Text → List Text
  minted l [] hs = hs
  minted l (o ∷ os) hs = minted l os (minted_by l o hs)

-- A row with the label is revoked, or its hash is among those given.
Spent : Text → List Text → TokenRow → Type 0
Spent l hs r =
    str_eq r.label l ≡ true → r.revoked ≡ false → some_of (λ h. str_eq h r.token_hash) hs ≡ true

All-Spent-cons :
    (l h : Text) (hs : List Text) (rows : List TokenRow)
    → All (Spent l hs) rows
    → All (Spent l (h ∷ hs)) rows
unfolding Spent some_of
All-Spent-cons l h hs [] a = tt
All-Spent-cons l h hs (r ∷ rs) a = (
  λ e u. let s : some_of (λ h. str_eq h r.token_hash) hs ≡ true = a.0 e u in ground arith,
  All-Spent-cons l h hs rs a.1,
)

All-insert_token :
    (P : TokenRow → Type 0) (row : TokenRow) (rows : List TokenRow)
    → P row
    → All P rows
    → All P (insert_token row rows)
unfolding insert_token
All-insert_token P row rows p a =
    elim (Bool-cases (some_of (λ r. str_eq r.token_hash row.token_hash) rows)) [
      | inl there ↦ rw there a
      | inr new ↦ rw new (All-append P rows (row ∷ []) a (p, tt))
    ]

All-Spent-revoke_rows :
    (l label : Text) (hs : List Text) (rows : List TokenRow)
    → All (Spent l hs) rows
    → All (Spent l hs) (revoke_rows label rows)
unfolding Spent revoke_rows
All-Spent-revoke_rows l label hs [] a = tt
All-Spent-revoke_rows l label hs (r ∷ rs) a = (
  elim (Bool-cases (str_eq r.label label)) [
    | inl hit ↦ rw hit (λ e u. cc)
    | inr miss ↦ rw miss a.0
  ],
  All-Spent-revoke_rows l label hs rs a.1,
)

-- After a label is revoked no row with it is open.
revoke_rows-Spent : (l : Text) (rows : List TokenRow) → All (Spent l []) (revoke_rows l rows)
unfolding Spent revoke_rows
revoke_rows-Spent l [] = tt
revoke_rows-Spent l (r ∷ rs) = (
  elim (Bool-cases (str_eq r.label l)) [
    | inl hit ↦ rw hit (λ e u. cc)
    | inr miss ↦ rw miss (λ e u. cc)
  ],
  revoke_rows-Spent l rs,
)

find_token-All :
    (P : TokenRow → Type 0) (hash : Text) (rows : List TokenRow) (r : TokenRow)
    → All P rows
    → find_token hash rows ≡ some r
    → P r × (str_eq r.token_hash hash ≡ true)
unfolding find_token
find_token-All P hash [] r a h = cc
find_token-All P hash (x ∷ xs) r a h = elim (Bool-cases (str_eq x.token_hash hash)) [
  | inl hit ↦ let same : x ≡ r = ground (arith, h, hit) in rw (sym same) (a.0, hit)
  | inr miss ↦ find_token-All P hash xs r a.1 (ground (arith, h, miss))
]

module _ (c : Crypto) (json : ScopeJson) where
  step-Spent :
      (l : Text) (hs : List Text) (o : Operation) (rows : List TokenRow)
      → All (Spent l hs) rows
      → All (Spent l (minted_by c json l o hs)) (step c json o rows)
  unfolding step mint_token revoke_token delete_token
  step-Spent l hs (revoking label) rows a = All-Spent-revoke_rows l label hs rows a
  step-Spent l hs (deleting label) rows a =
      All-keep (Spent l hs) (λ r. not (str_eq r.label label)) rows a
  step-Spent l hs (minting now random input) rows a =
      let hash = c.sha256_hex (token_prefix ++ random) in
      let hs' = minted_by c json l (minting now random input) hs in
      let row : TokenRow = record {
        token_hash = hash;
        label = input.label;
        scope = encode_scope json input;
        expires_at = deadline now input.ttl_ms;
        revoked = false;
        created_at = now;
      } in
      let more : All (Spent l hs') rows = elim (Bool-cases (str_eq input.label l)) [
        | inl hit ↦ rw hit (All-Spent-cons l hash hs rows a)
        | inr miss ↦ rw miss a
      ] in
      let own : Spent l hs' row =
        unfold Spent some_of in λ e u. rw e (rw (str_eq_refl hash) refl) in
      elim (Bool-cases (is_label input.label)) [
        | inl good ↦ rw good (All-insert_token (Spent l hs') row rows own more)
        | inr bad ↦ rw bad more
      ]

  steps-Spent :
      (l : Text) (hs : List Text) (os : List Operation) (rows : List TokenRow)
      → All (Spent l hs) rows
      → All (Spent l (minted c json l os hs)) (steps c json os rows)
  unfolding steps
  steps-Spent l hs [] rows a = a
  steps-Spent l hs (o ∷ os) rows a =
      steps-Spent l (minted_by c json l o hs) os (step c json o rows) (step-Spent l hs o rows a)

  verified-open :
      (now : ℕ) (r : TokenRow) (v : VerifiedToken)
      → verified c json now (some r) ≡ returned v
      → (r.revoked ≡ false) × (r.label ≡ v.label)
  unfolding verified
  verified-open now r v h = ground (arith, h)

  -- After a label is revoked, and after any tokens are minted, revoked and deleted since, a token
  -- that is accepted at any time under this label was minted, under this label, since.
  pub verify_token-revoke_token :
      (l : Text) (rows : List TokenRow) (os : List Operation) (now : ℕ) (raw : Text)
      (v : VerifiedToken)
      → verify_token c json now raw (steps c json os (revoke_token l rows).1) ≡ returned v
      → str_eq v.label l ≡ true
      → some_of (λ h. str_eq h (c.sha256_hex raw)) (minted c json l os []) ≡ true
  unfolding verify_token revoke_token Spent
  verify_token-revoke_token l rows os now raw v h e =
      let rows' = steps c json os (revoke_rows l rows) in
      let spent = steps-Spent l [] os (revoke_rows l rows) (revoke_rows-Spent l rows) in
      let accepted : verified c json now (find_token (c.sha256_hex raw) rows') ≡ returned v =
        ground (arith, h) in
      elim (Option-cases (find_token (c.sha256_hex raw) rows')) [
        | inl missing ↦
            unfold verified in
            (let bad : verified c json now none ≡ returned v =
                ap (verified c json now) (sym missing) ∙ accepted in
              cc)
        | inr (r, found) ↦
            let (p, same) =
              find_token-All (Spent l (minted c json l os [])) (c.sha256_hex raw) rows' r spent
                found in
            let (unrevoked, label) =
              verified-open now r v (ap (verified c json now) (sym found) ∙ accepted) in
            let eq : r.token_hash ≡ c.sha256_hex raw =
              (str_eq_iff r.token_hash (c.sha256_hex raw)).0 same in
            ap (λ k. some_of (λ h. str_eq h k) (minted c json l os [])) (sym eq)
            ∙ p (ap (λ x. str_eq x l) label ∙ e) unrevoked
      ]
