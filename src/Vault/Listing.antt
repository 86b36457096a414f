-- ===== src/Vault/Listing.antt =====
-- src/vault/src/store/secrets.ts, tokens.ts and audit.ts: what the operator is shown, which is no
-- secret and no hash. Rows that are equal in the order of a listing keep the order of the table.
use flopsy.Prelude.{
  ℕ, min, max, Bool, true, ◌&&◌, Option, none, some, List, [], ◌∷◌, map, leb, if◌then◌else◌, take,
  drop, keep, Text, str_eq,
}
use flopsy.ToolLoopDedup.{sort_entries}
use flopsy.Vault.Store.{SecretRow, VaultDb, AuditRow}
use flopsy.Vault.Tokens.{TokenRow}

pub record ListOptions : Type 0 where
  pub limit : Option ℕ
  pub offset : Option ℕ

pub record ListedSecret : Type 0 where
  pub name : Text
  pub created_at : ℕ
  pub updated_at : ℕ

pub record ListedToken : Type 0 where
  pub label : Text
  pub scope : Text
  pub expires_at : Option ℕ
  pub revoked : Bool
  pub created_at : ℕ

pub record ListAuditOptions : Type 0 where
  pub since_ms : Option ℕ
  pub limit : Option ℕ
  pub actor_token : Option Text
  pub action : Option Text

abbrev given : Option ℕ → ℕ → ℕ
given none d = d
given (some n) d = n

-- `LIMIT ? OFFSET ?`, at least one row.
unfoldable pub page {ℓ} : {A : Type ℓ} → ℕ → ℕ → ListOptions → List A → List A
page default most opts rows =
    take (max 1 (min (given opts.limit default) most)) (drop (given opts.offset 0) rows)

listed_secret : Text × SecretRow → ListedSecret
listed_secret (name, row) = record {
  name = name;
  created_at = row.created_at;
  updated_at = row.updated_at;
}

unfoldable pub list_secrets : ListOptions → VaultDb → List ListedSecret
unfolding page listed_secret sort_entries
list_secrets opts db = page 500 5_000 opts (map listed_secret (sort_entries db.secrets))

listed_token : TokenRow → ListedToken
listed_token row = record {
  label = row.label;
  scope = row.scope;
  expires_at = row.expires_at;
  revoked = row.revoked;
  created_at = row.created_at;
}

insert_newest : TokenRow → List TokenRow → List TokenRow
insert_newest r [] = r ∷ []
insert_newest r (s ∷ ss) =
    let rest = insert_newest r ss in if leb s.created_at r.created_at then r ∷ s ∷ ss else s ∷ rest

-- `ORDER BY created_at DESC`.
newest_first : List TokenRow → List TokenRow
unfolding insert_newest
newest_first [] = []
newest_first (r ∷ rs) = insert_newest r (newest_first rs)

unfoldable pub list_tokens : ListOptions → List TokenRow → List ListedToken
unfolding page listed_token newest_first
list_tokens opts rows = page 500 5_000 opts (map listed_token (newest_first rows))

-- A text that is asked for, if any, and is not empty.
is_text : Option Text → Text → Bool
unfolding str_eq
is_text none t = true
is_text (some []) t = true
is_text (some (x ∷ xs)) t = str_eq t (x ∷ xs)

is_since : Option ℕ → ℕ → Bool
is_since none t = true
is_since (some since) t = leb since t

-- The trail has its last row first, as `ORDER BY id DESC` has.
unfoldable pub list_audit : ListAuditOptions → List AuditRow → List AuditRow
unfolding is_text is_since
list_audit opts rows = take (max 1 (min (given opts.limit 50) 1_000)) (
    keep
      (λ r.
        is_since opts.since_ms r.ts_ms
        && (is_text opts.actor_token r.entry.actor_token && is_text opts.action r.entry.action))
      rows)
