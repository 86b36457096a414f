-- ===== src/Vault/Rules.antt =====
-- src/vault/src/store/rules.ts: which placeholder stands for which secret, and where;
-- and the deletion of a secret, of secrets.ts, which takes its rules with it.
use flopsy.Prelude.{
  ℕ, Bool, true, false, not, ◌&&◌, ◌||◌, Option, none, some, List, [], ◌∷◌, ◌++◌, ltb, leb, ◌==◌,
  if◌then◌else◌, length, drop, keep, Text, codes, str_eq, starts_with, trim, Outcome, returned,
  thrown,
}
use flopsy.Prelude.Substrings.{ends_with}
use flopsy.ToolLoopDedup.{text_leb}
use flopsy.Prelude.JsMap
use flopsy.Prelude.JsMap.{JsMap}
use flopsy.Vault.Store.{VaultDb, is_letter, every}

pub data InjectInto : Type 0 where
  header : Text → InjectInto
  any_header : InjectInto
  body : InjectInto
  query : Text → InjectInto
  any_query : InjectInto

pub record RuleRow : Type 0 where
  pub id : Text
  pub host_pattern : Text
  pub placeholder : Text
  pub secret_name : Text
  pub inject_into : Text
  pub created_at : ℕ

pub record AddRuleInput : Type 0 where
  pub host_pattern : Text
  pub placeholder : Text
  pub secret_name : Text
  pub inject_into : Text

pub data RuleError : Type 0 where
  bad_host_pattern short_placeholder bad_inject_into missing_secret : RuleError

-- The characters that `.` of a regular expression does not match.
abbrev is_newline : ℕ → Bool
is_newline x = x == 10 || (x == 13 || (x == 0x2028 || x == 0x2029))

-- What `^<prefix>(.+)$` captures, trimmed.
unfoldable pub named : Text → Text → Option Text
unfolding starts_with every trim
named prefix s =
    let rest = drop (length prefix) s in
    if starts_with s prefix && (leb 1 (length rest) && every (λ x. not (is_newline x)) rest)
    then some (trim rest)
    else none

by_name : Option Text → Option Text → Option InjectInto
by_name (some name) q = some (header name)
by_name none (some name) = some (query name)
by_name none none = none

unfoldable pub parse_inject_into : Text → Option InjectInto
unfolding str_eq named by_name
parse_inject_into s =
    if str_eq s (codes "body")
    then some body
    else if str_eq s (codes "any") || (str_eq s (codes "any-header") || str_eq s (codes "header:*"))
    then some any_header
    else if str_eq s (codes "any-query") || str_eq s (codes "query:*")
    then some any_query
    else by_name (named (codes "header:") s) (named (codes "query:") s)

is_host_char : ℕ → Bool
is_host_char x =
    is_letter x || ((leb b'0' x && leb x b'9') || (x == b'.' || (x == b'*' || x == b'-')))

unfoldable pub is_host_pattern : Text → Bool
unfolding every is_host_char
is_host_pattern p = leb 1 (length p) && (leb (length p) 253 && every is_host_char p)

is_absent : Option InjectInto → Bool
is_absent none = true
is_absent (some i) = false

-- The random id is an argument. The foreign key of the table refuses a rule for a secret that is not
-- there.
unfoldable pub add_rule :
    ℕ → Text → AddRuleInput → VaultDb → List RuleRow → Outcome RuleError (List RuleRow)
unfolding is_host_pattern parse_inject_into is_absent JsMap.has
add_rule now id input db rules =
    if not (is_host_pattern input.host_pattern)
    then thrown bad_host_pattern
    else if ltb (length input.placeholder) 4
    then thrown short_placeholder
    else if is_absent (parse_inject_into input.inject_into)
    then thrown bad_inject_into
    else if not (JsMap.has input.secret_name db.secrets)
    then thrown missing_secret
    else returned (
        rules
        ++ record {
          id = id;
          host_pattern = input.host_pattern;
          placeholder = input.placeholder;
          secret_name = input.secret_name;
          inject_into = input.inject_into;
          created_at = now;
        }
          ∷ [])

-- The rules of a secret go with it, by `ON DELETE CASCADE`.
unfoldable pub delete_secret : Text → VaultDb → List RuleRow → Bool × (VaultDb × List RuleRow)
unfolding str_eq JsMap.has JsMap.delete
delete_secret name db rules = (
  JsMap.has name db.secrets,
  (
    record db { secrets = JsMap.delete name db.secrets },
    keep (λ r. not (str_eq r.secret_name name)) rules,
  ),
)

insert_rule : RuleRow → List RuleRow → List RuleRow
unfolding text_leb
insert_rule r [] = r ∷ []
insert_rule r (s ∷ ss) =
    let rest = insert_rule r ss in
    if text_leb r.host_pattern s.host_pattern then r ∷ s ∷ ss else s ∷ rest

-- `ORDER BY host_pattern`.
unfoldable pub list_rules : List RuleRow → List RuleRow
unfolding insert_rule
list_rules [] = []
list_rules (r ∷ rs) = insert_rule r (list_rules rs)

unfoldable pub remove_rule : Text → List RuleRow → Bool × List RuleRow
unfolding str_eq
remove_rule id rules =
    let left = keep (λ r. not (str_eq r.id id)) rules in (ltb (length left) (length rules), left)

unfoldable pub host_matches : Text → Text → Bool
unfolding str_eq starts_with ends_with
host_matches host pattern =
    if str_eq pattern (codes "*")
    then true
    else if str_eq pattern host
    then true
    else if starts_with pattern (codes "*.")
    then ends_with host (drop 1 pattern)
    else false

unfoldable pub match_rule : Text → List RuleRow → List RuleRow
unfolding list_rules host_matches
match_rule host rules = keep (λ r. host_matches host r.host_pattern) (list_rules rules)
