-- ===== src/Pairing.antt =====
-- src/team/src/harness/storage/pairing-store.ts: the codes that let a stranger into a channel. A table
-- is the list of its rows, by insertion; `Date.now()` is an argument, and so are the bytes that
-- `randomBytes` gives. `toUpperCase` is a parameter. Where a query without an order meets several
-- rows, the model takes the first that was inserted.
mod Examples
pub mod Approval
pub mod Cap
pub mod RoundTrip
use flopsy.Prelude.{
  ℕ, zero, suc, ◌+◌, ◌-◌, ◌*◌, ◌%◌, Bool, true, false, not, ◌&&◌, Option, none, some, List, [], ◌∷◌,
  ◌++◌, map, ltb, leb, if◌then◌else◌, length, keep, Text, codes, str_eq, trim,
}

abbrev pub pairing_code_alphabet : Text
pairing_code_alphabet = codes "ABCDEFGHJKLMNPQRSTUVWXYZ23456789"

abbrev pub pairing_code_length : ℕ
pairing_code_length = 8

abbrev pub pairing_pending_ttl_ms : ℕ
pairing_pending_ttl_ms = 60 * 60 * 1000

abbrev pub pairing_max_pending_per_channel : ℕ
pairing_max_pending_per_channel = 3

pub record PairingPending : Type 0 where
  pub channel : Text
  pub code : Text
  pub sender_id : Text
  pub sender_name : Option Text
  pub created_at : ℕ

pub record PairingApproved : Type 0 where
  pub channel : Text
  pub sender_id : Text
  pub sender_name : Option Text
  pub approved_at : ℕ

pub record RequestCodeResult : Type 0 where
  pub code : Text
  pub is_new : Bool

pub record PairingStore : Type 0 where
  pub pending : List PairingPending
  pub approved : List PairingApproved

abbrev pub empty : PairingStore
empty = record { pending = []; approved = [] }

-- The primary key of both tables.
unfoldable pub has_key : Text → Text → Text → Text → Bool
has_key channel sender_id c s = str_eq c channel && str_eq s sender_id

unfoldable pub is_pending_of : Text → Text → PairingPending → Bool
unfolding has_key
is_pending_of channel sender_id r = has_key channel sender_id r.channel r.sender_id

unfoldable pub is_approved_of : Text → Text → PairingApproved → Bool
unfolding has_key
is_approved_of channel sender_id r = has_key channel sender_id r.channel r.sender_id

-- `SELECT … WHERE`, one row of it.
unfoldable pub select : {R : Type 0} → (R → Bool) → List R → Option R
select p [] = none
select p (r ∷ rs) = if p r then some r else select p rs

-- `DELETE … WHERE`: the rows that are left.
unfoldable pub delete_where : {R : Type 0} → (R → Bool) → List R → List R
delete_where p rs = keep (λ r. not (p r)) rs

-- `channel ? … : …` for an optional channel, where the empty string counts as none.
abbrev pub in_scope : Option Text → Text → Bool
in_scope none c = true
in_scope (some []) c = true
in_scope (some (x ∷ xs)) c = str_eq c (x ∷ xs)

unfoldable pub is_expired : ℕ → PairingPending → Bool
is_expired now r = ltb (r.created_at + pairing_pending_ttl_ms) now

unfoldable pub clear_expired : ℕ → Option Text → PairingStore → ℕ × PairingStore
unfolding delete_where is_expired
clear_expired now channel s =
    let left = delete_where (λ r. in_scope channel r.channel && is_expired now r) s.pending in
    (length s.pending - length left, record s { pending = left })

unfoldable pub clear_all_pending : Option Text → PairingStore → ℕ × PairingStore
unfolding delete_where
clear_all_pending channel s =
    let left = delete_where (λ r. in_scope channel r.channel) s.pending in
    (length s.pending - length left, record s { pending = left })

unfoldable pub count_pending : Text → List PairingPending → ℕ
count_pending channel rs = length (keep (λ r. str_eq r.channel channel) rs)

char_at : Text → ℕ → ℕ
char_at [] i = 0
char_at (c ∷ cs) zero = c
char_at (c ∷ cs) (suc i) = char_at cs i

unfoldable pub generate_code : List ℕ → Text
unfolding char_at
generate_code bytes = map (λ b. char_at pairing_code_alphabet (b % 32)) bytes

-- `INSERT OR REPLACE`.
unfoldable pub insert_pending : PairingPending → PairingStore → PairingStore
unfolding delete_where is_pending_of
insert_pending r s = record s {
  pending = delete_where (is_pending_of r.channel r.sender_id) s.pending ++ r ∷ [];
}

unfoldable pub insert_approved : PairingApproved → PairingStore → PairingStore
unfolding delete_where is_approved_of
insert_approved r s = record s {
  approved = delete_where (is_approved_of r.channel r.sender_id) s.approved ++ r ∷ [];
}

unfoldable pub is_valid : ℕ → PairingPending → Bool
is_valid now r = ltb now (r.created_at + pairing_pending_ttl_ms)

-- The code that is still valid, for the sender's row.
unfoldable pub valid_code : ℕ → Option PairingPending → Option Text
unfolding is_valid
valid_code now none = none
valid_code now (some r) = if is_valid now r then some r.code else none

-- After the expired rows are swept, at `swept_at`.
unfoldable pub issue_code :
    ℕ
    → ℕ
    → List ℕ
    → Text
    → Text
    → Option Text
    → PairingStore
    → Option RequestCodeResult × PairingStore
unfolding clear_expired count_pending generate_code insert_pending
issue_code now swept_at bytes channel sender_id sender_name s =
    let s' = (clear_expired swept_at (some channel) s).1 in
    if leb pairing_max_pending_per_channel (count_pending channel s'.pending) then (none, s') else (
      some (record { code = generate_code bytes; is_new = true }),
      insert_pending
          (record {
            channel = channel;
            code = generate_code bytes;
            sender_id = sender_id;
            sender_name = sender_name;
            created_at = now;
          })
          s',
    )

request_with :
    Option Text
    → Option RequestCodeResult × PairingStore
    → PairingStore
    → Option RequestCodeResult × PairingStore
request_with none issued s = issued
request_with (some code) issued s = (some (record { code = code; is_new = false }), s)

unfoldable pub request_code :
    ℕ
    → ℕ
    → List ℕ
    → Text
    → Text
    → Option Text
    → PairingStore
    → Option RequestCodeResult × PairingStore
unfolding select is_pending_of valid_code issue_code request_with
request_code now swept_at bytes channel sender_id sender_name s =
    request_with (valid_code now (select (is_pending_of channel sender_id) s.pending))
      (issue_code now swept_at bytes channel sender_id sender_name s) s

unfoldable pub approve_by_sender_id : ℕ → Text → Text → Option Text → PairingStore → PairingStore
unfolding insert_approved delete_where is_pending_of
approve_by_sender_id now channel sender_id sender_name s =
    let s' =
      insert_approved
        (record {
          channel = channel;
          sender_id = sender_id;
          sender_name = sender_name;
          approved_at = now;
        })
        s in
    record s' { pending = delete_where (is_pending_of channel sender_id) s'.pending }

unfoldable pub has_code : Text → Text → PairingPending → Bool
has_code channel code r = str_eq r.channel channel && str_eq r.code code

unfoldable pub approve_found :
    ℕ
    → ℕ
    → Text
    → Text
    → Option PairingPending
    → PairingStore
    → Option (Text × Option Text) × PairingStore
unfolding approve_by_sender_id delete_where has_code is_valid
approve_found now approved_at channel code none s = (none, s)
approve_found now approved_at channel code (some r) s =
    if not (is_valid now r)
    then (none, record s { pending = delete_where (has_code channel code) s.pending })
    else (
      some (r.sender_id, r.sender_name),
      approve_by_sender_id approved_at channel r.sender_id r.sender_name s,
    )

unfoldable pub revoke : Text → Text → PairingStore → Bool × PairingStore
unfolding delete_where is_approved_of
revoke channel sender_id s =
    let left = delete_where (is_approved_of channel sender_id) s.approved in
    (ltb (length left) (length s.approved), record s { approved = left })

found : {A : Type 0} → Option A → Bool
found none = false
found (some a) = true

unfoldable pub is_approved : Text → Text → PairingStore → Bool
unfolding select is_approved_of found
is_approved channel sender_id s = found (select (is_approved_of channel sender_id) s.approved)

module _ (to_upper_case : Text → Text) where
  unfoldable pub normalized : Text → Text
  unfolding trim
  normalized code = trim (to_upper_case code)

  unfoldable pub approve_by_code :
      ℕ → ℕ → Text → Text → PairingStore → Option (Text × Option Text) × PairingStore
  unfolding normalized select has_code approve_found
  approve_by_code now approved_at channel code s =
      approve_found now approved_at channel (normalized code)
        (select (has_code channel (normalized code)) s.pending) s
