-- ===== src/Pairing/Approval.antt =====
-- src/team/src/harness/storage/pairing-store.ts: who gets approved, and how many codes are outstanding.
use flopsy.Prelude.{
  ℕ, ◌+◌, ◌<◌, ◌≡◌, refl, sym, inl, inr, Bool, true, false, not, ◌&&◌, ◌||◌, Option, none, some,
  List, [], ◌∷◌, ◌++◌, arith, Bool-cases, Text, str_eq, str_eq_iff,
}
use mathlib.Core.List.{Memᴰ}
use flopsy.Pairing.{
  pairing_pending_ttl_ms, PairingPending, PairingApproved, RequestCodeResult, PairingStore, has_key,
  is_approved_of, select, delete_where, clear_expired, clear_all_pending, insert_pending,
  insert_approved, is_valid, issue_code, request_code, approve_by_sender_id, has_code,
  approve_found, revoke, is_approved, normalized, approve_by_code, found, request_with,
}

-- Whether a table has a row.
abbrev pub any_row : {R : Type 0} → (R → Bool) → List R → Bool
any_row p [] = false
any_row p (r ∷ rs) = p r || any_row p rs

found-select : {R : Type 0} (p : R → Bool) (rs : List R) → found (select p rs) ≡ any_row p rs
unfolding found select
found-select p [] = refl
found-select p (r ∷ rs) = ground (arith, found-select p rs)

is_approved-any :
    (channel sender_id : Text) (s : PairingStore)
    → is_approved channel sender_id s ≡ any_row (is_approved_of channel sender_id) s.approved
unfolding is_approved
is_approved-any channel sender_id s = found-select (is_approved_of channel sender_id) s.approved

any_row-append :
    {R : Type 0} (p : R → Bool) (x : R) (rs : List R)
    → any_row p (rs ++ x ∷ []) ≡ (any_row p rs || p x)
any_row-append p x [] = ground arith
any_row-append p x (r ∷ rs) = ground (arith, any_row-append p x rs)

-- The rows of other keys are not deleted.
any_row-delete :
    (c k d l : Text) (rs : List PairingApproved)
    → any_row (is_approved_of d l) (delete_where (is_approved_of c k) rs)
      ≡ (any_row (is_approved_of d l) rs && not (str_eq c d && str_eq k l))
unfolding delete_where is_approved_of has_key
any_row-delete c k d l [] = refl
any_row-delete c k d l (r ∷ rs) = ground (
  arith,
  any_row-delete c k d l rs,
  str_eq_iff r.channel c,
  str_eq_iff r.channel d,
  str_eq_iff r.sender_id k,
  str_eq_iff r.sender_id l,
  str_eq_iff c d,
  str_eq_iff k l,
)

-- What happens to the store.
pub data Event : Type 0 where
  requests : ℕ → ℕ → List ℕ → Text → Text → Option Text → Event
  approves_code : ℕ → ℕ → Text → Text → Event
  approves_sender : ℕ → Text → Text → Option Text → Event
  revokes : Text → Text → Event
  clears_expired : ℕ → Option Text → Event
  clears_all : Option Text → Event

select-some :
    {R : Type 0} (p : R → Bool) (rs : List R) (r : R)
    → select p rs ≡ some r
    → Memᴰ r rs × (p r ≡ true)
unfolding select
select-some p [] r h = absurd (ground arith)
select-some p (x ∷ rs) r h = elim (Bool-cases (p x)) [
  | inl hit ↦ let same : x ≡ r = ground arith in (Memᴰ.head (sym same), rw same at hit)
  | inr miss ↦ let (there, passes) = select-some p rs r (ground arith) in (Memᴰ.tail there, passes)
]

is_approved-insert :
    (row : PairingApproved) (d l : Text) (s : PairingStore)
    → is_approved d l (insert_approved row s)
      ≡ (is_approved d l s || (str_eq row.channel d && str_eq row.sender_id l))
unfolding insert_approved
is_approved-insert row d l s =
    let left = delete_where (is_approved_of row.channel row.sender_id) s.approved in
    let key : is_approved_of d l row ≡ (str_eq row.channel d && str_eq row.sender_id l) =
      unfold is_approved_of has_key in refl in
    ground (
      arith,
      is_approved-any d l s,
      is_approved-any d l (record s { approved = left ++ row ∷ [] }),
      any_row-append (is_approved_of d l) row left,
      any_row-delete row.channel row.sender_id d l s.approved,
      key,
    )

pub is_approved-approve :
    (now : ℕ) (c k : Text) (n : Option Text) (d l : Text) (s : PairingStore)
    → is_approved d l (approve_by_sender_id now c k n s)
      ≡ (is_approved d l s || (str_eq c d && str_eq k l))
unfolding approve_by_sender_id is_approved
is_approved-approve now c k n d l s =
    unfold is_approved in
    is_approved-insert (record { channel = c; sender_id = k; sender_name = n; approved_at = now }) d
      l s

-- Deleting approvals approves nobody.
is_approved-revoke :
    (c k d l : Text) (s : PairingStore)
    → is_approved d l (revoke c k s).1 ≡ (is_approved d l s && not (str_eq c d && str_eq k l))
unfolding revoke
is_approved-revoke c k d l s = ground (
  arith,
  is_approved-any d l s,
  is_approved-any d l (record s { approved = delete_where (is_approved_of c k) s.approved }),
  any_row-delete c k d l s.approved,
)

request_with-approved :
    (o : Option Text) (issued : Option RequestCodeResult × PairingStore) (s : PairingStore)
    → issued.1.approved ≡ s.approved
    → (request_with o issued s).1.approved ≡ s.approved
unfolding request_with
request_with-approved none issued s e = e
request_with-approved (some code) issued s e = refl

issue_code-approved :
    (now swept_at : ℕ) (bytes : List ℕ) (c k : Text) (n : Option Text) (s : PairingStore)
    → (issue_code now swept_at bytes c k n s).1.approved ≡ s.approved
unfolding issue_code clear_expired insert_pending
issue_code-approved now swept_at bytes c k n s = ground arith

request_code-approved :
    (now swept_at : ℕ) (bytes : List ℕ) (c k : Text) (n : Option Text) (s : PairingStore)
    → (request_code now swept_at bytes c k n s).1.approved ≡ s.approved
unfolding request_code
request_code-approved now swept_at bytes c k n s =
    request_with-approved _ (issue_code now swept_at bytes c k n s) s
      (issue_code-approved now swept_at bytes c k n s)

same-approved :
    (d l : Text) (s s' : PairingStore)
    → s'.approved ≡ s.approved
    → is_approved d l s ≡ false
    → is_approved d l s' ≡ true
    → ⊥
same-approved d l s s' e f t =
    absurd (ground (arith, f, t, e, is_approved-any d l s, is_approved-any d l s'))

approve_found-grants :
    (now at : ℕ) (c code : Text) (o : Option PairingPending) (d l : Text) (s : PairingStore)
    → select (has_code c code) s.pending ≡ o
    → is_approved d l s ≡ false
    → is_approved d l (approve_found now at c code o s).1 ≡ true
    → (r : PairingPending) × Memᴰ r s.pending
      × (r.channel ≡ d)
      × (r.sender_id ≡ l)
      × (r.code ≡ code)
      × (c ≡ d)
      × (now < r.created_at + pairing_pending_ttl_ms)
unfolding approve_found
approve_found-grants now at c code none d l s e f t = absurd (same-approved d l s s refl f t)
approve_found-grants now at c code (some r) d l s e f t = elim (Bool-cases (is_valid now r)) [
  | inr expired ↦
      let left : PairingStore = record s { pending = delete_where (has_code c code) s.pending } in
      absurd (same-approved d l s left refl f (rw expired at t))
  | inl valid ↦
      let (there, hit) = select-some (has_code c code) s.pending r e in
      let after = is_approved-approve at c r.sender_id r.sender_name d l s in
      let keys : (str_eq c d && str_eq r.sender_id l) ≡ true =
        ground (arith, after, f, rw valid at t) in
      (
        r,
        there,
        unfold has_code in ground (arith, hit, keys, str_eq_iff c d, str_eq_iff r.channel c),
        ground (arith, keys, str_eq_iff r.sender_id l),
        unfold has_code in ground (arith, hit, str_eq_iff r.code code),
        ground (arith, keys, str_eq_iff c d),
        unfold is_valid in ground (arith, valid),
      )
]

module _ (to_upper_case : Text → Text) where
  abbrev pub step : PairingStore → Event → PairingStore
  step s (requests now swept_at bytes c k n) = (request_code now swept_at bytes c k n s).1
  step s (approves_code now at c code) = (approve_by_code to_upper_case now at c code s).1
  step s (approves_sender now c k n) = approve_by_sender_id now c k n s
  step s (revokes c k) = (revoke c k s).1
  step s (clears_expired now c) = (clear_expired now c s).1
  step s (clears_all c) = (clear_all_pending c s).1

  abbrev pub run : PairingStore → List Event → PairingStore
  run s [] = s
  run s (e ∷ es) = run (step s e) es

  -- The events that approve a sender: the operator names the sender, or gives a code that the store
  -- holds for this sender in this channel and that was issued less than an hour ago.
  abbrev pub Grants : PairingStore → Text → Text → Event → Type 0
  Grants s d l (approves_sender now c k n) = (c ≡ d) × (k ≡ l)
  Grants s d l (approves_code now at c code) =
      (r : PairingPending) × Memᴰ r s.pending
      × (r.channel ≡ d)
      × (r.sender_id ≡ l)
      × (r.code ≡ normalized to_upper_case code)
      × (c ≡ d)
      × (now < r.created_at + pairing_pending_ttl_ms)
  Grants s d l (requests now swept_at bytes c k n) = ⊥
  Grants s d l (revokes c k) = ⊥
  Grants s d l (clears_expired now c) = ⊥
  Grants s d l (clears_all c) = ⊥

  -- Whoever becomes approved by an event was approved by the operator: named, or by a code that the
  -- store held for exactly this sender in exactly this channel, and that had not expired.
  pub step-Grants :
      (s : PairingStore) (e : Event) (d l : Text)
      → is_approved d l s ≡ false
      → is_approved d l (step s e) ≡ true
      → Grants s d l e
  unfolding approve_by_code
  step-Grants s (requests now swept_at bytes c k n) d l f t =
      same-approved d l s _ (request_code-approved now swept_at bytes c k n s) f t
  step-Grants s (approves_code now at c code) d l f t =
      approve_found-grants now at c (normalized to_upper_case code) _ d l s refl f t
  step-Grants s (approves_sender now c k n) d l f t =
      let after = is_approved-approve now c k n d l s in
      (ground (arith, after, f, t, str_eq_iff c d), ground (arith, after, f, t, str_eq_iff k l))
  step-Grants s (revokes c k) d l f t = absurd (ground (arith, f, t, is_approved-revoke c k d l s))
  step-Grants s (clears_expired now scope) d l f t =
      same-approved d l s (clear_expired now scope s).1 (unfold clear_expired in refl) f t
  step-Grants s (clears_all scope) d l f t =
      same-approved d l s (clear_all_pending scope s).1 (unfold clear_all_pending in refl) f t
