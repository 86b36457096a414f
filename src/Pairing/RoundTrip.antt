-- ===== src/Pairing/RoundTrip.antt =====
-- src/team/src/harness/storage/pairing-store.ts: a code that was issued lets its sender in.
use flopsy.Prelude.{
  ℕ, ◌+◌, ◌<◌, ◌≡◌, refl, inl, inr, Bool, true, ◌&&◌, Option, none, some, List, [], ◌∷◌, ◌++◌,
  arith, Bool-cases, Option-cases, All, Text, str_eq, str_eq_iff, str_eq_refl,
}
use flopsy.Pairing.{
  pairing_pending_ttl_ms, PairingPending, RequestCodeResult, PairingStore, has_key, is_pending_of,
  select, delete_where, clear_expired, insert_pending, is_valid, valid_code, issue_code,
  request_code, approve_by_sender_id, has_code, approve_found, is_approved, normalized,
  approve_by_code, request_with, insert_approved,
}
use flopsy.Pairing.Approval.{is_approved-approve}

-- No row but those of a sender has a code.
abbrev pub IsOwnCode : Text → Text → Text → List PairingPending → Type 0
IsOwnCode c code k rs = All (λ r. has_code c code r ≡ true → r.sender_id ≡ k) rs

select-fresh :
    (c code k : Text) (row : PairingPending) (rs : List PairingPending)
    → has_code c code row ≡ true
    → IsOwnCode c code k (delete_where (is_pending_of c k) rs ++ row ∷ [])
    → select (has_code c code) (delete_where (is_pending_of c k) rs ++ row ∷ []) ≡ some row
unfolding select delete_where is_pending_of has_key has_code
select-fresh c code k row [] h own = ground (arith, h)
select-fresh c code k row (r ∷ rs) h own =
    let ih = select-fresh c code k row rs h in
    elim (Bool-cases (str_eq r.channel c && str_eq r.sender_id k)) [
      | inl gone ↦ ground (arith, gone, (rw gone at own), ih)
      | inr kept ↦
          let (mine, others) = rw kept at own in
          ground (
            arith,
            kept,
            mine,
            ih others,
            str_eq_iff r.sender_id k,
            str_eq_iff r.channel c,
            str_eq_iff r.code code,
          )
    ]

select-delete : {R : Type 0} (p : R → Bool) (rs : List R) → select p (delete_where p rs) ≡ none
unfolding select delete_where
select-delete p [] = refl
select-delete p (r ∷ rs) = ground (arith, select-delete p rs)

issued_row : ℕ → Text → Text → Text → Option Text → PairingPending
issued_row now code c k n = record {
  channel = c;
  code = code;
  sender_id = k;
  sender_name = n;
  created_at = now;
}

-- A new code comes with the sender's row, behind the rows of the others.
request_code-new :
    (now swept_at : ℕ) (bytes : List ℕ) (c k : Text) (n : Option Text) (s : PairingStore)
    (result : RequestCodeResult)
    → (request_code now swept_at bytes c k n s).0 ≡ some result
    → result.is_new ≡ true
    → (rs : List PairingPending) × ((request_code now swept_at bytes c k n s).1.pending
        ≡ delete_where (is_pending_of c k) rs ++ issued_row now result.code c k n ∷ [])
unfolding request_code issue_code insert_pending issued_row
request_code-new now swept_at bytes c k n s result h new =
    elim (Option-cases (valid_code now (select (is_pending_of c k) s.pending))) [
      | inr (code, e) ↦ absurd (unfold request_with in ground (arith, e, h, new))
      | inl e ↦ (
        (clear_expired swept_at (some c) s).1.pending,
        unfold request_with in ground (arith, e, h, new),
      )
    ]

approve_found-valid :
    (t at : ℕ) (c code : Text) (r : PairingPending) (s : PairingStore)
    → is_valid t r ≡ true
    → approve_found t at c code (some r) s
      ≡ (some (r.sender_id, r.sender_name), approve_by_sender_id at c r.sender_id r.sender_name s)
unfolding approve_found
approve_found-valid t at c code r s v = rw v

no_pending :
    (at : ℕ) (c k : Text) (n : Option Text) (s : PairingStore)
    → select (is_pending_of c k) (approve_by_sender_id at c k n s).pending ≡ none
unfolding approve_by_sender_id insert_approved
no_pending at c k n s = select-delete (is_pending_of c k) s.pending

-- A sender who gets a new code is let in by it: within the hour, when the code reads the same after
-- it is normalized and no other sender has it in this channel, the operator who gives the code is
-- told this sender, who then is approved in this channel and has no code outstanding.
pub approve_by_code-request_code :
    (to_upper_case : Text → Text) (now swept_at t at : ℕ) (bytes : List ℕ) (c k : Text)
    (n : Option Text) (s : PairingStore) (result : RequestCodeResult)
    → (request_code now swept_at bytes c k n s).0 ≡ some result
    → result.is_new ≡ true
    → normalized to_upper_case result.code ≡ result.code
    → IsOwnCode c result.code k (request_code now swept_at bytes c k n s).1.pending
    → t < now + pairing_pending_ttl_ms
    → let (o, s') =
        approve_by_code to_upper_case t at c result.code
          (request_code now swept_at bytes c k n s).1 in
      (o ≡ some (k, n))
      × (is_approved c k s' ≡ true)
      × (select (is_pending_of c k) s'.pending ≡ none)
unfolding approve_by_code
approve_by_code-request_code to_upper_case now swept_at t at bytes c k n s result h new same own l =
    let s1 : PairingStore = (request_code now swept_at bytes c k n s).1 in
    let row : PairingPending = issued_row now result.code c k n in
    let (rs, e) = request_code-new now swept_at bytes c k n s result h new in
    let hit : has_code c result.code row ≡ true =
      unfold has_code issued_row in rw (str_eq_refl c) (str_eq_refl result.code) in
    let found : select (has_code c result.code) s1.pending ≡ some row =
      rw e (select-fresh c result.code k row rs hit (rw e at own)) in
    let valid : is_valid t row ≡ true = unfold is_valid issued_row in ground (arith, l) in
    let granted = is_approved-approve at c k n c k s1 in
    rw (same, found)
      (rw (approve_found-valid t at c result.code row s1 valid) (
        unfold issued_row in refl,
        unfold issued_row in ground (arith, granted, str_eq_refl c, str_eq_refl k),
        unfold issued_row in no_pending at c k n s1,
      ))
