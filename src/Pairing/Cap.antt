-- ===== src/Pairing/Cap.antt =====
-- src/team/src/harness/storage/pairing-store.ts: how many codes are outstanding.
use flopsy.Prelude.{
  ℕ, ◌+◌, ◌≤◌, ◌≡◌, Bool, not, Option, none, some, List, [], ◌∷◌, ◌++◌, arith, if◌then◌else◌, keep,
  Text, str_eq, str_eq_iff,
}
use flopsy.Pairing.{
  pairing_max_pending_per_channel, PairingPending, RequestCodeResult, PairingStore, empty,
  is_pending_of, delete_where, in_scope, clear_expired, clear_all_pending, count_pending,
  generate_code, insert_pending, insert_approved, issue_code, request_code, approve_by_sender_id,
  has_code, approve_found, revoke, approve_by_code, request_with,
}
use flopsy.Pairing.Approval.{
  Event, requests, approves_code, approves_sender, revokes, clears_expired, clears_all, step, run,
}

count_pending-keep-le :
    (c : Text) (p : PairingPending → Bool) (rs : List PairingPending)
    → count_pending c (keep p rs) ≤ count_pending c rs
unfolding count_pending
count_pending-keep-le c p [] = omega arith
count_pending-keep-le c p (r ∷ rs) = ground (arith, count_pending-keep-le c p rs)

count_pending-append :
    (c : Text) (x : PairingPending) (rs : List PairingPending)
    → count_pending c (rs ++ x ∷ []) ≡ count_pending c rs + (if str_eq x.channel c then 1 else 0)
unfolding count_pending
count_pending-append c x [] = ground arith
count_pending-append c x (r ∷ rs) = ground (arith, count_pending-append c x rs)

count_pending-delete-le :
    (c : Text) (p : PairingPending → Bool) (rs : List PairingPending)
    → count_pending c (delete_where p rs) ≤ count_pending c rs
unfolding delete_where
count_pending-delete-le c p rs = count_pending-keep-le c (λ r. not (p r)) rs

clear_expired-le :
    (now : ℕ) (scope : Option Text) (c : Text) (s : PairingStore)
    → count_pending c (clear_expired now scope s).1.pending ≤ count_pending c s.pending
unfolding clear_expired
clear_expired-le now scope c s = count_pending-delete-le c _ s.pending

insert_pending-le :
    (row : PairingPending) (c : Text) (s : PairingStore)
    → count_pending c (insert_pending row s).pending
      ≤ count_pending c s.pending + (if str_eq row.channel c then 1 else 0)
unfolding insert_pending
insert_pending-le row c s =
    let left = delete_where (is_pending_of row.channel row.sender_id) s.pending in
    omega (
      arith,
      count_pending-append c row left,
      count_pending-delete-le c (is_pending_of row.channel row.sender_id) s.pending,
    )

abbrev WithinCap : PairingStore → Type 0
WithinCap s = (c : Text) → count_pending c s.pending ≤ pairing_max_pending_per_channel

issue_code-WithinCap :
    (now swept_at : ℕ) (bytes : List ℕ) (channel sender_id : Text) (sender_name : Option Text)
    (s : PairingStore)
    → WithinCap s
    → WithinCap (issue_code now swept_at bytes channel sender_id sender_name s).1
unfolding issue_code
issue_code-WithinCap now swept_at bytes channel sender_id sender_name s h c =
    let s' : PairingStore = (clear_expired swept_at (some channel) s).1 in
    let row : PairingPending = record {
      channel = channel;
      code = generate_code bytes;
      sender_id = sender_id;
      sender_name = sender_name;
      created_at = now;
    } in
    ground (
      arith,
      h c,
      clear_expired-le swept_at (some channel) c s,
      insert_pending-le row c s',
      str_eq_iff channel c,
    )

approve_by_sender_id-le :
    (now : ℕ) (channel sender_id : Text) (sender_name : Option Text) (c : Text) (s : PairingStore)
    → count_pending c (approve_by_sender_id now channel sender_id sender_name s).pending
      ≤ count_pending c s.pending
unfolding approve_by_sender_id insert_approved
approve_by_sender_id-le now channel sender_id sender_name c s =
    count_pending-delete-le c (is_pending_of channel sender_id) s.pending

approve_found-le :
    (now at : ℕ) (channel code : Text) (o : Option PairingPending) (c : Text) (s : PairingStore)
    → count_pending c (approve_found now at channel code o s).1.pending ≤ count_pending c s.pending
unfolding approve_found
approve_found-le now at channel code none c s = omega arith
approve_found-le now at channel code (some r) c s = ground (
  arith,
  count_pending-delete-le c (has_code channel code) s.pending,
  approve_by_sender_id-le at channel r.sender_id r.sender_name c s,
)

request_with-WithinCap :
    (o : Option Text) (issued : Option RequestCodeResult × PairingStore) (s : PairingStore)
    → WithinCap s
    → WithinCap issued.1
    → WithinCap (request_with o issued s).1
unfolding request_with
request_with-WithinCap none issued s h k = k
request_with-WithinCap (some code) issued s h k = h

module _ (to_upper_case : Text → Text) where
  step-WithinCap : (s : PairingStore) (e : Event) → WithinCap s → WithinCap (step to_upper_case s e)
  unfolding request_code approve_by_code revoke clear_all_pending
  step-WithinCap s (requests now swept_at bytes channel k n) h c =
      request_with-WithinCap _ _ s h (issue_code-WithinCap now swept_at bytes channel k n s h) c
  step-WithinCap s (approves_code now at channel code) h c =
      omega (arith, h c, approve_found-le now at channel _ _ c s)
  step-WithinCap s (approves_sender now channel k n) h c =
      omega (arith, h c, approve_by_sender_id-le now channel k n c s)
  step-WithinCap s (revokes channel k) h c = h c
  step-WithinCap s (clears_expired now scope) h c =
      omega (arith, h c, clear_expired-le now scope c s)
  step-WithinCap s (clears_all scope) h c =
      omega (arith, h c, count_pending-delete-le c (λ r. in_scope scope r.channel) s.pending)

  run-WithinCap :
      (s : PairingStore) (es : List Event) → WithinCap s → WithinCap (run to_upper_case s es)
  run-WithinCap s [] h = h
  run-WithinCap s (e ∷ es) h = run-WithinCap (step to_upper_case s e) es (step-WithinCap s e h)

  -- In every history of an empty store, and in every channel, at most three codes are outstanding.
  pub count_pending-run-le :
      (es : List Event) (c : Text)
      → count_pending c (run to_upper_case empty es).pending ≤ pairing_max_pending_per_channel
  count_pending-run-le es = run-WithinCap empty es (unfold count_pending in λ c. omega arith)
