-- ===== src/Pairing/Examples.antt =====
-- Runs of the store of pairing codes.
use flopsy.Prelude.{
  ◌-◌, ◌≤◌, ◌≡◌, refl, true, ◌&&◌, none, some, [], ◌∷◌, arith, leb, if◌then◌else◌, Text, codes,
  str_eq, trim,
}
use flopsy.Pairing.{
  normalized, select, is_pending_of, has_code, PairingPending, PairingStore, empty, count_pending,
  generate_code, request_code, is_approved, approve_by_code,
}
use flopsy.Pairing.Approval.{Event, requests, approves_code, run, Grants, step-Grants}
use flopsy.Pairing.RoundTrip.{approve_by_code-request_code}
use flopsy.Pairing.Cap.{count_pending-run-le}

-- The letters of ASCII.
abbrev upper : Text → Text
upper [] = []
upper (c ∷ cs) = (if leb 97 c && leb c 122 then c - 32 else c) ∷ upper cs

abbrev asked : Event
asked = requests 1000 1000 (0 ∷ 1 ∷ 2 ∷ 33 ∷ 31 ∷ 0 ∷ 0 ∷ 0 ∷ []) (codes "line") (codes "ann") none

abbrev row : PairingPending
row = record {
  channel = codes "line";
  code = codes "ABCB9AAA";
  sender_id = codes "ann";
  sender_name = none;
  created_at = 1000;
}

abbrev store : PairingStore
store = record { pending = row ∷ []; approved = [] }

issued : run upper empty (asked ∷ []) ≡ store
unfolding request_code generate_code
issued = refl

abbrev approving : Event
approving = approves_code 2000 2000 (codes "line") (codes " abcb9aaa ")

step-Grants_example : Grants upper store (codes "line") (codes "ann") approving
unfolding is_approved approve_by_code str_eq trim
step-Grants_example = step-Grants upper store approving (codes "line") (codes "ann") refl refl

count_pending-run-le_example :
    count_pending (codes "line") (run upper empty (asked ∷ approving ∷ [])).pending ≤ 3
count_pending-run-le_example = count_pending-run-le upper (asked ∷ approving ∷ []) (codes "line")

approve_by_code-request_code_example :
    let (o, s') =
      approve_by_code upper 2000 2000
        (codes "line")
        (codes "ABCB9AAA")
        (request_code 1000 1000
          (0 ∷ 1 ∷ 2 ∷ 33 ∷ 31 ∷ 0 ∷ 0 ∷ 0 ∷ [])
          (codes "line")
          (codes "ann")
          none
          empty).1 in
    (o ≡ some (codes "ann", none))
    × (is_approved (codes "line") (codes "ann") s' ≡ true)
    × (select (is_pending_of (codes "line") (codes "ann")) s'.pending ≡ none)
unfolding request_code generate_code normalized trim has_code
approve_by_code-request_code_example =
    approve_by_code-request_code upper 1000 1000 2000 2000 (0 ∷ 1 ∷ 2 ∷ 33 ∷ 31 ∷ 0 ∷ 0 ∷ 0 ∷ [])
      (codes "line") (codes "ann") none empty (record { code = codes "ABCB9AAA"; is_new = true })
      refl refl refl ((λ h. refl), tt) (omega arith)
