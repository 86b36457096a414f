-- ===== src/Goal/Budget.antt =====
-- src/team/src/harness/goals/goal-manager.ts: the turn budget of a goal.
use flopsy.Prelude.{
  ℕ, ◌+◌, ◌≤◌, ◌≡◌, ap, ◌∙◌, ◌≢◌, inl, inr, true, false, Option, none, some, List, [], ◌∷◌, arith,
  ltb, leb, if◌then◌else◌, Bool-cases, Option-cases, Text, str_eq, str_eq_refl,
}
use flopsy.Prelude.JsMap
use flopsy.Prelude.JsMap.{JsMap}
use flopsy.Goal.{
  GoalManager, GoalStatus, active, paused, GoalJudgeVerdict, SessionGoalRow, Store, get,
  patch_session_goal, is_active,
}
use flopsy.Goal.Turn.{
  MaybeContinueResult, maybe_continue, out_of_budget, after_skipped, after_done, after_continue,
  after_turn, not_running, is_skipped, found_goal,
}

-- Nobody else touches the store while the judge is awaited.
abbrev pub undisturbed : Store → Store
undisturbed store = store

pub get-patch_session_goal :
    (thread j : Text) (change : SessionGoalRow → SessionGoalRow) (row : SessionGoalRow)
    (store : Store)
    → get thread store ≡ some row
    → get j (patch_session_goal thread change store)
      ≡ (if str_eq thread j then some (change row) else get j store)
unfolding patch_session_goal get
get-patch_session_goal thread j change row store e =
    ground (arith, JsMap.get-set thread j (change row) store)

-- What a turn may leave in the row of its goal.
pub record Follows (row : SessionGoalRow) (r : MaybeContinueResult) (row' : SessionGoalRow)
    : Type 0 where
  pub same_status : row'.status ≡ r.new_status
  pub same_turns : row'.turns_used ≡ r.turns_used
  pub same_max : row'.max_turns ≡ row.max_turns
  pub same_goal : row'.goal ≡ row.goal
  pub same_subgoals : row'.subgoals ≡ row.subgoals
  pub told_max : r.max_turns ≡ row.max_turns
  pub counted : row.turns_used ≤ r.turns_used
  pub within : row.turns_used ≤ row.max_turns → r.turns_used ≤ row.max_turns
  pub goes_on :
      r.should_continue ≡ true
      → (r.new_status ≡ active)
        × (r.turns_used ≡ row.turns_used + 1)
        × (r.turns_used ≤ row.max_turns)
  pub stops : r.should_continue ≡ false → r.new_status ≢ active
  pub untouched : row.status ≢ active → row' ≡ row

-- The same of a row that the store may lack.
abbrev pub FollowsIn : SessionGoalRow → MaybeContinueResult → Option SessionGoalRow → Type 0
FollowsIn row r none = ⊥
FollowsIn row r (some row') = Follows row r row'

get-patch_self :
    (thread : Text) (change : SessionGoalRow → SessionGoalRow) (row : SessionGoalRow)
    (store : Store)
    → get thread store ≡ some row
    → get thread (patch_session_goal thread change store) ≡ some (change row)
get-patch_self thread change row store e =
    get-patch_session_goal thread thread change row store e ∙ rw (str_eq_refl thread)

out_of_budget-Follows :
    (thread : Text) (row : SessionGoalRow) (store : Store)
    → get thread store ≡ some row
    → row.status ≡ active
    → let (r, store') = out_of_budget thread row store in FollowsIn row r (get thread store')
unfolding out_of_budget
out_of_budget-Follows thread row store e a =
    rw (get-patch_self thread (λ r. record r { status = paused }) row store e) (ground arith)

after_skipped-Follows :
    (m : GoalManager) (thread : Text) (row : SessionGoalRow) (v : GoalJudgeVerdict) (now : ℕ)
    (store : Store)
    → get thread store ≡ some row
    → row.status ≡ active
    → row.turns_used + 1 ≤ row.max_turns
    → let (r, store') = after_skipped m thread row v now store in
      FollowsIn row r (get thread store')
unfolding after_skipped
after_skipped-Follows m thread row v now store e a h =
    elim (Bool-cases (leb m.max_parse_failures (row.parse_failures + 1))) [
      | inl over ↦ rw over (rw (get-patch_self thread _ row store e) (ground arith))
      | inr below ↦ rw below (rw (get-patch_self thread _ row store e) (ground arith))
    ]

after_done-Follows :
    (thread : Text) (row : SessionGoalRow) (v : GoalJudgeVerdict) (now : ℕ) (store : Store)
    → get thread store ≡ some row
    → row.status ≡ active
    → row.turns_used + 1 ≤ row.max_turns
    → let (r, store') = after_done thread row v now store in FollowsIn row r (get thread store')
unfolding after_done
after_done-Follows thread row v now store e a h =
    rw (get-patch_self thread _ row store e) (ground arith)

after_continue-Follows :
    (thread : Text) (row : SessionGoalRow) (v : GoalJudgeVerdict) (now : ℕ) (store : Store)
    → get thread store ≡ some row
    → row.status ≡ active
    → row.turns_used + 1 ≤ row.max_turns
    → let (r, store') = after_continue thread row v now store in FollowsIn row r (get thread store')
unfolding after_continue
after_continue-Follows thread row v now store e a h =
    rw (get-patch_self thread _ row store e) (ground arith)

is_active-eq : (s : GoalStatus) → is_active s ≡ true → s ≡ active
unfolding is_active
is_active-eq s h = ground arith

not_active-ne : (s : GoalStatus) → is_active s ≡ false → s ≢ active
unfolding is_active
not_active-ne s h = ground arith

after_turn-Follows :
    (m : GoalManager) (thread : Text) (row : SessionGoalRow) (v : GoalJudgeVerdict) (now : ℕ)
    (store : Store)
    → get thread store ≡ some row
    → let (r, store') = after_turn m thread row v undisturbed now store in
      FollowsIn row r (get thread store')
unfolding after_turn
after_turn-Follows m thread row v now store e = elim (Bool-cases (is_active row.status)) [
  | inr off ↦
      let other = not_active-ne row.status off in
      rw off (rw e (unfold not_running in ground (arith, other)))
  | inl on ↦
      let a = is_active-eq row.status on in
      rw on (elim (Bool-cases (ltb row.max_turns (row.turns_used + 1))) [
        | inl over ↦ rw over (out_of_budget-Follows thread row store e a)
        | inr below ↦
            let h : row.turns_used + 1 ≤ row.max_turns = ground arith in
            rw below (elim (Bool-cases (is_skipped v.verdict)) [
              | inl skip ↦ rw skip (after_skipped-Follows m thread row v now store e a h)
              | inr said ↦ rw said (elim (Bool-cases v.is_done) [
                | inl yes_done ↦ simp yes_done (after_done-Follows thread row v now store e a h)
                | inr not_done ↦ simp not_done (after_continue-Follows thread row v now store e a h)
              ])
            ])
      ])
]

found_goal-some :
    (m : GoalManager) (thread : Text) (row : SessionGoalRow) (v : GoalJudgeVerdict)
    (meanwhile : Store → Store) (now : ℕ) (store : Store) (o : Option SessionGoalRow)
    → o ≡ some row
    → found_goal m thread v meanwhile now o store ≡ (
      some (after_turn m thread row v meanwhile now store).0,
      (after_turn m thread row v meanwhile now store).1,
    )
unfolding found_goal
found_goal-some m thread row v meanwhile now store o e = rw e

pub maybe_continue-found :
    (m : GoalManager) (thread : Text) (row : SessionGoalRow) (v : GoalJudgeVerdict)
    (meanwhile : Store → Store) (now : ℕ) (store : Store)
    → get thread store ≡ some row
    → maybe_continue m thread v meanwhile now store ≡ (
      some (after_turn m thread row v meanwhile now store).0,
      (after_turn m thread row v meanwhile now store).1,
    )
unfolding maybe_continue
maybe_continue-found m thread row v meanwhile now store e =
    found_goal-some m thread row v meanwhile now store (get thread store) e

-- After each turn the stored row of the goal agrees with the result that the caller gets: its status
-- and its turn counter are those of the result, its goal, its subgoals and its turn limit are as
-- before. The agent is told to continue only in status active, with the counter one higher and within
-- the limit; told to stop, it finds the goal not active; and a goal that was not active is untouched.
-- No other call changes the store during the turn.
pub maybe_continue-Follows :
    (m : GoalManager) (thread : Text) (row : SessionGoalRow) (v : GoalJudgeVerdict) (now : ℕ)
    (store : Store)
    → get thread store ≡ some row
    → (r : MaybeContinueResult) × (row' : SessionGoalRow) × ((maybe_continue m thread v undisturbed
          now store).0
        ≡ some r)
      × (get thread (maybe_continue m thread v undisturbed now store).1 ≡ some row')
      × Follows row r row'
maybe_continue-Follows m thread row v now store e =
    let found = maybe_continue-found m thread row v undisturbed now store e in
    let r = (after_turn m thread row v undisturbed now store).0 in
    let store' = (after_turn m thread row v undisturbed now store).1 in
    let f = after_turn-Follows m thread row v now store e in
    elim (Option-cases (get thread store')) [
      | inl gone ↦ absurd (rw gone at f)
      | inr (row', e') ↦
          (r, row', ap (λ p. p.0) found, ap (λ p. get thread p.1) found ∙ e', rw e' at f)
    ]

abbrev pub continues : Option MaybeContinueResult → ℕ
continues none = 0
continues (some r) = if r.should_continue then 1 else 0

-- How often the agent is told to continue, when the judge gives these verdicts one after the other.
unfoldable pub count_continues : GoalManager → Text → List (GoalJudgeVerdict × ℕ) → Store → ℕ
count_continues m thread [] store = 0
count_continues m thread ((v, now) ∷ vs) store =
    let (o, store') = maybe_continue m thread v undisturbed now store in
    continues o + count_continues m thread vs store'

-- Whatever the judge says and however often it is asked, the agent is told to continue at most as
-- often as the budget of the goal has turns left: the loop ends.
pub count_continues-le :
    (m : GoalManager) (thread : Text) (vs : List (GoalJudgeVerdict × ℕ)) (row : SessionGoalRow)
    (store : Store)
    → get thread store ≡ some row
    → row.turns_used ≤ row.max_turns
    → count_continues m thread vs store + row.turns_used ≤ row.max_turns
unfolding count_continues
count_continues-le m thread [] row store e h = omega (arith, h)
count_continues-le m thread ((v, now) ∷ vs) row store e h =
    let (r, row', er, e', f) = maybe_continue-Follows m thread row v now store e in
    let ih =
      count_continues-le m thread vs row' (maybe_continue m thread v undisturbed now store).1 e'
        (ground (arith, f, h)) in
    rw er (ground (arith, f, ih))
