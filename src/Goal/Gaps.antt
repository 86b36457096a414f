-- ===== src/Goal/Gaps.antt =====
-- src/team/src/harness/goals/goal-manager.ts: where a turn falls short of what docs/goal.md promises.
use flopsy.Prelude.{
  ℕ, ◌<◌, ◌≡◌, refl, ap, ◌∙◌, ◌≢◌, true, false, none, some, List, ◌∷◌, arith, length, Text,
  str_eq_refl, trim,
}
use flopsy.Prelude.JsMap
use flopsy.Prelude.JsMap.{JsMap}
use flopsy.Goal.{
  GoalManager, active, continue, GoalJudgeVerdict, SessionGoalRow, Store, get, clear, is_active,
  patch_session_goal,
}
use flopsy.Goal.Turn.{
  MaybeContinueResult, maybe_continue, after_turn, after_continue, continuation_prompt, is_skipped,
}
use flopsy.Goal.Budget.{maybe_continue-found}

-- The judge says to continue: not done, and its reply was readable.
abbrev pub SaysContinue : GoalJudgeVerdict → Type 0
SaysContinue v = (v.verdict ≡ continue) × (v.is_done ≡ false)

after_turn-continue :
    (m : GoalManager) (thread : Text) (row : SessionGoalRow) (v : GoalJudgeVerdict)
    (meanwhile : Store → Store) (now : ℕ) (store : Store)
    → row.status ≡ active
    → row.turns_used < row.max_turns
    → SaysContinue v
    → after_turn m thread row v meanwhile now store
      ≡ after_continue thread row v now (meanwhile store)
unfolding after_turn is_active is_skipped
after_turn-continue m thread row v meanwhile now store a h s = ground (arith, s.0, s.1)

after_continue-should_continue :
    (thread : Text) (row : SessionGoalRow) (v : GoalJudgeVerdict) (now : ℕ) (store : Store)
    → (after_continue thread row v now store).0.should_continue ≡ true
unfolding after_continue
after_continue-should_continue thread row v now store = refl

after_continue-active :
    (thread : Text) (row : SessionGoalRow) (v : GoalJudgeVerdict) (now : ℕ) (store : Store)
    → (after_continue thread row v now store).0.new_status ≡ active
unfolding after_continue
after_continue-active thread row v now store = refl

-- A patch of a goal that is gone brings no row back.
after_continue-gone :
    (thread : Text) (row : SessionGoalRow) (v : GoalJudgeVerdict) (now : ℕ) (store : Store)
    → get thread store ≡ none
    → get thread (after_continue thread row v now store).1 ≡ none
unfolding after_continue patch_session_goal get
after_continue-gone thread row v now store e = ground arith

get-clear :
    (thread : Text) (row : SessionGoalRow) (store : Store)
    → get thread store ≡ some row
    → get thread (clear thread store).1 ≡ none
unfolding clear get
get-clear thread row store e = ground (
  arith,
  JsMap.has-of_get thread store row e,
  JsMap.get-delete thread thread store,
  str_eq_refl thread,
)

prompt_differs :
    (thread s : Text) (ss : List Text) (row : SessionGoalRow) (v : GoalJudgeVerdict) (now : ℕ)
    (store : Store)
    → 0 < length (trim s)
    → row.subgoals ≡ s ∷ ss
    → (after_continue thread row v now store).0.prompt
      ≢ some (continuation_prompt row.goal row.subgoals)
unfolding after_continue continuation_prompt
prompt_differs thread s ss row v now store l p = ground (arith, p, l)

-- docs/goal.md says that the continuation prompt surfaces all subgoals; after a judge that says to
-- continue, an active goal with a subgoal that is not blank gets another prompt than the one with its
-- subgoals.
pub continue_drops_subgoals :
    (m : GoalManager) (thread s : Text) (ss : List Text) (row : SessionGoalRow)
    (v : GoalJudgeVerdict) (meanwhile : Store → Store) (now : ℕ) (store : Store)
    → get thread store ≡ some row
    → row.status ≡ active
    → row.turns_used < row.max_turns
    → SaysContinue v
    → row.subgoals ≡ s ∷ ss
    → 0 < length (trim s)
    → (r : MaybeContinueResult) × ((maybe_continue m thread v meanwhile now store).0 ≡ some r)
      × (r.should_continue ≡ true)
      × (r.prompt ≢ some (continuation_prompt row.goal row.subgoals))
continue_drops_subgoals m thread s ss row v meanwhile now store e a h c l p =
    let r = (after_continue thread row v now (meanwhile store)).0 in
    let step = after_turn-continue m thread row v meanwhile now store a h c in
    let found = maybe_continue-found m thread row v meanwhile now store e in
    (
      r,
      ap (λ p. p.0) found ∙ ap (λ p. some p.0) step,
      after_continue-should_continue thread row v now (meanwhile store),
      prompt_differs thread s ss row v now (meanwhile store) p l,
    )

-- A user who clears the goal while the judge is awaited does not stop the loop: the agent is still
-- told to continue, in status active, though the store has no goal for the thread.
pub continue_after_clear :
    (m : GoalManager) (thread : Text) (row : SessionGoalRow) (v : GoalJudgeVerdict) (now : ℕ)
    (store : Store)
    → get thread store ≡ some row
    → row.status ≡ active
    → row.turns_used < row.max_turns
    → SaysContinue v
    → let (o, store') = maybe_continue m thread v (λ s. (clear thread s).1) now store in
      (r : MaybeContinueResult) × (o ≡ some r)
      × (r.should_continue ≡ true)
      × (r.new_status ≡ active)
      × (get thread store' ≡ none)
continue_after_clear m thread row v now store e a h c =
    let meanwhile = λ (s : Store). (clear thread s).1 in
    let r = (after_continue thread row v now (meanwhile store)).0 in
    let step = after_turn-continue m thread row v meanwhile now store a h c in
    let found = maybe_continue-found m thread row v meanwhile now store e in
    (
      r,
      ap (λ p. p.0) found ∙ ap (λ p. some p.0) step,
      after_continue-should_continue thread row v now (meanwhile store),
      after_continue-active thread row v now (meanwhile store),
      ap (λ p. get thread p.1) found
          ∙ ap (λ p. get thread p.1) step
          ∙ after_continue-gone thread row v now (meanwhile store) (get-clear thread row store e),
    )
