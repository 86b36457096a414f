-- ===== src/Goal/Examples.antt =====
-- Runs of the goal of a thread.
use flopsy.Prelude.{
  ℕ, ◌+◌, ◌≤◌, ◌≡◌, refl, ◌≢◌, inl, inr, true, false, none, some, List, [], ◌∷◌, arith, Bool-cases,
  Text, codes, str_eq, trim, returned,
}
use flopsy.Goal.{
  SessionGoalRow, active, GoalManager, GoalJudgeVerdict, continue, Store, get, add_subgoal, clear,
  is_active,
}
use flopsy.Goal.Turn.{MaybeContinueResult, maybe_continue, continuation_prompt}
use flopsy.Goal.Budget.{
  undisturbed, Follows, count_continues, maybe_continue-Follows, count_continues-le,
}
use flopsy.Goal.Subgoals.{adds, IsBoundedIn, Edit-IsBounded}
use flopsy.Goal.Gaps.{continue_drops_subgoals, continue_after_clear}

abbrev manager : GoalManager
manager = record { max_turns = 20; max_parse_failures = 3 }

abbrev ship : List Text → ℕ → SessionGoalRow
ship subgoals turns_used = record {
  thread_id = codes "t";
  goal = codes "ship it";
  status = active;
  turns_used = turns_used;
  max_turns = 2;
  parse_failures = 0;
  created_at = 1;
  last_turn_at = 1;
  last_verdict = none;
  last_reason = none;
  channel_name = codes "cli";
  peer_id = codes "me";
  subgoals = subgoals;
}

abbrev store : List Text → Store
store subgoals = (codes "t", ship subgoals 0) ∷ []

abbrev go_on : GoalJudgeVerdict
go_on = record { is_done = false; reason = codes "tests are missing"; verdict = continue }

abbrev again : List (GoalJudgeVerdict × ℕ)
again = (go_on, 10) ∷ (go_on, 20) ∷ (go_on, 30) ∷ []

there : (subgoals : List Text) → get (codes "t") (store subgoals) ≡ some (ship subgoals 0)
unfolding get str_eq
there subgoals = refl

maybe_continue-Follows_example :
    (r : MaybeContinueResult) × (row' : SessionGoalRow) × ((maybe_continue manager
        (codes "t")
        go_on
        undisturbed
        10
        (store [])).0
      ≡ some r)
    × (get (codes "t") (maybe_continue manager (codes "t") go_on undisturbed 10 (store [])).1
        ≡ some row')
    × Follows (ship [] 0) r row'
maybe_continue-Follows_example =
    maybe_continue-Follows manager (codes "t") (ship [] 0) go_on 10 (store []) (there [])

count_continues-le_example : count_continues manager (codes "t") again (store []) + 0 ≤ 2
count_continues-le_example =
    count_continues-le manager (codes "t") again (ship [] 0) (store []) (there []) (omega arith)

twice : count_continues manager (codes "t") again (store []) ≡ 2
unfolding count_continues maybe_continue str_eq is_active
twice = refl

abbrev added : Store
added = store (codes "docs" ∷ [])

adds_docs :
    add_subgoal (codes "t") (codes " docs ") (store [])
    ≡ returned (ship (codes "docs" ∷ []) 0, added)
unfolding add_subgoal str_eq trim
adds_docs = refl

store-IsBoundedIn : (j : Text) → IsBoundedIn (get j (store []))
unfolding get
store-IsBoundedIn j = elim (Bool-cases (str_eq (codes "t") j)) [
  | inl hit ↦ rw hit (record { few = omega arith; short = tt })
  | inr miss ↦ rw miss tt
]

Edit-IsBounded_example : IsBoundedIn (get (codes "t") added)
Edit-IsBounded_example =
    Edit-IsBounded (store []) added
      (adds (codes "t") (codes " docs ") (ship (codes "docs" ∷ []) 0) added adds_docs)
      store-IsBoundedIn (codes "t")

continue_drops_subgoals_example :
    (r : MaybeContinueResult) × ((maybe_continue manager (codes "t") go_on undisturbed 10 added).0
      ≡ some r)
    × (r.should_continue ≡ true)
    × (r.prompt ≢ some (continuation_prompt (codes "ship it") (codes "docs" ∷ [])))
unfolding trim
continue_drops_subgoals_example =
    continue_drops_subgoals manager (codes "t") (codes "docs") [] (ship (codes "docs" ∷ []) 0) go_on
      undisturbed 10 added (there (codes "docs" ∷ [])) refl (omega arith) (refl, refl) refl
      (omega arith)

continue_after_clear_example :
    let (o, store') =
      maybe_continue manager (codes "t") go_on (λ s. (clear (codes "t") s).1) 10 added in
    (r : MaybeContinueResult) × (o ≡ some r)
    × (r.should_continue ≡ true)
    × (r.new_status ≡ active)
    × (get (codes "t") store' ≡ none)
continue_after_clear_example =
    continue_after_clear manager (codes "t") (ship (codes "docs" ∷ []) 0) go_on 10 added
      (there (codes "docs" ∷ [])) refl (omega arith) (refl, refl)
