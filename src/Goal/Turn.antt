-- ===== src/Goal/Turn.antt =====
-- src/team/src/harness/goals/goal-manager.ts: `maybeContinue`, the decision after each turn.
use flopsy.Prelude.{
  ℕ, ◌+◌, Bool, true, false, not, Option, none, some, List, [], ◌∷◌, map, ltb, leb, if◌then◌else◌,
  length, keep, Text, trim,
}
use flopsy.Goal.{
  GoalManager, GoalStatus, active, paused, finished, VerdictKind, done, continue, skipped,
  GoalJudgeVerdict, SessionGoalRow, Store, get, patch_session_goal, is_active,
}

-- Which template a continuation prompt is made of, and what it is filled with.
pub data Prompt : Type 0 where
  plain : Text → Prompt
  with_criteria : Text → List Text → Prompt

clean_subgoals : List Text → List Text
unfolding trim
clean_subgoals ss = keep (λ s. ltb 0 (length s)) (map trim ss)

prompt_for : Text → List Text → Prompt
prompt_for goal [] = plain goal
prompt_for goal (s ∷ ss) = with_criteria goal (s ∷ ss)

unfoldable pub continuation_prompt : Text → List Text → Prompt
unfolding prompt_for clean_subgoals
continuation_prompt goal subgoals = prompt_for goal (clean_subgoals subgoals)

pub data StopReason : Type 0 where
  stop_done stop_budget stop_paused stop_cleared stop_parse_failures : StopReason

pub data NotificationKind : Type 0 where
  continuing told_done told_budget told_parse_failures : NotificationKind

pub data Hook : Type 0 where
  goal_paused goal_done : Hook

pub record MaybeContinueResult : Type 0 where
  pub should_continue : Bool
  pub prompt : Option Prompt
  pub verdict : Option GoalJudgeVerdict
  pub new_status : GoalStatus
  pub turns_used : ℕ
  pub max_turns : ℕ
  pub stop_reason : Option StopReason
  pub notification : Option NotificationKind
  pub hooks : List Hook

is_paused : GoalStatus → Bool
is_paused paused = true
is_paused _ = false

unfoldable pub not_running : SessionGoalRow → MaybeContinueResult
unfolding is_paused
not_running row = record {
  should_continue = false;
  prompt = none;
  verdict = none;
  new_status = row.status;
  turns_used = row.turns_used;
  max_turns = row.max_turns;
  stop_reason = some (if is_paused row.status then stop_paused else stop_cleared);
  notification = none;
  hooks = [];
}

unfoldable pub out_of_budget : Text → SessionGoalRow → Store → MaybeContinueResult × Store
unfolding patch_session_goal
out_of_budget thread row store = (
  record {
    should_continue = false;
    prompt = none;
    verdict = none;
    new_status = paused;
    turns_used = row.turns_used;
    max_turns = row.max_turns;
    stop_reason = some stop_budget;
    notification = some told_budget;
    hooks = goal_paused ∷ [];
  },
  patch_session_goal thread (λ r. record r { status = paused }) store,
)

-- The judge's reply could not be read: the third time in a row pauses the goal.
unfoldable pub after_skipped :
    GoalManager → Text → SessionGoalRow → GoalJudgeVerdict → ℕ → Store → MaybeContinueResult × Store
unfolding patch_session_goal continuation_prompt
after_skipped m thread row verdict now store =
    let fails = row.parse_failures + 1 in
    if leb m.max_parse_failures fails
    then (
      record {
        should_continue = false;
        prompt = none;
        verdict = some verdict;
        new_status = paused;
        turns_used = row.turns_used;
        max_turns = row.max_turns;
        stop_reason = some stop_parse_failures;
        notification = some told_parse_failures;
        hooks = [];
      },
      patch_session_goal thread
          (λ r. record r {
            status = paused;
            parse_failures = fails;
            last_turn_at = now;
            last_verdict = some skipped;
            last_reason = some verdict.reason;
          })
          store,
    )
    else (
      record {
        should_continue = true;
        prompt = some (continuation_prompt row.goal row.subgoals);
        verdict = some verdict;
        new_status = active;
        turns_used = row.turns_used + 1;
        max_turns = row.max_turns;
        stop_reason = none;
        notification = some continuing;
        hooks = [];
      },
      patch_session_goal thread
          (λ r. record r {
            turns_used = row.turns_used + 1;
            parse_failures = fails;
            last_turn_at = now;
            last_verdict = some skipped;
            last_reason = some verdict.reason;
          })
          store,
    )

unfoldable pub after_done :
    Text → SessionGoalRow → GoalJudgeVerdict → ℕ → Store → MaybeContinueResult × Store
unfolding patch_session_goal
after_done thread row verdict now store = (
  record {
    should_continue = false;
    prompt = none;
    verdict = some verdict;
    new_status = finished;
    turns_used = row.turns_used + 1;
    max_turns = row.max_turns;
    stop_reason = some stop_done;
    notification = some told_done;
    hooks = goal_done ∷ [];
  },
  patch_session_goal thread
      (λ r. record r {
        status = finished;
        turns_used = row.turns_used + 1;
        parse_failures = 0;
        last_turn_at = now;
        last_verdict = some done;
        last_reason = some verdict.reason;
      })
      store,
)

-- The prompt is made without the subgoals here, as in the source.
unfoldable pub after_continue :
    Text → SessionGoalRow → GoalJudgeVerdict → ℕ → Store → MaybeContinueResult × Store
unfolding patch_session_goal continuation_prompt
after_continue thread row verdict now store = (
  record {
    should_continue = true;
    prompt = some (continuation_prompt row.goal []);
    verdict = some verdict;
    new_status = active;
    turns_used = row.turns_used + 1;
    max_turns = row.max_turns;
    stop_reason = none;
    notification = some continuing;
    hooks = [];
  },
  patch_session_goal thread
      (λ r. record r {
        turns_used = row.turns_used + 1;
        parse_failures = 0;
        last_turn_at = now;
        last_verdict = some continue;
        last_reason = some verdict.reason;
      })
      store,
)

unfoldable pub is_skipped : VerdictKind → Bool
is_skipped skipped = true
is_skipped _ = false

unfoldable pub after_turn :
    GoalManager
    → Text
    → SessionGoalRow
    → GoalJudgeVerdict
    → (Store → Store)
    → ℕ
    → Store
    → MaybeContinueResult × Store
unfolding is_active not_running out_of_budget after_skipped after_done after_continue is_skipped
after_turn m thread row verdict meanwhile now store =
    if not (is_active row.status)
    then (not_running row, store)
    else if ltb row.max_turns (row.turns_used + 1)
    then out_of_budget thread row store
    else if is_skipped verdict.verdict
    then after_skipped m thread row verdict now (meanwhile store)
    else if verdict.is_done
    then after_done thread row verdict now (meanwhile store)
    else after_continue thread row verdict now (meanwhile store)

unfoldable pub found_goal :
    GoalManager
    → Text
    → GoalJudgeVerdict
    → (Store → Store)
    → ℕ
    → Option SessionGoalRow
    → Store
    → Option MaybeContinueResult × Store
unfolding after_turn
found_goal m thread verdict meanwhile now none store = (none, store)
found_goal m thread verdict meanwhile now (some row) store =
    let (r, store') = after_turn m thread row verdict meanwhile now store in (some r, store')

-- The verdict is what the judge gives if it is asked, for an active goal within its budget, and
-- `meanwhile` is what other calls do to the store while the judge is awaited.
unfoldable pub maybe_continue :
    GoalManager
    → Text
    → GoalJudgeVerdict
    → (Store → Store)
    → ℕ
    → Store
    → Option MaybeContinueResult × Store
unfolding found_goal get
maybe_continue m thread verdict meanwhile now store =
    found_goal m thread verdict meanwhile now (get thread store) store
