-- ===== src/Goal.antt =====
-- src/team/src/harness/goals/goal-manager.ts: the standing goal of a thread, its subgoals, and the
-- decision whether the agent goes on. The store is the table `session_goals`, one row to a thread
-- (src/team/src/harness/storage/learning-store.ts). The verdict of the judge, a call of a language
-- model, and `Date.now()` are arguments; logging, the notification texts and the wording of the two
-- prompt templates are left out.
mod Examples
pub mod Turn
pub mod Subgoals
pub mod Gaps
pub mod Budget
use flopsy.Prelude.{
  ℕ, zero, suc, ◌-◌, Bool, true, false, not, ◌||◌, Option, none, some, List, [], ◌∷◌, ◌++◌, ltb,
  leb, ◌==◌, if◌then◌else◌, length, take, drop, Text, trim, Outcome, returned, thrown,
}
use flopsy.Prelude.JsMap
use flopsy.Prelude.JsMap.{JsMap}

abbrev pub default_max_turns : ℕ
default_max_turns = 20

abbrev pub default_max_parse_failures : ℕ
default_max_parse_failures = 3

abbrev pub max_subgoal_chars : ℕ
max_subgoal_chars = 400

abbrev pub max_subgoals_per_goal : ℕ
max_subgoals_per_goal = 20

pub data GoalStatus : Type 0 where
  active paused finished cleared : GoalStatus

pub data VerdictKind : Type 0 where
  done continue skipped : VerdictKind

pub record GoalJudgeVerdict : Type 0 where
  pub is_done : Bool
  pub reason : Text
  pub verdict : VerdictKind

pub record SessionGoalRow : Type 0 where
  pub thread_id : Text
  pub goal : Text
  pub status : GoalStatus
  pub turns_used : ℕ
  pub max_turns : ℕ
  pub parse_failures : ℕ
  pub created_at : ℕ
  pub last_turn_at : ℕ
  pub last_verdict : Option VerdictKind
  pub last_reason : Option Text
  pub channel_name : Text
  pub peer_id : Text
  pub subgoals : List Text

-- The table, by thread.
abbrev pub Store : Type 0
Store = JsMap SessionGoalRow

pub record GoalManager : Type 0 where
  pub max_turns : ℕ
  pub max_parse_failures : ℕ

abbrev or_default : Option ℕ → ℕ → ℕ
or_default none d = d
or_default (some n) d = n

unfoldable pub new_manager : Option ℕ → Option ℕ → GoalManager
new_manager max_turns max_parse_failures = record {
  max_turns = or_default max_turns default_max_turns;
  max_parse_failures = or_default max_parse_failures default_max_parse_failures;
}

unfoldable pub get : Text → Store → Option SessionGoalRow
unfolding JsMap.get
get thread store = JsMap.get thread store

-- `UPDATE … WHERE thread_id = ?`, which changes no row of another thread.
patch_row : Text → (SessionGoalRow → SessionGoalRow) → Option SessionGoalRow → Store → Store
patch_row thread change none store = store
patch_row thread change (some row) store = JsMap.set thread (change row) store

unfoldable pub patch_session_goal : Text → (SessionGoalRow → SessionGoalRow) → Store → Store
unfolding patch_row JsMap.get JsMap.set
patch_session_goal thread change store = patch_row thread change (JsMap.get thread store) store

pub record SetGoalArgs : Type 0 where
  pub thread_id : Text
  pub channel_name : Text
  pub peer_id : Text
  pub goal : Text
  pub max_turns : Option ℕ

-- `ON CONFLICT` writes every column but `created_at`.
keep_created : Option SessionGoalRow → SessionGoalRow → SessionGoalRow
keep_created none row = row
keep_created (some old) row = record row { created_at = old.created_at }

unfoldable pub upsert_session_goal : SessionGoalRow → Store → Store
unfolding keep_created JsMap.get JsMap.set
upsert_session_goal row store =
    JsMap.set row.thread_id (keep_created (JsMap.get row.thread_id store) row) store

unfoldable pub set_goal : GoalManager → SetGoalArgs → ℕ → Store → SessionGoalRow × Store
unfolding trim upsert_session_goal
set_goal m args now store =
    let row : SessionGoalRow = record {
      thread_id = args.thread_id;
      goal = trim args.goal;
      status = active;
      turns_used = 0;
      max_turns = or_default args.max_turns m.max_turns;
      parse_failures = 0;
      created_at = now;
      last_turn_at = now;
      last_verdict = none;
      last_reason = none;
      channel_name = args.channel_name;
      peer_id = args.peer_id;
      subgoals = [];
    } in
    (row, upsert_session_goal row store)

pub data GoalError : Type 0 where
  no_active_goal : GoalError
  not_active : GoalStatus → GoalError
  empty_subgoal too_long too_many : GoalError
  out_of_range : ℕ → GoalError

unfoldable pub is_active : GoalStatus → Bool
is_active active = true
is_active _ = false

unfoldable pub with_subgoals : Text → List Text → Store → Store
unfolding patch_session_goal
with_subgoals thread subgoals =
    patch_session_goal thread (λ row. record row { subgoals = subgoals })

add_to_row :
    Text → Text → Option SessionGoalRow → Store → Outcome GoalError (SessionGoalRow × Store)
unfolding trim is_active with_subgoals
add_to_row thread text none store = thrown no_active_goal
add_to_row thread text (some row) store =
    let cleaned = trim text in
    let updated = row.subgoals ++ cleaned ∷ [] in
    if not (is_active row.status)
    then thrown (not_active row.status)
    else if length cleaned == 0
    then thrown empty_subgoal
    else if ltb max_subgoal_chars (length cleaned)
    then thrown too_long
    else if leb max_subgoals_per_goal (length row.subgoals)
    then thrown too_many
    else returned (record row { subgoals = updated }, with_subgoals thread updated store)

unfoldable pub add_subgoal : Text → Text → Store → Outcome GoalError (SessionGoalRow × Store)
unfolding add_to_row get
add_subgoal thread text store = add_to_row thread text (get thread store) store

-- `subgoals[idx]`, which the range check makes present.
unfoldable pub nth : List Text → ℕ → Text
nth [] i = []
nth (s ∷ ss) zero = s
nth (s ∷ ss) (suc i) = nth ss i

-- The index counts from 1; an index that is no whole number is out of range in the source.
remove_from_row : Text → ℕ → Option SessionGoalRow → Store → Outcome GoalError ((Text × ℕ) × Store)
unfolding nth with_subgoals
remove_from_row thread i none store = thrown no_active_goal
remove_from_row thread i (some row) store =
    let updated = take (i - 1) row.subgoals ++ drop i row.subgoals in
    if (i == 0) || ltb (length row.subgoals) i
    then thrown (out_of_range (length row.subgoals))
    else returned ((nth row.subgoals (i - 1), length updated), with_subgoals thread updated store)

unfoldable pub remove_subgoal : Text → ℕ → Store → Outcome GoalError ((Text × ℕ) × Store)
unfolding remove_from_row get
remove_subgoal thread i store = remove_from_row thread i (get thread store) store

clear_row : Text → Option SessionGoalRow → Store → Outcome GoalError (ℕ × Store)
unfolding with_subgoals
clear_row thread none store = thrown no_active_goal
clear_row thread (some row) store =
    if length row.subgoals == 0
    then returned (0, store)
    else returned (length row.subgoals, with_subgoals thread [] store)

unfoldable pub clear_subgoals : Text → Store → Outcome GoalError (ℕ × Store)
unfolding clear_row get
clear_subgoals thread store = clear_row thread (get thread store) store

pause_row : Text → Option SessionGoalRow → Store → Option SessionGoalRow × Store
unfolding patch_session_goal
pause_row thread none store = (none, store)
pause_row thread (some row) store = (
  some (record row { status = paused }),
  patch_session_goal thread (λ r. record r { status = paused }) store,
)

unfoldable pub pause : Text → Store → Option SessionGoalRow × Store
unfolding pause_row get
pause thread store = pause_row thread (get thread store) store

abbrev resumed : SessionGoalRow → SessionGoalRow
resumed row = record row { status = active; turns_used = 0; parse_failures = 0 }

resume_row : Text → Option SessionGoalRow → Store → Option SessionGoalRow × Store
unfolding patch_session_goal
resume_row thread none store = (none, store)
resume_row thread (some row) store = (some (resumed row), patch_session_goal thread resumed store)

unfoldable pub resume : Text → Store → Option SessionGoalRow × Store
unfolding resume_row get
resume thread store = resume_row thread (get thread store) store

unfoldable pub clear : Text → Store → Bool × Store
unfolding JsMap.has JsMap.delete
clear thread store =
    if JsMap.has thread store then (true, JsMap.delete thread store) else (false, store)
