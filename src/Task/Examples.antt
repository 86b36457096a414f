-- ===== src/Task/Examples.antt =====
-- Runs of the task lifecycle and of a registry.
use flopsy.Prelude.{ℕ, ◌≡◌, refl, true, false, Option, none, some, [], ◌∷◌, Text, codes}
use flopsy.Task.{
  TaskStatus, pending, running, completed, TaskState, teammate_task, TeammateArgs,
  create_teammate_task, Signals, base_of, generate_task_id, teammate, is_terminal_status,
}
use flopsy.Task.Transitions.{TransitionResult, ok, refused, to_running, to_terminal, to_completed}
use flopsy.Task.Lifecycle.{
  Step, Reach, run, end, here, next, Edge, IsTimed, Keeps, Step-Edge, Called, ask_run, ask_end,
  Calls, none_yet, then, task_of, is_refused, status_of, Calls-terminal, teammate_life,
}

abbrev signals : Signals
signals = record { next = 0; aborted = [] }

abbrev args : TeammateArgs
args = record {
  worker_name = codes "legolas";
  description = codes "scout";
  depth = 0;
  leader_task_id = none;
  tool_use_id = none;
  id = some (codes "t1");
  spawn_chain = none;
}

-- The task at a status, with its end and its last result.
abbrev legolas : TaskStatus → Option ℕ → Option Text → TaskState
legolas status ended result = teammate_task (record {
  base = record {
    id = codes "t1";
    description = codes "scout";
    created_at = 100;
    tool_use_id = none;
    status = status;
    ended_at = ended;
    error = none;
    abort_pair = some (record { whole = 0; current_turn = 1 });
    notified = false;
  };
  worker_name = codes "legolas";
  leader_task_id = none;
  depth = 0;
  spawn_chain = [];
  pending_messages = [];
  last_result = result;
  tool_use_count = 0;
  token_count = 0;
})

abbrev done_life : TaskState
done_life = legolas completed (some 900) (some (codes "found"))

created : teammate_task (create_teammate_task args 100 [] signals).0 ≡ legolas pending none none
unfolding create_teammate_task
created = refl

random_id : generate_task_id teammate (3 ∷ 10 ∷ 46 ∷ 255 ∷ []) ≡ codes "t3aa3"
unfolding generate_task_id
random_id = refl

first_run : Step (legolas pending none none) (legolas running none none)
unfolding to_running
first_run = run (legolas pending none none) (legolas running none none) refl

life : Reach (legolas pending none none) done_life
unfolding to_running to_terminal
life =
    next (next here first_run)
      (end (legolas running none none) done_life to_completed (some (codes "found")) none 900 refl)

Step-Edge_example : Edge pending running
unfolding base_of
Step-Edge_example = Step-Edge first_run

-- A second `toRunning` is refused, and the task ends after it.
calls : Calls (legolas pending none none) done_life
unfolding to_running to_terminal
calls =
    then
      (then
        (then none_yet (ok (legolas running none none))
          (ask_run (legolas pending none none) (ok (legolas running none none)) refl))
        (refused (codes "cannot run from status=\"running\"") (legolas running none none))
        (ask_run (legolas running none none)
          (refused (codes "cannot run from status=\"running\"") (legolas running none none)) refl))
      (ok done_life)
      (ask_end (legolas running none none) to_completed (some (codes "found")) none 900
        (ok done_life) refl)

abbrev late : TransitionResult TaskState
late = refused (codes "cannot run from status=\"completed\"") done_life

late_call : Called done_life late
unfolding to_running
late_call = ask_run done_life late refl

Calls-terminal_example :
    (is_refused late ≡ true → task_of late ≡ done_life)
    × (is_terminal_status (status_of done_life) ≡ true → is_refused late ≡ true)
    × (is_terminal_status (status_of (legolas pending none none)) ≡ true
        → task_of late ≡ legolas pending none none)
Calls-terminal_example = Calls-terminal calls late late_call

teammate_life_example :
    IsTimed done_life × Keeps (teammate_task (create_teammate_task args 100 [] signals).0) done_life
unfolding create_teammate_task
teammate_life_example = teammate_life args 100 [] signals done_life life
