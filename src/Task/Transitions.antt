-- ===== src/Task/Transitions.antt =====
-- src/team/src/state/task-state.ts: the transition helpers, which alone change a status.
use flopsy.Prelude.{
  ℕ, Bool, true, false, Option, none, some, [], ◌∷◌, ◌++◌, if◌then◌else◌, Text, codes,
}
use flopsy.Task.{
  TaskStatus, pending, running, idle, completed, failed, killed, is_terminal_status, status_text,
  TaskStateBase, TeammateTaskState, TaskState, teammate_task, background_job_task, shell_task,
  base_of, with_base,
}

pub data TransitionResult (T : Type 0) : Type 0 where
  ok : T → TransitionResult T
  refused : Text → T → TransitionResult T

-- `"${prefix}"${task.status}"`, the reason of a refusal.
reason_text : Text → TaskStatus → Text
unfolding status_text
reason_text prefix status = prefix ++ b'"' ∷ (status_text status ++ b'"' ∷ [])

can_run : TaskStatus → Bool
can_run pending = true
can_run idle = true
can_run _ = false

unfoldable pub to_running : TaskState → TransitionResult TaskState
unfolding reason_text can_run base_of with_base
to_running task =
    let b = base_of task in
    if can_run b.status
    then ok (with_base task (record b { status = running }))
    else refused (reason_text (codes "cannot run from status=") b.status) task

is_running : TaskStatus → Bool
is_running running = true
is_running _ = false

unfoldable pub to_idle : TeammateTaskState → Option Text → TransitionResult TeammateTaskState
unfolding reason_text is_running
to_idle task last_result =
    let b = task.base in
    if is_running b.status
    then ok (record task { base = record b { status = idle }; last_result = last_result })
    else refused (reason_text (codes "cannot idle from status=") b.status) task

-- The three statuses that `toTerminal` accepts.
pub data TerminalStatus : Type 0 where
  to_completed to_failed to_killed : TerminalStatus

unfoldable pub terminal_status : TerminalStatus → TaskStatus
terminal_status to_completed = completed
terminal_status to_failed = failed
terminal_status to_killed = killed

-- `details.result ?? task.lastResult`.
keep_result : Option Text → Option Text → Option Text
keep_result none old = old
keep_result (some r) old = some r

-- Where the result lands, by the type of the task.
finish : TaskState → TaskStateBase → Option Text → TaskState
unfolding keep_result
finish (teammate_task t) b result =
    teammate_task (record t { base = b; last_result = keep_result result t.last_result })
finish (background_job_task t) b result =
    background_job_task (record t { base = b; result = result })
finish (shell_task t) b result = shell_task (record t { base = b })

unfoldable pub to_terminal :
    TaskState → TerminalStatus → Option Text → Option Text → ℕ → TransitionResult TaskState
unfolding reason_text finish base_of is_terminal_status terminal_status
to_terminal task status result error now =
    let b = base_of task in
    if is_terminal_status b.status
    then refused (reason_text (codes "already terminal: ") b.status) task
    else ok (
        finish task
          (record b { status = terminal_status status; ended_at = some now; error = error }) result)
