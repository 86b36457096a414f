-- ===== src/Task.antt =====
-- src/team/src/state/task-state.ts: the record of one background unit of work and its transitions.
-- An AbortController is an object that copies of a task share, so a task holds the number of
-- its controllers and `Signals` says which of them were aborted. `Date.now()` and the bytes of
-- `randomBytes(4)` are arguments.
pub mod Transitions
pub mod Lifecycle
mod Examples
use flopsy.Prelude.{
  ℕ, zero, suc, ◌+◌, ◌%◌, Bool, true, false, Option, none, some, List, [], ◌∷◌, ◌++◌, ◌==◌,
  if◌then◌else◌, length, Text, codes,
}

pub data TaskType : Type 0 where
  teammate background_job shell : TaskType

pub data TaskStatus : Type 0 where
  pending running idle completed failed killed : TaskStatus

unfoldable pub is_terminal_status : TaskStatus → Bool
is_terminal_status completed = true
is_terminal_status failed = true
is_terminal_status killed = true
is_terminal_status _ = false

unfoldable pub is_active_status : TaskStatus → Bool
is_active_status pending = true
is_active_status running = true
is_active_status _ = false

-- The word that a status is in the source, for the reasons of a refusal.
unfoldable pub status_text : TaskStatus → Text
status_text pending = codes "pending"
status_text running = codes "running"
status_text idle = codes "idle"
status_text completed = codes "completed"
status_text failed = codes "failed"
status_text killed = codes "killed"

unfoldable pub task_id_prefix : TaskType → Text
task_id_prefix teammate = codes "t"
task_id_prefix background_job = codes "j"
task_id_prefix shell = codes "s"

abbrev task_id_alphabet : Text
task_id_alphabet = codes "0123456789abcdefghijklmnopqrstuvwxyz"

-- `s[i]`; the index below is always in range.
char_at : Text → ℕ → Text
char_at [] i = []
char_at (c ∷ s) zero = c ∷ []
char_at (c ∷ s) (suc i) = char_at s i

append_chars : Text → List ℕ → Text
append_chars id [] = id
append_chars id (b ∷ bytes) =
    append_chars (id ++ char_at task_id_alphabet (b % length task_id_alphabet)) bytes

unfoldable pub generate_task_id : TaskType → List ℕ → Text
unfolding task_id_prefix append_chars char_at
generate_task_id type bytes = append_chars (task_id_prefix type) bytes

-- The controllers that exist are the numbers below `next`.
pub record Signals : Type 0 where
  pub next : ℕ
  pub aborted : List ℕ

pub record AbortPair : Type 0 where
  pub whole : ℕ
  pub current_turn : ℕ

unfoldable pub create_abort_pair : Signals → AbortPair × Signals
create_abort_pair s =
    (record { whole = s.next; current_turn = s.next + 1 }, record s { next = s.next + 2 })

unfoldable pub rotate_current_turn_controller : AbortPair → Signals → AbortPair × Signals
rotate_current_turn_controller pair s =
    (record { whole = pair.whole; current_turn = s.next }, record s { next = s.next + 1 })

-- AbortController.abort() and signal.aborted.
unfoldable pub abort : ℕ → Signals → Signals
abort c s = record s { aborted = c ∷ s.aborted }

is_in : ℕ → List ℕ → Bool
is_in c [] = false
is_in c (d ∷ ds) = if d == c then true else is_in c ds

unfoldable pub is_aborted : Signals → ℕ → Bool
unfolding is_in
is_aborted s c = is_in c s.aborted

pub record TaskStateBase : Type 0 where
  pub id : Text
  pub description : Text
  pub created_at : ℕ
  pub tool_use_id : Option Text
  pub status : TaskStatus
  pub ended_at : Option ℕ
  pub error : Option Text
  pub abort_pair : Option AbortPair
  pub notified : Bool

pub record TeammateTaskState : Type 0 where
  pub base : TaskStateBase
  pub worker_name : Text
  pub leader_task_id : Option Text
  pub depth : ℕ
  pub spawn_chain : List Text
  pub pending_messages : List Text
  pub last_result : Option Text
  pub tool_use_count : ℕ
  pub token_count : ℕ

pub record BackgroundJobTaskState : Type 0 where
  pub base : TaskStateBase
  pub prompt : Text
  pub leader_task_id : Option Text
  pub depth : ℕ
  pub result : Option Text

pub record ShellTaskState : Type 0 where
  pub base : TaskStateBase
  pub command : Text
  pub exit_code : Option ℕ
  pub stdout_file : Option Text
  pub stderr_file : Option Text

-- The union, whose tag is the field `type` of the source.
pub data TaskState : Type 0 where
  teammate_task : TeammateTaskState → TaskState
  background_job_task : BackgroundJobTaskState → TaskState
  shell_task : ShellTaskState → TaskState

-- The fields that every member of the union has.
unfoldable pub base_of : TaskState → TaskStateBase
base_of (teammate_task t) = t.base
base_of (background_job_task t) = t.base
base_of (shell_task t) = t.base

-- `{ ...task, ...base }`.
unfoldable pub with_base : TaskState → TaskStateBase → TaskState
with_base (teammate_task t) b = teammate_task (record t { base = b })
with_base (background_job_task t) b = background_job_task (record t { base = b })
with_base (shell_task t) b = shell_task (record t { base = b })

unfoldable pub type_of : TaskState → TaskType
type_of (teammate_task t) = teammate
type_of (background_job_task t) = background_job
type_of (shell_task t) = shell

-- A guard narrows the union: it gives the task at the narrower type.
unfoldable pub is_teammate_task : Option TaskState → Option TeammateTaskState
is_teammate_task (some (teammate_task t)) = some t
is_teammate_task _ = none

unfoldable pub is_background_job_task : Option TaskState → Option BackgroundJobTaskState
is_background_job_task (some (background_job_task t)) = some t
is_background_job_task _ = none

unfoldable pub is_shell_task : Option TaskState → Option ShellTaskState
is_shell_task (some (shell_task t)) = some t
is_shell_task _ = none

-- `a ?? b`.
abbrev pub or_else {ℓ} : {A : Type ℓ} → Option A → A → A
or_else none b = b
or_else (some a) b = a

-- The fields that the three constructors of tasks fill alike.
new_base : Text → Text → Option Text → ℕ → AbortPair → TaskStateBase
new_base id description tool_use_id now pair = record {
  id = id;
  description = description;
  created_at = now;
  tool_use_id = tool_use_id;
  status = pending;
  ended_at = none;
  error = none;
  abort_pair = some pair;
  notified = false;
}

pub record TeammateArgs : Type 0 where
  pub worker_name : Text
  pub description : Text
  pub depth : ℕ
  pub leader_task_id : Option Text
  pub tool_use_id : Option Text
  pub id : Option Text
  pub spawn_chain : Option (List Text)

unfoldable pub create_teammate_task :
    TeammateArgs → ℕ → List ℕ → Signals → TeammateTaskState × Signals
unfolding new_base generate_task_id create_abort_pair
create_teammate_task args now bytes s =
    let (pair, s') = create_abort_pair s in
    (
      record {
        base =
            new_base (or_else args.id (generate_task_id teammate bytes)) args.description
              args.tool_use_id now pair;
        worker_name = args.worker_name;
        leader_task_id = args.leader_task_id;
        depth = args.depth;
        spawn_chain = or_else args.spawn_chain [];
        pending_messages = [];
        last_result = none;
        tool_use_count = 0;
        token_count = 0;
      },
      s',
    )

pub record BackgroundJobArgs : Type 0 where
  pub prompt : Text
  pub description : Text
  pub depth : ℕ
  pub leader_task_id : Option Text
  pub tool_use_id : Option Text
  pub id : Option Text

unfoldable pub create_background_job_task :
    BackgroundJobArgs → ℕ → List ℕ → Signals → BackgroundJobTaskState × Signals
unfolding new_base generate_task_id create_abort_pair
create_background_job_task args now bytes s =
    let (pair, s') = create_abort_pair s in
    (
      record {
        base =
            new_base (or_else args.id (generate_task_id background_job bytes)) args.description
              args.tool_use_id now pair;
        prompt = args.prompt;
        leader_task_id = args.leader_task_id;
        depth = args.depth;
        result = none;
      },
      s',
    )

pub record ShellArgs : Type 0 where
  pub command : Text
  pub description : Text
  pub tool_use_id : Option Text
  pub id : Option Text

unfoldable pub create_shell_task : ShellArgs → ℕ → List ℕ → Signals → ShellTaskState × Signals
unfolding new_base generate_task_id create_abort_pair
create_shell_task args now bytes s =
    let (pair, s') = create_abort_pair s in
    (
      record {
        base =
            new_base (or_else args.id (generate_task_id shell bytes)) args.description
              args.tool_use_id now pair;
        command = args.command;
        exit_code = none;
        stdout_file = none;
        stderr_file = none;
      },
      s',
    )
