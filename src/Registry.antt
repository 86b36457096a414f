-- ===== src/Registry.antt =====
-- src/team/src/state/task-registry.ts: the tasks of one thread, their ids, and the messages that wait
-- for a teammate. The controllers of the tasks live in `Signals`, which a bulk abort changes.
pub mod Messages
mod Examples
pub mod Census
pub mod Mailbox
pub mod Eviction
pub mod Ids
use flopsy.Prelude.{
  ℕ, ◌+◌, ◌*◌, Bool, true, false, not, ◌||◌, Option, none, some, List, [], ◌∷◌, ◌++◌, if◌then◌else◌,
  length, keep, Text, codes, str_eq, decimal, Outcome, returned, thrown,
}
use flopsy.Prelude.JsMap
use flopsy.Prelude.JsMap.{JsMap}
use flopsy.Task.{
  TaskType, teammate, background_job, shell, TaskStatus, pending, running, idle, completed, failed,
  killed, is_terminal_status, is_active_status, task_id_prefix, TeammateTaskState, TaskState,
  teammate_task, background_job_task, shell_task, base_of, type_of,
}

pub record Counters : Type 0 where
  pub teammates : ℕ
  pub background_jobs : ℕ
  pub shells : ℕ

pub record TaskRegistry : Type 0 where
  pub tasks : JsMap TaskState
  pub counters : Counters
  pub teammate_messages : JsMap (List Text)

pub record TaskRegistrySnapshot : Type 0 where
  pub total : ℕ
  pub by_status : TaskStatus → ℕ
  pub by_type : TaskType → ℕ

abbrev pub default_terminal_grace_ms : ℕ
default_terminal_grace_ms = 10 * 60 * 1000

unfoldable pub empty : TaskRegistry
empty = record {
  tasks = [];
  counters = record { teammates = 0; background_jobs = 0; shells = 0 };
  teammate_messages = [];
}

abbrev pub counter : TaskType → Counters → ℕ
counter teammate c = c.teammates
counter background_job c = c.background_jobs
counter shell c = c.shells

abbrev pub with_counter : TaskType → ℕ → Counters → Counters
with_counter teammate n c = record c { teammates = n }
with_counter background_job n c = record c { background_jobs = n }
with_counter shell n c = record c { shells = n }

unfoldable pub next_id : TaskType → TaskRegistry → Text × TaskRegistry
next_id type r =
    let n = counter type r.counters + 1 in
    (task_id_prefix type ++ decimal n, record r { counters = with_counter type n r.counters })

unfoldable pub size : TaskRegistry → ℕ
size r = length r.tasks

unfoldable pub register : TaskState → TaskRegistry → Outcome Text TaskRegistry
unfolding base_of JsMap.has JsMap.set
register task r =
    let id = (base_of task).id in
    if JsMap.has id r.tasks
    then thrown (codes "TaskRegistry: duplicate task id " ++ b'"' ∷ (id ++ b'"' ∷ []))
    else returned (record r { tasks = JsMap.set id task r.tasks })

unfoldable pub get : Text → TaskRegistry → Option TaskState
unfolding JsMap.get
get id r = JsMap.get id r.tasks

unfoldable pub has : Text → TaskRegistry → Bool
unfolding JsMap.has
has id r = JsMap.has id r.tasks

unfoldable pub replace : TaskState → TaskRegistry → Bool × TaskRegistry
unfolding base_of JsMap.has JsMap.set
replace task r =
    let id = (base_of task).id in
    if JsMap.has id r.tasks
    then (true, record r { tasks = JsMap.set id task r.tasks })
    else (false, r)

patch_found : Text → (TaskState → TaskState) → Option TaskState → TaskRegistry → Bool × TaskRegistry
patch_found id updater none r = (false, r)
patch_found id updater (some current) r =
    (true, record r { tasks = JsMap.set id (updater current) r.tasks })

unfoldable pub patch : Text → (TaskState → TaskState) → TaskRegistry → Bool × TaskRegistry
unfolding patch_found JsMap.get JsMap.set
patch id updater r = patch_found id updater (JsMap.get id r.tasks) r

unfoldable pub remove : Text → TaskRegistry → Bool × TaskRegistry
unfolding JsMap.has JsMap.delete
remove id r = (JsMap.has id r.tasks, record r { tasks = JsMap.delete id r.tasks })

unfoldable pub list : TaskRegistry → List TaskState
unfolding JsMap.values
list r = JsMap.values r.tasks

abbrev pub same_status : TaskStatus → TaskStatus → Bool
same_status pending pending = true
same_status running running = true
same_status idle idle = true
same_status completed completed = true
same_status failed failed = true
same_status killed killed = true
same_status _ _ = false

abbrev pub same_type : TaskType → TaskType → Bool
same_type teammate teammate = true
same_type background_job background_job = true
same_type shell shell = true
same_type _ _ = false

unfoldable pub list_active : TaskRegistry → List TaskState
unfolding list is_active_status base_of
list_active r =
    keep (λ t. is_active_status (base_of t).status || same_status (base_of t).status idle) (list r)

unfoldable pub list_by_type : TaskType → TaskRegistry → List TaskState
unfolding list type_of
list_by_type type r = keep (λ t. same_type (type_of t) type) (list r)

unfoldable pub list_by_status : TaskStatus → TaskRegistry → List TaskState
unfolding list base_of
list_by_status status r = keep (λ t. same_status (base_of t).status status) (list r)

-- The loop of `findActiveTeammate`; each `continue` is a call on the rest.
first_teammate : Text → List TaskState → Option TeammateTaskState
unfolding is_terminal_status
first_teammate worker_name [] = none
first_teammate worker_name (teammate_task t ∷ ts) =
    let rest = first_teammate worker_name ts in
    if not (str_eq t.worker_name worker_name)
    then rest
    else if is_terminal_status t.base.status
    then rest
    else some t
first_teammate worker_name (background_job_task t ∷ ts) = first_teammate worker_name ts
first_teammate worker_name (shell_task t ∷ ts) = first_teammate worker_name ts

unfoldable pub find_active_teammate : Text → TaskRegistry → Option TeammateTaskState
unfolding first_teammate list
find_active_teammate worker_name r = first_teammate worker_name (list r)

zero_snapshot : ℕ → TaskRegistrySnapshot
zero_snapshot n = record { total = n; by_status = λ _. 0; by_type = λ _. 0 }

-- `byStatus[t.status]++; byType[t.type]++`.
count_task : TaskState → TaskRegistrySnapshot → TaskRegistrySnapshot
unfolding base_of type_of
count_task t s = record s {
  by_status = λ x. if same_status (base_of t).status x then s.by_status x + 1 else s.by_status x;
  by_type = λ x. if same_type (type_of t) x then s.by_type x + 1 else s.by_type x;
}

count_tasks : TaskRegistrySnapshot → List TaskState → TaskRegistrySnapshot
unfolding count_task
count_tasks s [] = s
count_tasks s (t ∷ ts) = count_tasks (count_task t s) ts

unfoldable pub snapshot : TaskRegistry → TaskRegistrySnapshot
unfolding count_tasks zero_snapshot list size
snapshot r = count_tasks (zero_snapshot (size r)) (list r)
