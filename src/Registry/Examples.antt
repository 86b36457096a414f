-- ===== src/Registry/Examples.antt =====
-- Runs of a registry with two tasks.
use flopsy.Prelude.{
  ℕ, ◌+◌, ◌≡◌, refl, false, ◌&&◌, ◌||◌, Option, none, some, [], ◌∷◌, if◌then◌else◌, length, keep,
  Text, codes, str_eq, decimal, returned, thrown,
}
use flopsy.Prelude.JsMap
use flopsy.Prelude.JsMap.{JsMap}
use flopsy.Task.{
  TaskStatus, teammate, pending, running, completed, TaskStateBase, TeammateTaskState, TaskState,
  teammate_task, shell_task, Signals, base_of, is_terminal_status, is_aborted, task_id_prefix,
}
use flopsy.Registry.{
  TaskRegistry, empty, next_id, register, get, size, snapshot, list_by_status, list_by_type, list,
}
use flopsy.Registry.Messages.{drain_pending, evict_terminal, whole, abort_all_active}
use flopsy.Registry.Ids.{Reach, here, next, spawns, register-next_id}
use flopsy.Registry.Mailbox.{push_all, with_pending, drain-push_all}
use flopsy.Registry.Eviction.{some_evictable, evict_terminal_exact}
use flopsy.Registry.Census.{
  status_sum, type_sum, snapshot_exact, is_live, has_pair, reaches, abort_all_active_exact,
}

abbrev base : Text → TaskStatus → Option ℕ → TaskStateBase
base id status ended = record {
  id = id;
  description = codes "scout";
  created_at = 100;
  tool_use_id = none;
  status = status;
  ended_at = ended;
  error = none;
  abort_pair = some (record { whole = 0; current_turn = 1 });
  notified = false;
}

abbrev legolas : TeammateTaskState
legolas = record {
  base = base (codes "t1") running none;
  worker_name = codes "legolas";
  leader_task_id = none;
  depth = 0;
  spawn_chain = [];
  pending_messages = codes "hi" ∷ [];
  last_result = none;
  tool_use_count = 0;
  token_count = 0;
}

abbrev build : TaskState
build = shell_task (record {
  base = base (codes "s1") completed (some 200);
  command = codes "make";
  exit_code = some 0;
  stdout_file = none;
  stderr_file = none;
})

abbrev two : TaskRegistry
two = record {
  tasks = (codes "t1", teammate_task legolas) ∷ (codes "s1", build) ∷ [];
  counters = record { teammates = 1; background_jobs = 0; shells = 1 };
  teammate_messages = [];
}

abbrev one : TaskRegistry
one = record {
  tasks = (codes "t1", teammate_task legolas) ∷ [];
  counters = record { teammates = 1; background_jobs = 0; shells = 0 };
  teammate_messages = [];
}

one_reached : Reach empty one
unfolding empty next_id register base_of task_id_prefix decimal
one_reached = next here (spawns teammate (teammate_task legolas) one refl refl)

-- A task under the id "t1" that its caller chose: the first id that `nextId` gives is refused.
abbrev chosen : TaskRegistry
chosen = record {
  tasks = (codes "t1", teammate_task legolas) ∷ [];
  counters = record { teammates = 0; background_jobs = 0; shells = 0 };
  teammate_messages = [];
}

chosen_registered : register (teammate_task legolas) empty ≡ returned chosen
unfolding register empty base_of
chosen_registered = refl

duplicate :
    register (teammate_task legolas) (next_id teammate chosen).1
    ≡ thrown (codes "TaskRegistry: duplicate task id \"t1\"")
unfolding register next_id base_of str_eq
duplicate = refl

abbrev gimli : TaskState
gimli = teammate_task (record legolas { base = base (codes "t2") pending none })

register-next_id_example :
    (u : TaskRegistry) × (register gimli (next_id teammate one).1 ≡ returned u)
    × (get (next_id teammate one).0 u ≡ some gimli)
unfolding next_id base_of task_id_prefix decimal
register-next_id_example = register-next_id one teammate gimli one_reached refl

drain-push_all_example :
    let (got, u) =
      drain_pending (codes "t1") (push_all (codes "t1") (codes "a" ∷ codes "b" ∷ []) two) in
    (got ≡ codes "hi" ∷ codes "a" ∷ codes "b" ∷ [])
    × (get (codes "s1") u ≡ (
        if str_eq (codes "t1") (codes "s1")
        then some (with_pending legolas [])
        else get (codes "s1") two))
unfolding get is_terminal_status str_eq
drain-push_all_example =
    drain-push_all (codes "t1") (codes "s1") (codes "a" ∷ codes "b" ∷ []) legolas two refl refl

evict_terminal_exact_example :
    let (n, u) = evict_terminal 50 250 two in
    (get (codes "s1") u
      ≡ (if some_evictable 50 250 (get (codes "s1") two) then none else get (codes "s1") two))
    × (n + size u ≡ size two)
unfolding JsMap.get str_eq
evict_terminal_exact_example = evict_terminal_exact 50 250 two (codes "s1") (refl, (refl, tt))

evicted_one : (evict_terminal 50 250 two).0 ≡ 1
unfolding evict_terminal
evicted_one = refl

snapshot_exact_example :
    let s = snapshot two in
    (s.by_status running ≡ length (list_by_status running two))
    × (s.by_type teammate ≡ length (list_by_type teammate two))
    × (s.total ≡ size two)
    × (status_sum s.by_status ≡ s.total)
    × (type_sum s.by_type ≡ s.total)
snapshot_exact_example = snapshot_exact two running teammate

abbrev quiet : Signals
quiet = record { next = 2; aborted = [] }

abort_all_active_exact_example :
    let (n, s) = abort_all_active whole two quiet in
    (n ≡ length (keep (λ t. is_live t && has_pair (base_of t).abort_pair) (list two)))
    × (is_aborted s 0 ≡ (reaches whole 0 (list two) || is_aborted quiet 0))
abort_all_active_exact_example = abort_all_active_exact whole 0 two quiet
