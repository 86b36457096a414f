-- ===== src/Registry/Messages.antt =====
-- src/team/src/state/task-registry.ts: messages for teammates, the bulk abort, and eviction.
use flopsy.Prelude.{
  ℕ, ◌+◌, Bool, true, false, not, ◌&&◌, Option, none, some, List, [], ◌∷◌, ◌++◌, ltb, if◌then◌else◌,
  Text,
}
use flopsy.Prelude.JsMap
use flopsy.Prelude.JsMap.{JsMap}
use flopsy.Task.{
  is_terminal_status, Signals, AbortPair, abort, TeammateTaskState, TaskState, teammate_task,
  base_of, is_teammate_task, or_else,
}
use flopsy.Registry.{TaskRegistry, list}

push_found : Text → Text → Option TeammateTaskState → TaskRegistry → Bool × TaskRegistry
unfolding is_terminal_status
push_found task_id text none r = (false, r)
push_found task_id text (some task) r =
    if is_terminal_status task.base.status then (false, r) else (
      true,
      record r {
        tasks =
            JsMap.set task_id
              (teammate_task
                (record task { pending_messages = task.pending_messages ++ text ∷ [] }))
              r.tasks;
      },
    )

-- An unknown id and a task of another type both give no teammate.
unfoldable pub push_pending : Text → Text → TaskRegistry → Bool × TaskRegistry
unfolding push_found is_teammate_task JsMap.get JsMap.set
push_pending task_id text r =
    push_found task_id text (is_teammate_task (JsMap.get task_id r.tasks)) r

drain_list : Text → TeammateTaskState → List Text → TaskRegistry → List Text × TaskRegistry
drain_list task_id task [] r = ([], r)
drain_list task_id task (m ∷ ms) r = (
  m ∷ ms,
  record r {
    tasks = JsMap.set task_id (teammate_task (record task { pending_messages = [] })) r.tasks;
  },
)

drain_found : Text → Option TeammateTaskState → TaskRegistry → List Text × TaskRegistry
unfolding drain_list
drain_found task_id none r = ([], r)
drain_found task_id (some task) r = drain_list task_id task task.pending_messages r

unfoldable pub drain_pending : Text → TaskRegistry → List Text × TaskRegistry
unfolding drain_found is_teammate_task JsMap.get JsMap.set
drain_pending task_id r = drain_found task_id (is_teammate_task (JsMap.get task_id r.tasks)) r

pub data AbortScope : Type 0 where
  whole current_turn : AbortScope

unfoldable pub abort_scope : AbortScope → AbortPair → Signals → Signals
unfolding abort
abort_scope whole pair s = abort pair.whole s
abort_scope current_turn pair s = abort pair.current_turn s

unfoldable pub abort_one : AbortScope → Option AbortPair → ℕ × Signals → ℕ × Signals
unfolding abort_scope
abort_one scope none acc = acc
abort_one scope (some pair) (n, s) = (n + 1, abort_scope scope pair s)

unfoldable pub abort_tasks : AbortScope → List TaskState → ℕ × Signals → ℕ × Signals
unfolding abort_one is_terminal_status base_of
abort_tasks scope [] acc = acc
abort_tasks scope (t ∷ ts) acc = abort_tasks scope ts (
    if is_terminal_status (base_of t).status
    then acc
    else abort_one scope (base_of t).abort_pair acc)

unfoldable pub abort_all_active : AbortScope → TaskRegistry → Signals → ℕ × Signals
unfolding abort_tasks list
abort_all_active scope r s = abort_tasks scope (list r) (0, s)

-- `now - endedAt < ageMs` is written without a difference, which may be negative.
unfoldable pub is_evictable : ℕ → ℕ → TaskState → Bool
unfolding base_of is_terminal_status
is_evictable age_ms now t =
    let b = base_of t in
    is_terminal_status b.status && not (ltb now (or_else b.ended_at b.created_at + age_ms))

-- The loop over the entries, which deletes from the map that it walks.
unfoldable pub evict_entries : ℕ → ℕ → JsMap TaskState → ℕ × JsMap TaskState → ℕ × JsMap TaskState
unfolding is_evictable JsMap.delete
evict_entries age_ms now [] acc = acc
evict_entries age_ms now ((id, t) ∷ es) acc =
    evict_entries age_ms now es
      (if is_evictable age_ms now t then (acc.0 + 1, JsMap.delete id acc.1) else acc)

unfoldable pub evict_terminal : ℕ → ℕ → TaskRegistry → ℕ × TaskRegistry
unfolding evict_entries
evict_terminal age_ms now r =
    let (n, tasks) = evict_entries age_ms now r.tasks (0, r.tasks) in
    (n, record r { tasks = tasks })

unfoldable pub push_teammate_message : Text → Text → TaskRegistry → TaskRegistry
unfolding JsMap.get JsMap.set
push_teammate_message worker_name text r =
    let q = or_else (JsMap.get worker_name r.teammate_messages) [] in
    record r { teammate_messages = JsMap.set worker_name (q ++ text ∷ []) r.teammate_messages }

drain_queue : Text → Option (List Text) → TaskRegistry → List Text × TaskRegistry
drain_queue worker_name none r = ([], r)
drain_queue worker_name (some []) r = ([], r)
drain_queue worker_name (some (m ∷ ms)) r =
    (m ∷ ms, record r { teammate_messages = JsMap.delete worker_name r.teammate_messages })

unfoldable pub drain_teammate_messages : Text → TaskRegistry → List Text × TaskRegistry
unfolding drain_queue JsMap.get JsMap.delete
drain_teammate_messages worker_name r =
    drain_queue worker_name (JsMap.get worker_name r.teammate_messages) r
