-- ===== src/Registry/Mailbox.antt =====
-- src/team/src/state/task-registry.ts: messages that are pushed to a teammate are drained in order.
use flopsy.Prelude.{
  ◌≡◌, sym, ◌∙◌, ◌↔◌, inl, inr, true, false, some, List, [], ◌∷◌, ◌++◌, arith, if◌then◌else◌,
  Option-cases, Text, str_eq, str_eq_iff, str_eq_refl,
}
use flopsy.Prelude.JsMap
use flopsy.Prelude.JsMap.{JsMap}
use mathlib.Core.List.{append-nil, append_assoc}
use flopsy.Task.{
  TaskState, TeammateTaskState, teammate_task, background_job_task, shell_task, is_terminal_status,
  is_teammate_task,
}
use flopsy.Registry.{TaskRegistry, get}
use flopsy.Registry.Messages.{push_pending, drain_pending}

-- A burst of messages to one task.
pub push_all : Text → List Text → TaskRegistry → TaskRegistry
push_all id [] r = r
push_all id (m ∷ ms) r = push_all id ms (push_pending id m r).1

abbrev pub with_pending : TeammateTaskState → List Text → TaskState
with_pending t ms = teammate_task (record t { pending_messages = ms })

get-push_pending :
    (id j text : Text) (t : TeammateTaskState) (r : TaskRegistry)
    → get id r ≡ some (teammate_task t)
    → is_terminal_status t.base.status ≡ false
    → get j (push_pending id text r).1
      ≡ (if str_eq id j then some (with_pending t (t.pending_messages ++ text ∷ [])) else get j r)
unfolding push_pending get is_teammate_task
get-push_pending id j text t r e live =
    ground (arith, JsMap.get-set id j (with_pending t (t.pending_messages ++ text ∷ [])) r.tasks)

get-drain_pending :
    (id j : Text) (t : TeammateTaskState) (r : TaskRegistry)
    → get id r ≡ some (teammate_task t)
    → ((drain_pending id r).0 ≡ t.pending_messages)
      × (get j (drain_pending id r).1 ≡ (if str_eq id j then some (with_pending t []) else get j r))
unfolding drain_pending get is_teammate_task
get-drain_pending id j t r e =
    ground (arith, JsMap.get-set id j (with_pending t []) r.tasks, str_eq_iff id j)

-- What a live teammate drains after a burst is what was pending, followed by the burst in order;
-- its buffer is then empty, and every other task is as it was.
pub drain-push_all :
    (id j : Text) (ms : List Text) (t : TeammateTaskState) (r : TaskRegistry)
    → get id r ≡ some (teammate_task t)
    → is_terminal_status t.base.status ≡ false
    → let (got, u) = drain_pending id (push_all id ms r) in
      (got ≡ t.pending_messages ++ ms)
      × (get j u ≡ (if str_eq id j then some (with_pending t []) else get j r))
unfolding push_all
drain-push_all id j [] t r e live =
    let (got, rest) = get-drain_pending id j t r e in
    (got ∙ sym (append-nil t.pending_messages), rest)
drain-push_all id j (m ∷ ms) t r e live =
    let t' : TeammateTaskState = record t { pending_messages = t.pending_messages ++ m ∷ [] } in
    let found : get id (push_pending id m r).1 ≡ some (teammate_task t') =
      get-push_pending id id m t r e live ∙ rw (str_eq_refl id) in
    let (got, rest) = drain-push_all id j ms t' (push_pending id m r).1 found live in
    (
      got ∙ append_assoc t.pending_messages (m ∷ []) ms,
      ground (arith, rest, get-push_pending id j m t r e live),
    )

-- A push is accepted exactly for a teammate that is not in a terminal status; a push that is not
-- accepted changes nothing.
pub push_pending_exact :
    (id text : Text) (r : TaskRegistry)
    → let (done, u) = push_pending id text r in
      ((done ≡ true) ↔ (
        (t : TeammateTaskState) × (get id r ≡ some (teammate_task t))
        × (is_terminal_status t.base.status ≡ false)))
      × (done ≡ false → u ≡ r)
unfolding push_pending get is_teammate_task
push_pending_exact id text r = elim (Option-cases (JsMap.get id r.tasks)) [
  | inl e ↦ ((λ h. ground arith, λ h. ground arith), λ h. ground arith)
  | inr (teammate_task t, e) ↦
      ((λ h. (t, ground arith, ground arith), λ h. ground (arith, h.1, h.2)), λ h. ground arith)
  | inr (background_job_task t, e) ↦ ((λ h. ground arith, λ h. ground arith), λ h. ground arith)
  | inr (shell_task t, e) ↦ ((λ h. ground arith, λ h. ground arith), λ h. ground arith)
]
