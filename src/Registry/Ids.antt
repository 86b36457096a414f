-- ===== src/Registry/Ids.antt =====
-- src/team/src/state/task-registry.ts: an id that `nextId` hands out is new in every history.
use flopsy.Prelude.{
  ℕ, ◌+◌, ◌≤◌, ◌≡◌, refl, inl, inr, true, none, some, [], ◌∷◌, ◌++◌, arith, if◌then◌else◌,
  Option-cases, Text, str_eq_iff, str_eq_refl, decimal, decimal_inj, returned,
}
use flopsy.Prelude.JsMap
use flopsy.Prelude.JsMap.{JsMap}
use flopsy.Task.{
  is_teammate_task, teammate_task, background_job_task, shell_task, TaskType, teammate,
  background_job, shell, TaskState, base_of, task_id_prefix,
}
use flopsy.Registry.{
  Counters, TaskRegistry, counter, with_counter, empty, next_id, register, get, replace, patch,
  remove,
}
use flopsy.Registry.Messages.{
  is_evictable, evict_entries, push_pending, drain_pending, evict_terminal, push_teammate_message,
  drain_teammate_messages,
}

-- An id that `nextId` will not hand out any more when the counters stand at `c`: it is no prefix with
-- a number, or its number is one that was handed out already.
pub IsPast : Counters → Text → Type 0
IsPast c id = (type : TaskType) (n : ℕ) → id ≡ task_id_prefix type ++ decimal n → n ≤ counter type c

id_inj :
    (s t : TaskType) (m n : ℕ)
    → task_id_prefix s ++ decimal m ≡ task_id_prefix t ++ decimal n
    → (s ≡ t) × (m ≡ n)
unfolding task_id_prefix
id_inj teammate teammate m n e = ground (arith, decimal_inj m n)
id_inj background_job background_job m n e = ground (arith, decimal_inj m n)
id_inj shell shell m n e = ground (arith, decimal_inj m n)
id_inj _ _ m n e = ground arith

-- The id that comes next is no key of the map.
fresh :
    (type : TaskType) (c : Counters) (m : JsMap TaskState)
    → JsMap.AllKeys (IsPast c) m
    → JsMap.get (task_id_prefix type ++ decimal (counter type c + 1)) m ≡ none
unfolding JsMap.get IsPast
fresh type c [] h = refl
fresh type c ((j, t) ∷ m) (past, h) = ground (
  arith,
  fresh type c m h,
  str_eq_iff j (task_id_prefix type ++ decimal (counter type c + 1)),
  past type (counter type c + 1),
)

bump-IsPast :
    (type : TaskType) (c : Counters) (id : Text)
    → IsPast c id
    → IsPast (with_counter type (counter type c + 1) c) id
unfolding IsPast
bump-IsPast type c id past s n e = bound type s n (past s n e)
  where
    bound :
        (t s : TaskType) (n : ℕ)
        → n ≤ counter s c
        → n ≤ counter s (with_counter t (counter t c + 1) c)
    bound t s n h = ground arith

-- No key is one that is still to come from `nextId`.
abbrev pub IsWellKeyed : TaskRegistry → Type 0
IsWellKeyed r = JsMap.AllKeys (IsPast r.counters) r.tasks

-- One call that changes a registry. A task is registered under the id that `nextId` just gave, or under
-- any other id, such as one that a caller or a factory chose, that `nextId` will not give later.
pub data Step (r : TaskRegistry) : TaskRegistry → Type 0 where
  gives : (type : TaskType) → Step r (next_id type r).1
  spawns :
      (type : TaskType) (task : TaskState) (u : TaskRegistry)
      → (base_of task).id ≡ (next_id type r).0
      → register task (next_id type r).1 ≡ returned u
      → Step r u
  enters :
      (task : TaskState) (u : TaskRegistry)
      → IsPast r.counters (base_of task).id
      → register task r ≡ returned u
      → Step r u
  replaces : (task : TaskState) → Step r (replace task r).1
  patches : (id : Text) (updater : TaskState → TaskState) → Step r (patch id updater r).1
  removes : (id : Text) → Step r (remove id r).1
  pushes : (id text : Text) → Step r (push_pending id text r).1
  drains : (id : Text) → Step r (drain_pending id r).1
  evicts : (age_ms now : ℕ) → Step r (evict_terminal age_ms now r).1
  sends : (worker text : Text) → Step r (push_teammate_message worker text r)
  receives : (worker : Text) → Step r (drain_teammate_messages worker r).1

pub data Reach (r : TaskRegistry) : TaskRegistry → Type 0 where
  here : Reach r r
  next : {u v : TaskRegistry} → Reach r u → Step u v → Reach r v

-- `IsPast` of all keys, from one set of counters to the next.
bump-AllKeys :
    (type : TaskType) (c : Counters) (m : JsMap TaskState)
    → JsMap.AllKeys (IsPast c) m
    → JsMap.AllKeys (IsPast (with_counter type (counter type c + 1) c)) m
bump-AllKeys type c [] h = tt
bump-AllKeys type c ((j, t) ∷ m) h = (bump-IsPast type c j h.0, bump-AllKeys type c m h.1)

next_id-IsPast :
    (type : TaskType) (r : TaskRegistry) → IsPast (next_id type r).1.counters (next_id type r).0
unfolding next_id IsPast
next_id-IsPast type r s n e =
    let (same, number) = id_inj type s (counter type r.counters + 1) n e in
    ground (arith, same, number, self type)
  where
    self :
        (t : TaskType)
        → counter t r.counters + 1
          ≤ counter t (with_counter t (counter t r.counters + 1) r.counters)
    self t = ground arith

next_id-IsWellKeyed :
    (type : TaskType) (r : TaskRegistry) → IsWellKeyed r → IsWellKeyed (next_id type r).1
unfolding next_id
next_id-IsWellKeyed type r h = bump-AllKeys type r.counters r.tasks h

register-IsWellKeyed :
    (task : TaskState) (r u : TaskRegistry)
    → IsPast r.counters (base_of task).id
    → register task r ≡ returned u
    → IsWellKeyed r
    → IsWellKeyed u
unfolding register
register-IsWellKeyed task r u p e h =
    let id = (base_of task).id in
    ground (arith, JsMap.set-AllKeys (IsPast r.counters) id task r.tasks p h)

replace-IsWellKeyed :
    (task : TaskState) (r : TaskRegistry) → IsWellKeyed r → IsWellKeyed (replace task r).1
unfolding replace
replace-IsWellKeyed task r h =
    let id = (base_of task).id in
    ground (
      arith,
      λ (e : JsMap.has id r.tasks ≡ true).
          JsMap.set-AllKeys-has (IsPast r.counters) id task r.tasks e h,
    )

-- A write over a task that is there.
written :
    (id : Text) (t u : TaskState) (r : TaskRegistry)
    → JsMap.get id r.tasks ≡ some t
    → IsWellKeyed r
    → IsWellKeyed (record r { tasks = JsMap.set id u r.tasks })
written id t u r e h =
    JsMap.set-AllKeys-has (IsPast r.counters) id u r.tasks (JsMap.has-of_get id r.tasks t e) h

drain_teammate_messages-IsWellKeyed :
    (worker : Text) (r : TaskRegistry)
    → IsWellKeyed r
    → IsWellKeyed (drain_teammate_messages worker r).1
unfolding drain_teammate_messages
drain_teammate_messages-IsWellKeyed worker r h =
    elim (Option-cases (JsMap.get worker r.teammate_messages)) [
      | inl e ↦ ground arith
      | inr ([], e) ↦ ground arith
      | inr (m ∷ ms, e) ↦ ground arith
    ]

patch-IsWellKeyed :
    (id : Text) (f : TaskState → TaskState) (r : TaskRegistry)
    → IsWellKeyed r
    → IsWellKeyed (patch id f r).1
unfolding patch
patch-IsWellKeyed id f r h = elim (Option-cases (JsMap.get id r.tasks)) [
  | inl e ↦ ground arith
  | inr (t, e) ↦ ground (arith, written id t (f t) r e h)
]

push_pending-IsWellKeyed :
    (id text : Text) (r : TaskRegistry) → IsWellKeyed r → IsWellKeyed (push_pending id text r).1
unfolding push_pending is_teammate_task
push_pending-IsWellKeyed id text r h = elim (Option-cases (JsMap.get id r.tasks)) [
  | inl e ↦ ground arith
  | inr (teammate_task t, e) ↦ ground (
    arith,
    written id (teammate_task t)
        (teammate_task (record t { pending_messages = t.pending_messages ++ text ∷ [] })) r e h,
  )
  | inr (background_job_task t, e) ↦ ground arith
  | inr (shell_task t, e) ↦ ground arith
]

drain_pending-IsWellKeyed :
    (id : Text) (r : TaskRegistry) → IsWellKeyed r → IsWellKeyed (drain_pending id r).1
unfolding drain_pending is_teammate_task
drain_pending-IsWellKeyed id r h = elim (Option-cases (JsMap.get id r.tasks)) [
  | inl e ↦ ground arith
  | inr (teammate_task t, e) ↦ ground (
    arith,
    written id (teammate_task t) (teammate_task (record t { pending_messages = [] })) r e h,
  )
  | inr (background_job_task t, e) ↦ ground arith
  | inr (shell_task t, e) ↦ ground arith
]

evict_entries-AllKeys :
    (P : Text → Type 0) (age_ms now : ℕ) (es : JsMap TaskState) (acc : ℕ × JsMap TaskState)
    → JsMap.AllKeys P acc.1
    → JsMap.AllKeys P (evict_entries age_ms now es acc).1
unfolding evict_entries
evict_entries-AllKeys P age_ms now [] acc h = h
evict_entries-AllKeys P age_ms now ((id, t) ∷ es) acc h =
    evict_entries-AllKeys P age_ms now es
      (if is_evictable age_ms now t then (acc.0 + 1, JsMap.delete id acc.1) else acc)
      (ground (arith, JsMap.delete-AllKeys P id acc.1 h))

pub Step-IsWellKeyed : {r u : TaskRegistry} → Step r u → IsWellKeyed r → IsWellKeyed u
unfolding remove evict_terminal push_teammate_message
Step-IsWellKeyed {r} (gives type) h = next_id-IsWellKeyed type r h
Step-IsWellKeyed {r} (spawns type task u e ok) h =
    register-IsWellKeyed task (next_id type r).1 u (rw e (next_id-IsPast type r)) ok
      (next_id-IsWellKeyed type r h)
Step-IsWellKeyed {r} (enters task u past ok) h = register-IsWellKeyed task r u past ok h
Step-IsWellKeyed {r} (replaces task) h = replace-IsWellKeyed task r h
Step-IsWellKeyed {r} (patches id f) h = patch-IsWellKeyed id f r h
Step-IsWellKeyed {r} (removes id) h = JsMap.delete-AllKeys (IsPast r.counters) id r.tasks h
Step-IsWellKeyed {r} (pushes id text) h = push_pending-IsWellKeyed id text r h
Step-IsWellKeyed {r} (drains id) h = drain_pending-IsWellKeyed id r h
Step-IsWellKeyed {r} (evicts age_ms now) h =
    evict_entries-AllKeys (IsPast r.counters) age_ms now r.tasks (0, r.tasks) h
Step-IsWellKeyed {r} (sends worker text) h = h
Step-IsWellKeyed {r} (receives worker) h = drain_teammate_messages-IsWellKeyed worker r h

Reach-IsWellKeyed : {r u : TaskRegistry} → IsWellKeyed r → Reach r u → IsWellKeyed u
Reach-IsWellKeyed h here = h
Reach-IsWellKeyed h (next p s) = Step-IsWellKeyed s (Reach-IsWellKeyed h p)

-- After any history of a registry that began empty, in which every task was registered under an id
-- that `nextId` had just given or under one that it will not give later, a task that is registered under the id which
-- `nextId` gives is accepted, and `get` finds it under that id; the duplicate-id error is never
-- thrown.
pub register-next_id :
    (r : TaskRegistry) (type : TaskType) (task : TaskState)
    → Reach empty r
    → (base_of task).id ≡ (next_id type r).0
    → (u : TaskRegistry) × (register task (next_id type r).1 ≡ returned u)
      × (get (next_id type r).0 u ≡ some task)
unfolding register next_id get empty
register-next_id r type task p e =
    let id = (next_id type r).0 in
    let r' = (next_id type r).1 in
    let new = fresh type r.counters r.tasks (Reach-IsWellKeyed tt p) in
    (
      record r' { tasks = JsMap.set id task r.tasks },
      ground (arith, JsMap.has-false-of_get id r.tasks new),
      ground (arith, JsMap.get-set id id task r.tasks, str_eq_refl id),
    )
