-- ===== src/Registry/Census.antt =====
-- src/team/src/state/task-registry.ts: the census, the search for a teammate, and the bulk abort.
use flopsy.Prelude.{
  ℕ, suc, ◌+◌, ◌≡◌, refl, sym, ap, inl, inr, Bool, true, false, not, ◌&&◌, ◌||◌, Option, none, some,
  List, [], ◌∷◌, arith, ◌==◌, if◌then◌else◌, Bool-cases, length, keep, Text, str_eq, str_eq_iff,
}
use flopsy.Prelude.JsMap
use flopsy.Prelude.JsMap.{JsMap}
use mathlib.Core.List.{Memᴰ}
use flopsy.Task.{
  TaskType, teammate, background_job, shell, TaskStatus, pending, running, idle, completed, failed,
  killed, TaskState, TeammateTaskState, teammate_task, background_job_task, shell_task,
  is_terminal_status, base_of, type_of, Signals, AbortPair, is_aborted,
}
use flopsy.Registry.{
  TaskRegistry, TaskRegistrySnapshot, list, size, snapshot, list_by_status, list_by_type,
  same_status, same_type, find_active_teammate, count_tasks, first_teammate, count_task,
  zero_snapshot,
}
use flopsy.Registry.Messages.{
  AbortScope, whole, current_turn, abort_all_active, abort_tasks, abort_one,
}

count_tasks-by_status :
    (x : TaskStatus) (s : TaskRegistrySnapshot) (ts : List TaskState)
    → (count_tasks s ts).by_status x
      ≡ s.by_status x + length (keep (λ t. same_status (base_of t).status x) ts)
unfolding count_tasks
count_tasks-by_status x s [] = omega arith
count_tasks-by_status x s (t ∷ ts) = ground (arith, count_tasks-by_status x (count_task t s) ts)

count_tasks-by_type :
    (x : TaskType) (s : TaskRegistrySnapshot) (ts : List TaskState)
    → (count_tasks s ts).by_type x ≡ s.by_type x + length (keep (λ t. same_type (type_of t) x) ts)
unfolding count_tasks
count_tasks-by_type x s [] = omega arith
count_tasks-by_type x s (t ∷ ts) = ground (arith, count_tasks-by_type x (count_task t s) ts)

count_tasks-total :
    (s : TaskRegistrySnapshot) (ts : List TaskState) → (count_tasks s ts).total ≡ s.total
unfolding count_tasks
count_tasks-total s [] = refl
count_tasks-total s (t ∷ ts) = ground (arith, count_tasks-total (count_task t s) ts)

abbrev pub status_sum : (TaskStatus → ℕ) → ℕ
status_sum f = f pending + f running + f idle + f completed + f failed + f killed

abbrev pub type_sum : (TaskType → ℕ) → ℕ
type_sum f = f teammate + f background_job + f shell

bump_status :
    (y : TaskStatus) (f : TaskStatus → ℕ)
    → status_sum (λ x. if same_status y x then f x + 1 else f x) ≡ status_sum f + 1
bump_status pending f = omega arith
bump_status _ f = omega arith

bump_type :
    (y : TaskType) (f : TaskType → ℕ)
    → type_sum (λ x. if same_type y x then f x + 1 else f x) ≡ type_sum f + 1
bump_type teammate f = omega arith
bump_type _ f = omega arith

count_task-sums :
    (t : TaskState) (s : TaskRegistrySnapshot)
    → (status_sum (count_task t s).by_status ≡ status_sum s.by_status + 1)
      × (type_sum (count_task t s).by_type ≡ type_sum s.by_type + 1)
unfolding count_task
count_task-sums t s = (bump_status (base_of t).status s.by_status, bump_type (type_of t) s.by_type)

count_tasks-sums :
    (s : TaskRegistrySnapshot) (ts : List TaskState)
    → (status_sum (count_tasks s ts).by_status ≡ status_sum s.by_status + length ts)
      × (type_sum (count_tasks s ts).by_type ≡ type_sum s.by_type + length ts)
unfolding count_tasks
count_tasks-sums s [] = omega arith
count_tasks-sums s (t ∷ ts) =
    omega (arith, count_tasks-sums (count_task t s) ts, count_task-sums t s)

length-values : (m : JsMap TaskState) → length (JsMap.values m) ≡ length m
unfolding JsMap.values
length-values [] = refl
length-values ((k, t) ∷ m) = ap suc (length-values m)

-- The census of a registry gives, for each status and each type, the number of tasks that the list
-- functions return for it; the numbers for the six statuses add up to the total, and so do those for
-- the three types.
pub snapshot_exact :
    (r : TaskRegistry) (x : TaskStatus) (y : TaskType)
    → let s = snapshot r in
      (s.by_status x ≡ length (list_by_status x r))
      × (s.by_type y ≡ length (list_by_type y r))
      × (s.total ≡ size r)
      × (status_sum s.by_status ≡ s.total)
      × (type_sum s.by_type ≡ s.total)
unfolding snapshot list_by_status list_by_type
snapshot_exact r x y =
    let start = zero_snapshot (size r) in
    let total = count_tasks-total start (list r) in
    let sums = count_tasks-sums start (list r) in
    (
      omega (arith, count_tasks-by_status x start (list r)),
      omega (arith, count_tasks-by_type y start (list r)),
      total,
      omega (arith, sums.0, total, length-values r.tasks),
      omega (arith, sums.1, total, length-values r.tasks),
    )

first_teammate_sound :
    (name : Text) (ts : List TaskState) (t : TeammateTaskState)
    → first_teammate name ts ≡ some t
    → Memᴰ (teammate_task t) ts
      × (t.worker_name ≡ name)
      × (is_terminal_status t.base.status ≡ false)
unfolding first_teammate
first_teammate_sound name [] t e = ground arith
first_teammate_sound name (teammate_task u ∷ ts) t e =
    elim (Bool-cases (str_eq u.worker_name name)) [
      | inr other ↦
          let (m, n, l) = first_teammate_sound name ts t (ground arith) in (Memᴰ.tail m, n, l)
      | inl hit ↦ elim (Bool-cases (is_terminal_status u.base.status)) [
        | inl over ↦
            let (m, n, l) = first_teammate_sound name ts t (ground arith) in (Memᴰ.tail m, n, l)
        | inr live ↦
            let same : u ≡ t = ground arith in
            (
              Memᴰ.head (ap teammate_task (sym same)),
              ground (arith, str_eq_iff u.worker_name name),
              ground arith,
            )
      ]
    ]
first_teammate_sound name (background_job_task u ∷ ts) t e =
    let (m, n, l) = first_teammate_sound name ts t e in (Memᴰ.tail m, n, l)
first_teammate_sound name (shell_task u ∷ ts) t e =
    let (m, n, l) = first_teammate_sound name ts t e in (Memᴰ.tail m, n, l)

first_teammate_tail :
    (name : Text) (x : TaskState) (ts : List TaskState)
    → first_teammate name (x ∷ ts) ≡ none
    → first_teammate name ts ≡ none
unfolding first_teammate
first_teammate_tail name (teammate_task u) ts e = ground arith
first_teammate_tail name _ ts e = e

first_teammate_head :
    (name : Text) (x : TaskState) (ts : List TaskState) (t : TeammateTaskState)
    → teammate_task t ≡ x
    → first_teammate name (x ∷ ts) ≡ none
    → t.worker_name ≡ name
    → is_terminal_status t.base.status ≡ true
unfolding first_teammate
first_teammate_head name (teammate_task u) ts t h e n =
    ground (arith, str_eq_iff u.worker_name name)
first_teammate_head name _ ts t h e n = cc

first_teammate_complete :
    (name : Text) (ts : List TaskState) (t : TeammateTaskState)
    → first_teammate name ts ≡ none
    → Memᴰ (teammate_task t) ts
    → t.worker_name ≡ name
    → is_terminal_status t.base.status ≡ true
unfolding first_teammate
first_teammate_complete name [] t e m n = elim m [ ]
first_teammate_complete name (x ∷ ts) t e (Memᴰ.tail m) n =
    first_teammate_complete name ts t (first_teammate_tail name x ts e) m n
first_teammate_complete name (x ∷ ts) t e (Memᴰ.head h) n = first_teammate_head name x ts t h e n

-- `findActiveTeammate` gives a teammate task of that name in the registry that is not in a terminal
-- status, and gives none only if every teammate task of that name is in a terminal status.
pub find_active_teammate_exact :
    (name : Text) (r : TaskRegistry) (t : TeammateTaskState)
    → (find_active_teammate name r ≡ some t
        → Memᴰ (teammate_task t) (list r)
          × (t.worker_name ≡ name)
          × (is_terminal_status t.base.status ≡ false))
      × (find_active_teammate name r ≡ none
          → Memᴰ (teammate_task t) (list r)
          → t.worker_name ≡ name
          → is_terminal_status t.base.status ≡ true)
unfolding find_active_teammate
find_active_teammate_exact name r t =
    (first_teammate_sound name (list r) t, first_teammate_complete name (list r) t)

abbrev pub controller : AbortScope → AbortPair → ℕ
controller whole pair = pair.whole
controller current_turn pair = pair.current_turn

-- Whether an abort of the scope reaches the controller through the task.
abbrev pub reaches_pair : AbortScope → ℕ → Option AbortPair → Bool
reaches_pair scope c none = false
reaches_pair scope c (some pair) = controller scope pair == c

abbrev pub is_live : TaskState → Bool
is_live t = not (is_terminal_status (base_of t).status)

abbrev pub reaches : AbortScope → ℕ → List TaskState → Bool
reaches scope c [] = false
reaches scope c (t ∷ ts) =
    (is_live t && reaches_pair scope c (base_of t).abort_pair) || reaches scope c ts

abbrev pub has_pair : Option AbortPair → Bool
has_pair none = false
has_pair (some pair) = true

abort_one_exact :
    (scope : AbortScope) (c : ℕ) (p : Option AbortPair) (acc : ℕ × Signals)
    → let (n, s) = abort_one scope p acc in
      (n ≡ (if has_pair p then acc.0 + 1 else acc.0))
      × (is_aborted s c ≡ (reaches_pair scope c p || is_aborted acc.1 c))
unfolding abort_one is_aborted
abort_one_exact scope c none acc = (refl, refl)
abort_one_exact whole c (some p) acc = (refl, ground arith)
abort_one_exact current_turn c (some p) acc = (refl, ground arith)

abort_tasks_exact :
    (scope : AbortScope) (c : ℕ) (ts : List TaskState) (acc : ℕ × Signals)
    → let (n, s) = abort_tasks scope ts acc in
      (n ≡ acc.0 + length (keep (λ t. is_live t && has_pair (base_of t).abort_pair) ts))
      × (is_aborted s c ≡ (reaches scope c ts || is_aborted acc.1 c))
unfolding abort_tasks
abort_tasks_exact scope c [] acc = (omega arith, refl)
abort_tasks_exact scope c (t ∷ ts) acc =
    let acc' =
      if is_terminal_status (base_of t).status
      then acc
      else abort_one scope (base_of t).abort_pair acc in
    let (a, b) = abort_tasks_exact scope c ts acc' in
    let (d, e) = abort_one_exact scope c (base_of t).abort_pair acc in
    (ground (arith, a, d), ground (arith, b, e))

-- A bulk abort of a scope aborts the controllers of that scope of the tasks that are in no terminal
-- status, aborts no other controller, and returns how many tasks it reached.
pub abort_all_active_exact :
    (scope : AbortScope) (c : ℕ) (r : TaskRegistry) (s : Signals)
    → let (n, s') = abort_all_active scope r s in
      (n ≡ length (keep (λ t. is_live t && has_pair (base_of t).abort_pair) (list r)))
      × (is_aborted s' c ≡ (reaches scope c (list r) || is_aborted s c))
unfolding abort_all_active
abort_all_active_exact scope c r s =
    let (a, b) = abort_tasks_exact scope c (list r) (0, s) in (omega (arith, a), b)
