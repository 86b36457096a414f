-- ===== src/Task/Lifecycle.antt =====
-- What the transition helpers of src/team/src/state/task-state.ts allow over a whole life of a task.
use flopsy.Prelude.{ℕ, ◌≡◌, refl, ◌∙◌, Bool, true, false, Option, none, some, List, arith, Text}
use flopsy.Task.{
  TaskStatus, pending, running, idle, is_terminal_status, TeammateTaskState, TaskState,
  teammate_task, base_of, type_of, TeammateArgs, Signals, create_teammate_task,
}
use flopsy.Task.Transitions.{
  TransitionResult, ok, refused, to_running, to_idle, to_terminal, TerminalStatus,
}

-- One accepted call of a transition helper.
pub data Step : TaskState → TaskState → Type 0 where
  run : (t u : TaskState) → to_running t ≡ ok u → Step t u
  rest :
      (t u : TeammateTaskState) (result : Option Text)
      → to_idle t result ≡ ok u
      → Step (teammate_task t) (teammate_task u)
  end :
      (t u : TaskState) (status : TerminalStatus) (result error : Option Text) (now : ℕ)
      → to_terminal t status result error now ≡ ok u
      → Step t u

pub data Reach (t : TaskState) : TaskState → Type 0 where
  here : Reach t t
  next : {u v : TaskState} → Reach t u → Step u v → Reach t v

-- The status graph that the comments of the source draw.
pub data Edge : TaskStatus → TaskStatus → Type 0 where
  start : Edge pending running
  wake : Edge idle running
  settle : Edge running idle
  close : (s t : TaskStatus) → is_terminal_status s ≡ false → is_terminal_status t ≡ true → Edge s t

abbrev pub status_of : TaskState → TaskStatus
status_of t = (base_of t).status

run-Edge : (t u : TaskState) → to_running t ≡ ok u → Edge (status_of t) (status_of u)
unfolding to_running
run-Edge t u h = grind (arith, start, wake)

rest-Edge :
    (t u : TeammateTaskState) (r : Option Text)
    → to_idle t r ≡ ok u
    → Edge t.base.status u.base.status
unfolding to_idle
rest-Edge t u r h = grind (arith, settle)

end_statuses :
    (t u : TaskState) (s : TerminalStatus) (r e : Option Text) (now : ℕ)
    → to_terminal t s r e now ≡ ok u
    → (is_terminal_status (status_of t) ≡ false) × (is_terminal_status (status_of u) ≡ true)
unfolding to_terminal
end_statuses t u s r e now h = ground arith

-- Every accepted transition follows an edge of the status graph.
pub Step-Edge : {t u : TaskState} → Step t u → Edge (status_of t) (status_of u)
unfolding base_of
Step-Edge (run t u h) = run-Edge t u h
Step-Edge (rest t u r h) = rest-Edge t u r h
Step-Edge (end t u s r e now h) =
    let (a, b) = end_statuses t u s r e now h in close (status_of t) (status_of u) a b

unfoldable pub lifted : TransitionResult TeammateTaskState → TransitionResult TaskState
lifted (ok t) = ok (teammate_task t)
lifted (refused reason t) = refused reason (teammate_task t)

-- One call of a transition helper, accepted or refused, with its result.
pub data Called : TaskState → TransitionResult TaskState → Type 0 where
  ask_run : (t : TaskState) (r : TransitionResult TaskState) → to_running t ≡ r → Called t r
  ask_rest :
      (t : TeammateTaskState) (result : Option Text) (r : TransitionResult TaskState)
      → lifted (to_idle t result) ≡ r
      → Called (teammate_task t) r
  ask_end :
      (t : TaskState) (status : TerminalStatus) (result error : Option Text) (now : ℕ)
      (r : TransitionResult TaskState)
      → to_terminal t status result error now ≡ r
      → Called t r

-- The task that the result carries, which the caller goes on with.
abbrev pub task_of : TransitionResult TaskState → TaskState
task_of (ok t) = t
task_of (refused reason t) = t

abbrev pub is_refused : TransitionResult TaskState → Bool
is_refused (ok t) = false
is_refused (refused reason t) = true

-- Any calls, each on the task that the one before it returned.
pub data Calls (t : TaskState) : TaskState → Type 0 where
  none_yet : Calls t t
  then :
      {u : TaskState}
      → Calls t u
      → (r : TransitionResult TaskState) → Called u r
      → Calls t (task_of r)

refused-same :
    {u : TaskState} (r : TransitionResult TaskState)
    → Called u r
    → is_refused r ≡ true
    → task_of r ≡ u
unfolding to_running to_idle to_terminal lifted
refused-same _ (ask_run t r h) k = ground (arith, h, k)
refused-same _ (ask_rest t result r h) k = ground (arith, h, k)
refused-same _ (ask_end t s result e now r h) k = ground (arith, h, k)

terminal-refused :
    {u : TaskState} (r : TransitionResult TaskState)
    → Called u r
    → is_terminal_status (status_of u) ≡ true
    → is_refused r ≡ true
unfolding to_running to_idle to_terminal lifted is_terminal_status base_of
terminal-refused _ (ask_run t r h) k = ground (arith, h, k)
terminal-refused _ (ask_rest t result r h) k = ground (arith, h, k)
terminal-refused _ (ask_end t s result e now r h) k = ground (arith, h, k)

Calls-same : {t u : TaskState} → Calls t u → is_terminal_status (status_of t) ≡ true → u ≡ t
Calls-same none_yet h = refl
Calls-same {t} (then {u} cs r called) h =
    let same = Calls-same cs h in
    let over : is_terminal_status (status_of u) ≡ true = rw same h in
    refused-same r called (terminal-refused r called over) ∙ same

-- After any calls of the transition helpers, accepted and refused ones in any order: one more call
-- that is refused returns the task as it was; a task in a terminal status refuses every call; and if
-- the task was completed, failed or killed before the first of the calls, then after all of them the
-- record is still the same.
pub Calls-terminal :
    {t u : TaskState}
    → Calls t u
    → (r : TransitionResult TaskState) → Called u r
    → (is_refused r ≡ true → task_of r ≡ u)
      × (is_terminal_status (status_of u) ≡ true → is_refused r ≡ true)
      × (is_terminal_status (status_of t) ≡ true → task_of r ≡ t)
Calls-terminal cs r called =
    (refused-same r called, terminal-refused r called, Calls-same (then cs r called))

-- `endedAt` is set exactly in the terminal statuses.
pub record IsTimed (t : TaskState) : Type 0 where
  pub live_open : is_terminal_status (status_of t) ≡ false → (base_of t).ended_at ≡ none
  pub done_closed :
      is_terminal_status (status_of t) ≡ true → (now : ℕ) × ((base_of t).ended_at ≡ some now)

-- What a transition leaves alone.
pub record Keeps (t u : TaskState) : Type 0 where
  pub same_type : type_of u ≡ type_of t
  pub same_id : (base_of u).id ≡ (base_of t).id
  pub same_created : (base_of u).created_at ≡ (base_of t).created_at
  pub same_pair : (base_of u).abort_pair ≡ (base_of t).abort_pair
  pub same_notified : (base_of u).notified ≡ (base_of t).notified

Step-Keeps : {t u : TaskState} → Step t u → Keeps t u
unfolding to_running to_idle to_terminal type_of base_of
Step-Keeps (run t u h) = ground arith
Step-Keeps (rest t u r h) = ground arith
Step-Keeps (end t u s r e now h) = ground arith

run-IsTimed : (t u : TaskState) → to_running t ≡ ok u → IsTimed t → IsTimed u
unfolding to_running is_terminal_status
run-IsTimed t u h k = record { live_open = ground (arith, k); done_closed = ground (arith, k) }

rest-IsTimed :
    (t u : TeammateTaskState) (r : Option Text)
    → to_idle t r ≡ ok u
    → IsTimed (teammate_task t)
    → IsTimed (teammate_task u)
unfolding to_idle is_terminal_status base_of
rest-IsTimed t u r h k = record { live_open = ground (arith, k); done_closed = ground (arith, k) }

end-IsTimed :
    (t u : TaskState) (s : TerminalStatus) (r e : Option Text) (now : ℕ)
    → to_terminal t s r e now ≡ ok u
    → IsTimed u
unfolding to_terminal
end-IsTimed t u s r e now h = record {
  live_open = ground arith;
  done_closed = λ _. (now, ground arith);
}

Step-IsTimed : {t u : TaskState} → Step t u → IsTimed t → IsTimed u
Step-IsTimed (run t u h) k = run-IsTimed t u h k
Step-IsTimed (rest t u r h) k = rest-IsTimed t u r h k
Step-IsTimed (end t u s r e now h) k = end-IsTimed t u s r e now h

Keeps-trans : {t u v : TaskState} → Keeps t u → Keeps u v → Keeps t v
Keeps-trans a b = ground arith

Reach-Keeps : {t u : TaskState} → Reach t u → Keeps t u
Reach-Keeps here = ground arith
Reach-Keeps (next r s) = Keeps-trans (Reach-Keeps r) (Step-Keeps s)

Reach-IsTimed : {t u : TaskState} → IsTimed t → Reach t u → IsTimed u
Reach-IsTimed k here = k
Reach-IsTimed k (next r s) = Step-IsTimed s (Reach-IsTimed k r)

create-IsTimed :
    (args : TeammateArgs) (now : ℕ) (bytes : List ℕ) (s : Signals)
    → IsTimed (teammate_task (create_teammate_task args now bytes s).0)
unfolding create_teammate_task base_of is_terminal_status
create-IsTimed args now bytes s = record { live_open = λ _. refl; done_closed = λ h. cc }

-- Through any sequence of transitions after its creation a teammate task has an `endedAt` exactly
-- while its status is completed, failed or killed, and keeps its type, its id, its creation time,
-- its abort controllers and its `notified` flag.
pub teammate_life :
    (args : TeammateArgs) (now : ℕ) (bytes : List ℕ) (s : Signals) (u : TaskState)
    → let t = teammate_task (create_teammate_task args now bytes s).0 in
      Reach t u → IsTimed u × Keeps t u
teammate_life args now bytes s u r =
    (Reach-IsTimed (create-IsTimed args now bytes s) r, Reach-Keeps r)
