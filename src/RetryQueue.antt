-- ===== src/RetryQueue.antt =====
-- src/gateway/src/proactive/state/retry-queue.ts: the failed deliveries and jobs that are tried
-- again. A task is an object that the list `tasks` and the map `index` share: it has a reference,
-- and `heap` gives the object of a reference. `Date.now()` is an argument, the file is the value
-- `saved`, what was written last, and the payloads of a task are parameters. The parsed file that
-- `load` gets is the list of the tasks whose `id` is a string; a missing `createdAt` counts as 0.
mod Examples
pub mod Links
pub mod Loads
pub mod Sound
use flopsy.Prelude.{
  ℕ, zero, suc, ◌+◌, ◌*◌, min, Bool, false, not, ◌&&◌, ◌||◌, Option, none, some, List, [], ◌∷◌,
  ◌++◌, map, ltb, leb, ◌==◌, if◌then◌else◌, length, keep, Text, str_eq,
}
use flopsy.Prelude.JsMap
use flopsy.Prelude.JsMap.{JsMap}

abbrev pub max_queue_size : ℕ
max_queue_size = 500

abbrev pub retry_max_attempts : ℕ
retry_max_attempts = 3

-- RETRY_BACKOFF_MS, at an index within its bounds.
abbrev pub retry_backoff_ms : ℕ → ℕ
retry_backoff_ms zero = 30_000
retry_backoff_ms (suc zero) = 120_000
retry_backoff_ms (suc (suc i)) = 600_000

abbrev day_ms : ℕ
day_ms = 24 * 60 * 60 * 1000

pub data TaskKind : Type 0 where
  delivery job : TaskKind

pub record RetryTask (M J : Type 0) : Type 0 where
  pub id : Text
  pub type : TaskKind
  pub message : Option M
  pub job_payload : Option J
  pub created_at : ℕ
  pub attempts : ℕ
  pub max_attempts : ℕ
  pub next_retry_at : ℕ
  pub last_error : Option Text

-- What a caller of `add` gives.
pub record NewTask (M J : Type 0) : Type 0 where
  pub id : Text
  pub type : TaskKind
  pub message : Option M
  pub job_payload : Option J

pub record RetryQueue (M J : Type 0) : Type 0 where
  pub heap : ℕ → RetryTask M J
  pub next_ref : ℕ
  pub tasks : List ℕ
  pub index : JsMap ℕ
  pub saved : Option (List (RetryTask M J))

abbrev pub or_else {ℓ} : {A : Type ℓ} → Option A → Option A → Option A
or_else none old = old
or_else (some a) old = some a

module _ {M J : Type 0} where
  unfoldable pub new_queue : RetryTask M J → RetryQueue M J
  new_queue blank = record { heap = λ r. blank; next_ref = 0; tasks = []; index = []; saved = none }

  -- Assignments to the fields of an object.
  unfoldable pub assign :
      ℕ → (RetryTask M J → RetryTask M J) → (ℕ → RetryTask M J) → ℕ → RetryTask M J
  assign ref change heap r = if r == ref then change (heap r) else heap r

  unfoldable pub persist : RetryQueue M J → RetryQueue M J
  persist q = record q { saved = some (map q.heap q.tasks) }

  update_from : NewTask M J → RetryTask M J → RetryTask M J
  update_from task old = record old {
    type = task.type;
    message = or_else task.message old.message;
    job_payload = or_else task.job_payload old.job_payload;
  }

  drop_oldest : List ℕ → RetryQueue M J → RetryQueue M J
  unfolding JsMap.delete
  drop_oldest [] q = q
  drop_oldest (r ∷ rs) q = record q { tasks = rs; index = JsMap.delete (q.heap r).id q.index }

  unfoldable pub make_room : RetryQueue M J → RetryQueue M J
  unfolding drop_oldest
  make_room q = if leb max_queue_size (length q.tasks) then drop_oldest q.tasks q else q

  unfoldable pub new_entry : ℕ → NewTask M J → RetryTask M J
  new_entry now task = record {
    id = task.id;
    type = task.type;
    message = task.message;
    job_payload = task.job_payload;
    created_at = now;
    attempts = 0;
    max_attempts = retry_max_attempts;
    next_retry_at = now + retry_backoff_ms 0;
    last_error = none;
  }

  unfoldable pub push_new : RetryTask M J → RetryQueue M J → RetryQueue M J
  unfolding assign JsMap.set
  push_new entry q = record q {
    heap = assign q.next_ref (λ _. entry) q.heap;
    next_ref = q.next_ref + 1;
    tasks = q.tasks ++ q.next_ref ∷ [];
    index = JsMap.set entry.id q.next_ref q.index;
  }

  unfoldable pub add_found : ℕ → NewTask M J → Option ℕ → RetryQueue M J → RetryQueue M J
  unfolding assign update_from make_room push_new new_entry persist
  add_found now task (some ref) q =
      persist (record q { heap = assign ref (update_from task) q.heap })
  add_found now task none q = persist (push_new (new_entry now task) (make_room q))

  unfoldable pub add : ℕ → NewTask M J → RetryQueue M J → RetryQueue M J
  unfolding add_found JsMap.get
  add now task q = add_found now task (JsMap.get task.id q.index) q

  unfoldable pub is_due : ℕ → RetryTask M J → Bool
  is_due now t = ltb t.attempts t.max_attempts && leb t.next_retry_at now

  unfoldable pub get_due_retries : ℕ → RetryQueue M J → List (RetryTask M J)
  unfolding is_due
  get_due_retries now q = keep (is_due now) (map q.heap q.tasks)

  -- `tasks.filter((t) => t.id !== id)` and `index.delete(id)`.
  unfoldable pub forget : Text → RetryQueue M J → RetryQueue M J
  unfolding JsMap.delete
  forget id q = record q {
    tasks = keep (λ r. not (str_eq (q.heap r).id id)) q.tasks;
    index = JsMap.delete id q.index;
  }

  count_attempt : Option Text → RetryTask M J → RetryTask M J
  count_attempt error t = record t { attempts = t.attempts + 1; last_error = error }

  back_off : ℕ → RetryTask M J → RetryTask M J
  back_off now t = record t { next_retry_at = now + retry_backoff_ms (min t.attempts 2) }

  unfoldable pub record_found :
      ℕ → Text → Bool → Option Text → Option ℕ → RetryQueue M J → Bool × RetryQueue M J
  unfolding assign count_attempt back_off forget persist
  record_found now id success error none q = (false, q)
  record_found now id success error (some ref) q =
      let q' = record q { heap = assign ref (count_attempt error) q.heap } in
      let task = q'.heap ref in
      if success || leb task.max_attempts task.attempts
      then (success, persist (forget id q'))
      else (success, persist (record q' { heap = assign ref (back_off now) q'.heap }))

  unfoldable pub record_attempt :
      ℕ → Text → Bool → Option Text → RetryQueue M J → Bool × RetryQueue M J
  unfolding record_found JsMap.get
  record_attempt now id success error q = record_found now id success error (JsMap.get id q.index) q

  unfoldable pub remove : Text → RetryQueue M J → RetryQueue M J
  unfolding forget persist JsMap.has
  remove id q = if JsMap.has id q.index then persist (forget id q) else q

  unfoldable pub size : RetryQueue M J → ℕ
  size q = length q.tasks

  load_tasks : List (RetryTask M J) → RetryQueue M J → RetryQueue M J
  unfolding push_new
  load_tasks [] q = q
  load_tasks (t ∷ ts) q = load_tasks ts (push_new t q)

  -- A file that is there and holds an array.
  unfoldable pub load : ℕ → List (RetryTask M J) → RetryQueue M J → RetryQueue M J
  unfolding load_tasks
  load now parsed q =
      load_tasks (keep (λ t. ltb now (t.created_at + day_ms)) parsed)
        (record q { tasks = []; index = [] })
