-- ===== src/HookRegistry.antt =====
-- src/gateway/src/hooks/registry.ts (HookRegistry). A handler acts on a state S that all share, and
-- answers or throws; a script is what its process ends with and what it wrote.
pub mod Blocking
pub mod Batches
mod Examples
use flopsy.Prelude.{
  ℕ, zero, suc, ◌-◌, Bool, true, false, Option, none, some, List, [], ◌∷◌, ◌++◌, ◌==◌,
  if◌then◌else◌, length, take, drop, keep, Text, codes, str_eq, starts_with, trim, Outcome,
  returned, thrown,
}
use flopsy.Prelude.JsMap.{JsMap}
use flopsy.Prelude.Substrings.{ends_with, some_of}

abbrev pub max_concurrent_handlers : ℕ
max_concurrent_handlers = 8

pub data HookResult : Type 0 where
  block : Option Text → HookResult
  with_context : Text → HookResult

pub record HookContext : Type 0 where
  pub event_type : Text
  pub fired_at : ℕ
  pub rest : JsMap Text

-- How the process of a script ends: its exit code and its output, or an error of starting it.
pub data ScriptEnd : Type 0 where
  exited : ℕ → Text → ScriptEnd
  spawn_error : ScriptEnd

-- A handler that throws leaves what it did.
pub data HookKind (S : Type 0) : Type 0 where
  ts : (Text → HookContext → S → Outcome (Unit {0}) (Option HookResult) × S) → HookKind S
  script : (Text → HookContext → S → ScriptEnd × S) → HookKind S
  unloaded : HookKind S

pub record RegisteredHook (S : Type 0) : Type 0 where
  pub id : Text
  pub events : List Text
  pub kind : HookKind S

pub record HookAggregate : Type 0 where
  pub blocked : Option (Text × Option Text)
  pub contexts : List Text

unfoldable pub matches_event : Text → Text → Bool
unfolding str_eq starts_with ends_with
matches_event subscribed fired =
    if str_eq subscribed fired
    then true
    else if ends_with subscribed (codes ".*")
    then starts_with fired (take (length subscribed - 1) subscribed)
    else false

message_of : Text → Option Text
message_of [] = none
message_of (x ∷ xs) = some (x ∷ xs)

context_of : Text → Option HookResult
context_of [] = none
context_of (x ∷ xs) = some (with_context (x ∷ xs))

unfoldable pub script_result : ScriptEnd → Option HookResult
unfolding message_of context_of trim
script_result spawn_error = none
script_result (exited code stdout) =
    if code == 0
    then none
    else if code == 1
    then some (block (message_of (trim stdout)))
    else if code == 2
    then context_of (trim stdout)
    else none

-- A context that is not empty is added.
unfoldable pub add_context : Option HookResult → List Text → List Text
add_context none contexts = contexts
add_context (some (block message)) contexts = contexts
add_context (some (with_context [])) contexts = contexts
add_context (some (with_context (x ∷ xs))) contexts = contexts ++ (x ∷ xs) ∷ []

unfoldable pub block_of : Option HookResult → Option (Option Text)
block_of none = none
block_of (some (block message)) = some message
block_of (some (with_context c)) = none

module _ {S : Type 0} where
  unfoldable pub matching : Text → List (RegisteredHook S) → List (RegisteredHook S)
  unfolding some_of matches_event
  matching event hooks = keep (λ h. some_of (λ e. matches_event e event) h.events) hooks

  swallow : Outcome (Unit {0}) (Option HookResult) × S → Option HookResult × S
  swallow (returned result, s) = (result, s)
  swallow (thrown e, s) = (none, s)

  run_kind : Text → HookContext → HookKind S → S → Option HookResult × S
  unfolding swallow script_result
  run_kind event ctx (ts handler) s = swallow (handler event ctx s)
  run_kind event ctx (script run) s = let (end, s') = run event ctx s in (script_result end, s')
  run_kind event ctx unloaded s = (none, s)

  unfoldable pub run_one : Text → HookContext → RegisteredHook S → S → Option HookResult × S
  unfolding run_kind
  run_one event ctx hook s = run_kind event ctx hook.kind s

  -- A block ends the loop: what the later hooks would make of it is not the result.
  unless_blocked :
      Option (Option Text) → Text → List Text → S → HookAggregate × S → HookAggregate × S
  unless_blocked none id contexts s rest = rest
  unless_blocked (some message) id contexts s rest =
      (record { blocked = some (id, message); contexts = contexts }, s)

  unfoldable pub run_hooks :
      Text → HookContext → List (RegisteredHook S) → List Text → S → HookAggregate × S
  unfolding run_one add_context block_of unless_blocked
  run_hooks event ctx [] contexts s = (record { blocked = none; contexts = contexts }, s)
  run_hooks event ctx (h ∷ hs) contexts s =
      let (result, s') = run_one event ctx h s in
      unless_blocked (block_of result) h.id contexts s'
        (run_hooks event ctx hs (add_context result contexts) s')

  unfoldable pub emit_await :
      ℕ → Text → JsMap Text → List (RegisteredHook S) → S → HookAggregate × S
  unfolding matching run_hooks
  emit_await now event context hooks s =
      run_hooks event (record { event_type = event; fired_at = now; rest = context })
        (matching event hooks) [] s

  -- The batches of `slice(i, i + 8)`, on fuel; with as much as there are hooks it is enough.
  batches : ℕ → List (RegisteredHook S) → List (List (RegisteredHook S))
  batches zero hooks = []
  batches (suc fuel) [] = []
  batches (suc fuel) (h ∷ hs) =
      take max_concurrent_handlers (h ∷ hs) ∷ batches fuel (drop max_concurrent_handlers (h ∷ hs))

  -- The hooks that `emit` starts, batch after batch; those of a batch run side by side.
  unfoldable pub emit : Text → List (RegisteredHook S) → List (List (RegisteredHook S))
  unfolding batches matching
  emit event hooks = let found = matching event hooks in batches (length found) found
