-- ===== src/HookRegistry/Examples.antt =====
-- Runs of hooks over a list of what was done.
use flopsy.Prelude.{◌≡◌, refl, Option, none, some, List, [], ◌∷◌, Text, codes, returned, thrown}
use flopsy.HookRegistry.{
  HookResult, with_context, RegisteredHook, ts, script, exited, matching, emit_await,
}
use flopsy.HookRegistry.Blocking.{Explains, emit_await-Explains}

-- Hooks that note their names.
abbrev noting : Text → Option HookResult → RegisteredHook (List Text)
noting name result = record {
  id = name;
  events = codes "memory.*" ∷ [];
  kind = ts (λ event ctx s. (returned result, name ∷ s));
}

abbrev failing : RegisteredHook (List Text)
failing = record {
  id = codes "f";
  events = codes "memory.fact.ingested" ∷ [];
  kind = ts (λ event ctx s. (thrown tt, codes "f" ∷ s));
}

abbrev blocking_script : RegisteredHook (List Text)
blocking_script = record {
  id = codes "b";
  events = codes "memory.*" ∷ [];
  kind = script (λ event ctx s. (exited 1 (codes " no "), codes "b" ∷ s));
}

abbrev hooks : List (RegisteredHook (List Text))
hooks =
    noting (codes "a") (some (with_context (codes "hint")))
    ∷ failing
    ∷ blocking_script
    ∷ noting (codes "z") none
    ∷ []

abbrev ingested : Text
ingested = codes "memory.fact.ingested"

blocked_by_script : emit_await 7 ingested [] hooks [] ≡ (
  record { blocked = some (codes "b", some (codes "no")); contexts = codes "hint" ∷ [] },
  codes "b" ∷ codes "f" ∷ codes "a" ∷ [],
)
unfolding emit_await
blocked_by_script = refl

emit_await-Explains_example :
    Explains ingested
      (record { event_type = ingested; fired_at = 7; rest = [] })
      (matching ingested hooks)
      []
      []
      (emit_await 7 ingested [] hooks []).0.blocked
      (emit_await 7 ingested [] hooks []).0.contexts
      (emit_await 7 ingested [] hooks []).1
emit_await-Explains_example = emit_await-Explains 7 ingested [] hooks []
