-- ===== src/HookRegistry/Blocking.antt =====
-- src/gateway/src/hooks/registry.ts: which hooks run, and what a block does.
use flopsy.Prelude.{
  ℕ, ◌≡◌, refl, ap, inl, inr, Option, none, some, List, [], ◌∷◌, ◌++◌, Option-cases, Text,
}
use flopsy.Prelude.JsMap.{JsMap}
use flopsy.HookRegistry.{
  HookContext, RegisteredHook, matching, run_one, add_context, block_of, unless_blocked, run_hooks,
  emit_await,
}

module _ {S : Type 0} where
  -- What hooks leave and what they add to the contexts, when all of them run.
  abbrev pub run_all : Text → HookContext → List (RegisteredHook S) → List Text → S → List Text × S
  run_all event ctx [] contexts s = (contexts, s)
  run_all event ctx (h ∷ hs) contexts s =
      let (result, s') = run_one event ctx h s in
      run_all event ctx hs (add_context result contexts) s'

  -- No hook blocks, when they run in turn.
  abbrev pub NoneBlocks : Text → HookContext → List (RegisteredHook S) → S → Type 0
  NoneBlocks event ctx [] s = Unit
  NoneBlocks event ctx (h ∷ hs) s =
      (block_of (run_one event ctx h s).0 ≡ none)
      × NoneBlocks event ctx hs (run_one event ctx h s).1

  -- The result says that no hook blocked, or which was the first to block, and the handlers that were
  -- run are those up to it.
  pub Explains :
      Text
      → HookContext
      → List (RegisteredHook S)
      → List Text
      → S
      → Option (Text × Option Text)
      → List Text
      → S
      → Type 0
  Explains event ctx hooks contexts s none contexts' s' =
      NoneBlocks event ctx hooks s × (run_all event ctx hooks contexts s ≡ (contexts', s'))
  Explains event ctx hooks contexts s (some (id, message)) contexts' s' =
      (before : List (RegisteredHook S)) × (h : RegisteredHook S) × (after : List
        (RegisteredHook S))
      × (hooks ≡ before ++ h ∷ after)
      × NoneBlocks event ctx before s
      × (h.id ≡ id)
      × ((run_all event ctx before contexts s).0 ≡ contexts')
      × (block_of (run_one event ctx h (run_all event ctx before contexts s).1).0 ≡ some message)
      × ((run_one event ctx h (run_all event ctx before contexts s).1).1 ≡ s')

  Explains-later :
      (event : Text) (ctx : HookContext) (h : RegisteredHook S) (hs : List (RegisteredHook S))
      (contexts : List Text) (s : S) (b : Option (Text × Option Text)) (contexts' : List Text)
      (s' : S)
      → block_of (run_one event ctx h s).0 ≡ none
      → Explains event ctx hs
          (add_context (run_one event ctx h s).0 contexts)
          (run_one event ctx h s).1
          b
          contexts'
          s'
      → Explains event ctx (h ∷ hs) contexts s b contexts' s'
  unfolding Explains
  Explains-later event ctx h hs contexts s none contexts' s' passes e = ((passes, e.0), e.1)
  Explains-later event ctx h hs contexts s (some (id, message)) contexts' s' passes e =
      let (before, k, after, split, quiet, same, given, blocks, left) = e in
      (h ∷ before, k, after, ap (λ l. h ∷ l) split, (passes, quiet), same, given, blocks, left)

  run_hooks-Explains :
      (event : Text) (ctx : HookContext) (hooks : List (RegisteredHook S)) (contexts : List Text)
      (s : S)
      → Explains event ctx hooks contexts s
          (run_hooks event ctx hooks contexts s).0.blocked
          (run_hooks event ctx hooks contexts s).0.contexts
          (run_hooks event ctx hooks contexts s).1
  unfolding run_hooks Explains
  run_hooks-Explains event ctx [] contexts s = (tt, refl)
  run_hooks-Explains event ctx (h ∷ hs) contexts s =
      let result = (run_one event ctx h s).0 in
      let s' = (run_one event ctx h s).1 in
      let rest = run_hooks event ctx hs (add_context result contexts) s' in
      elim (Option-cases (block_of result)) [
        | inl passes ↦ rw passes (
            unfold unless_blocked in
            (Explains-later event ctx h hs contexts s rest.0.blocked rest.0.contexts rest.1 passes
              (run_hooks-Explains event ctx hs (add_context result contexts) s')))
        | inr (message, blocks) ↦
            rw blocks (unfold unless_blocked in ([], h, hs, refl, tt, refl, refl, blocks, refl))
      ]

  -- An awaited event runs the hooks that match it in the order of registration, up to the first that
  -- blocks. That one is reported with its message, no later hook acts, and the contexts are those of
  -- the hooks before it. If none is reported, all of them ran and none blocked.
  pub emit_await-Explains :
      (now : ℕ) (event : Text) (context : JsMap Text) (hooks : List (RegisteredHook S)) (s : S)
      → Explains event
          (record { event_type = event; fired_at = now; rest = context })
          (matching event hooks)
          []
          s
          (emit_await now event context hooks s).0.blocked
          (emit_await now event context hooks s).0.contexts
          (emit_await now event context hooks s).1
  unfolding emit_await
  emit_await-Explains now event context hooks s =
      run_hooks-Explains event (record { event_type = event; fired_at = now; rest = context })
        (matching event hooks) [] s
