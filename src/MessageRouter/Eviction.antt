-- ===== src/MessageRouter/Eviction.antt =====
-- src/gateway/src/core/message-router.ts: which workers a sweep and the end of a channel stop.
use flopsy.Prelude.{
  ℕ, ◌+◌, ◌≡◌, refl, sym, ap, ◌∙◌, inl, inr, Bool, false, ◌&&◌, Option, none, some, List, [], ◌∷◌,
  arith, ltb, if◌then◌else◌, Bool-cases, Text, str_eq, str_eq_iff,
}
use flopsy.Prelude.JsMap
use flopsy.Prelude.JsMap.{JsMap}
use flopsy.Prelude.Substrings.{some_of}
use flopsy.RoutingKey.{key_belongs_to_channel}
use flopsy.MessageRouter.{
  WorkerOps, MessageRouter, idle_ttl_ms, is_victim, keys_where, stop_and_delete, evict_keys,
  sweep_idle_workers, unregister_channel,
}

module _ {C W M : Type 0} (ops : WorkerOps C W M) where
  get-stop_and_delete :
      (j k : Text) (r : MessageRouter C W M) (o : Option W)
      → JsMap.get k r.workers ≡ o
      → JsMap.get j (stop_and_delete ops k o r).workers
        ≡ (if str_eq k j then none else JsMap.get j r.workers)
  unfolding stop_and_delete
  get-stop_and_delete j k r none h = elim (Bool-cases (str_eq k j)) [
    | inl same ↦ rw same (ap (λ i. JsMap.get i r.workers) (sym ((str_eq_iff k j).0 same)) ∙ h)
    | inr other ↦ rw other refl
  ]
  get-stop_and_delete j k r (some w) h = JsMap.get-delete k j r.workers

  get-evict_keys :
      (j : Text) (ks : List Text) (r : MessageRouter C W M)
      → JsMap.get j (evict_keys ops ks r).workers
        ≡ (if some_of (λ k. str_eq k j) ks then none else JsMap.get j r.workers)
  unfolding evict_keys some_of
  get-evict_keys j [] r = refl
  get-evict_keys j (k ∷ ks) r =
      let o : Option W = JsMap.get k r.workers in
      let rest = get-evict_keys j ks (stop_and_delete ops k o r) in
      let here = get-stop_and_delete j k r o refl in
      elim (Bool-cases (str_eq k j)) [
        | inl same ↦ ground (arith, rest, here, same)
        | inr other ↦ ground (arith, rest, here, other)
      ]

  abbrev holds_at : (Text → W → Bool) → Text → Option W → Bool
  holds_at p j none = false
  holds_at p j (some w) = p j w

  no_key :
      (p : Text → W → Bool) (j : Text) (m : JsMap W)
      → JsMap.get j m ≡ none
      → some_of (λ k. str_eq k j) (keys_where ops p m) ≡ false
  unfolding JsMap.get keys_where some_of
  no_key p j [] h = refl
  no_key p j ((k, w) ∷ m) h =
      let rest : JsMap.get j m ≡ none → some_of (λ i. str_eq i j) (keys_where ops p m) ≡ false =
        no_key p j m in
      ground (arith, h, rest)

  some_of-keys_where :
      (p : Text → W → Bool) (j : Text) (m : JsMap W)
      → JsMap.Distinct m
      → some_of (λ k. str_eq k j) (keys_where ops p m) ≡ holds_at p j (JsMap.get j m)
  unfolding JsMap.get keys_where some_of
  some_of-keys_where p j [] d = refl
  some_of-keys_where p j ((k, w) ∷ m) d = elim (Bool-cases (str_eq k j)) [
    | inl same ↦
        let e : k ≡ j = (str_eq_iff k j).0 same in
        let none_left = no_key p j m (ap (λ i. JsMap.get i m) (sym e) ∙ d.0) in
        elim (Bool-cases (p k w)) [
          | inl passes ↦ rw (passes, same) (sym (ap (λ i. p i w) (sym e) ∙ passes))
          | inr fails ↦ rw (fails, same) (none_left ∙ sym (ap (λ i. p i w) (sym e) ∙ fails))
        ]
    | inr other ↦
        let rest = some_of-keys_where p j m d.1 in
        elim (Bool-cases (p k w)) [
          | inl passes ↦ rw passes (rw other rest)
          | inr fails ↦ rw fails (rw other rest)
        ]
  ]

  abbrev pub unless : (W → Bool) → Option W → Option W
  unless p none = none
  unless p (some w) = if p w then none else some w

  if-holds_at :
      (p : Text → W → Bool) (j : Text) (o : Option W)
      → (if holds_at p j o then none else o) ≡ unless (p j) o
  if-holds_at p j none = refl
  if-holds_at p j (some w) = refl

  get-evict_where :
      (p : Text → W → Bool) (j : Text) (r : MessageRouter C W M)
      → JsMap.Distinct r.workers
      → JsMap.get j (evict_keys ops (keys_where ops p r.workers) r).workers
        ≡ unless (p j) (JsMap.get j r.workers)
  get-evict_where p j r d =
      get-evict_keys j (keys_where ops p r.workers) r
      ∙ ap (λ b. if b then none else JsMap.get j r.workers) (some_of-keys_where p j r.workers d)
      ∙ if-holds_at p j (JsMap.get j r.workers)

  -- A sweep removes the worker of a key exactly if it was last active strictly more than six hours ago and has
  -- nothing in flight, and the end of a channel exactly those whose keys belong to the channel. The
  -- workers are those of a Map, in which no key is twice.
  pub get-sweep_idle_workers-unregister_channel :
      (now : ℕ) (name key : Text) (r : MessageRouter C W M)
      → JsMap.Distinct r.workers
      → (JsMap.get key (sweep_idle_workers ops now r).1.workers
          ≡ unless
              (λ w. ltb (ops.last_active_at w + idle_ttl_ms) now && ops.is_idle w)
              (JsMap.get key r.workers))
        × (JsMap.get key (unregister_channel ops name r).workers
            ≡ unless (λ w. key_belongs_to_channel key name) (JsMap.get key r.workers))
  unfolding sweep_idle_workers unregister_channel is_victim
  get-sweep_idle_workers-unregister_channel now name key r d = (
    get-evict_where (λ k w. is_victim ops now w) key r d,
    get-evict_where (λ k w. key_belongs_to_channel k name) key r d,
  )
