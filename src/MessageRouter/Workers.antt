-- ===== src/MessageRouter/Workers.antt =====
-- src/gateway/src/core/message-router.ts: which worker a name finds.
use flopsy.Prelude.{
  ◌≤◌, ◌≡◌, refl, ◌≢◌, ◌⊎◌, inl, inr, true, false, Option, none, some, [], ◌∷◌, arith, ltb, ltb→lt,
  Bool-cases, Option-cases, All, Text,
}
use flopsy.Prelude.JsMap
use flopsy.Prelude.JsMap.{JsMap}
use mathlib.Core.List.{Memᴰ}
use flopsy.RoutingKey.{key_belongs_to_channel}
use flopsy.MessageRouter.{WorkerOps, MessageRouter, more_active, most_recent, exact_or, get_worker}

module _ {C W M : Type 0} (ops : WorkerOps C W M) where
  abbrev AtMost : W → Option (Text × W) → Type 0
  AtMost w none = Unit
  AtMost w (some x) = ops.last_active_at w ≤ ops.last_active_at x.1

  abbrev Above : Option (Text × W) → Text × W → Type 0
  Above none x = Unit
  Above (some y) x = ops.last_active_at y.1 ≤ ops.last_active_at x.1

  -- No worker of the channel was active later.
  abbrev pub NoneLater : Text → JsMap W → W → Type 0
  NoneLater name m w =
      All
        (λ e.
          key_belongs_to_channel e.0 name ≡ true → ops.last_active_at e.1 ≤ ops.last_active_at w)
        m

  abbrev pub NoneThere : Text → JsMap W → Type 0
  NoneThere name m = All (λ e. key_belongs_to_channel e.0 name ≡ false) m

  IsBest : Text → Option (Text × W) → JsMap W → Option (Text × W) → Type 0
  IsBest name best m none = (best ≡ none) × NoneThere name m
  IsBest name best m (some x) =
      Above best x
      × NoneLater name m x.1
      × ((best ≡ some x) ⊎ (Memᴰ x m × (key_belongs_to_channel x.0 name ≡ true)))

  IsBest-skip :
      (name k : Text) (w : W) (best res : Option (Text × W)) (m : JsMap W)
      → key_belongs_to_channel k name ≡ false
      → IsBest name best m res
      → IsBest name best ((k, w) ∷ m) res
  unfolding IsBest
  IsBest-skip name k w best none m miss h = (h.0, (miss, h.1))
  IsBest-skip name k w best (some x) m miss h =
      (h.0, (λ e. cc, h.1), elim h.2 [ inl same ↦ inl same | inr p ↦ inr (Memᴰ.tail p.0, p.1) ])

  Above-more_active :
      (best : Option (Text × W)) (k : Text) (w : W) (x : Text × W)
      → Above (more_active ops best k w) x
      → Above best x × (ops.last_active_at w ≤ ops.last_active_at x.1)
  unfolding more_active
  Above-more_active none k w x h = (tt, h)
  Above-more_active (some (j, v)) k w x h =
      elim (Bool-cases (ltb (ops.last_active_at v) (ops.last_active_at w))) [
        | inl later ↦
            let le : ops.last_active_at w ≤ ops.last_active_at x.1 = ground (arith, h, later) in
            (ground (arith, ltb→lt (ops.last_active_at v) (ops.last_active_at w) later, le), le)
        | inr earlier ↦
            let le : ops.last_active_at v ≤ ops.last_active_at x.1 = ground (arith, h, earlier) in
            (le, ground (arith, le, earlier))
      ]

  more_active-of :
      (best : Option (Text × W)) (k : Text) (w : W) (x : Text × W)
      → more_active ops best k w ≡ some x
      → (best ≡ some x) ⊎ (x ≡ (k, w))
  unfolding more_active
  more_active-of none k w x h = inr (cc)
  more_active-of (some (j, v)) k w x h =
      elim (Bool-cases (ltb (ops.last_active_at v) (ops.last_active_at w))) [
        | inl later ↦ let p : some (k, w) ≡ some x = ground (arith, h, later) in inr (cc)
        | inr earlier ↦ let p : some (j, v) ≡ some x = ground (arith, h, earlier) in inl p
      ]

  more_active-some : (best : Option (Text × W)) (k : Text) (w : W) → more_active ops best k w ≢ none
  unfolding more_active
  more_active-some none k w h = cc
  more_active-some (some (j, v)) k w h =
      elim (Bool-cases (ltb (ops.last_active_at v) (ops.last_active_at w))) [
        | inl later ↦
            let e : Text × W = (k, w) in let p : some e ≡ none = ground (arith, h, later) in cc
        | inr earlier ↦
            let e : Text × W = (j, v) in let p : some e ≡ none = ground (arith, h, earlier) in cc
      ]

  IsBest-take :
      (name k : Text) (w : W) (best res : Option (Text × W)) (m : JsMap W)
      → key_belongs_to_channel k name ≡ true
      → IsBest name (more_active ops best k w) m res
      → IsBest name best ((k, w) ∷ m) res
  unfolding IsBest
  IsBest-take name k w best none m hit h = elim (more_active-some best k w h.0) [ ]
  IsBest-take name k w best (some x) m hit h =
      let (above, le) = Above-more_active best k w x h.0 in
      (
        above,
        (λ e. le, h.1),
        elim h.2 [
          | inl new ↦ elim (more_active-of best k w x new) [
            | inl old ↦ inl old
            | inr same ↦ inr (rw same (Memᴰ.head refl, hit))
          ]
          | inr p ↦ inr (Memᴰ.tail p.0, p.1)
        ],
      )

  most_recent-IsBest :
      (name : Text) (best : Option (Text × W)) (m : JsMap W)
      → IsBest name best m (most_recent ops name best m)
  unfolding most_recent IsBest
  most_recent-IsBest name none [] = (refl, tt)
  most_recent-IsBest name (some x) [] = (omega arith, tt, inl refl)
  most_recent-IsBest name best ((k, w) ∷ m) = elim (Bool-cases (key_belongs_to_channel k name)) [
    | inl hit ↦ rw hit (
        IsBest-take name k w best (most_recent ops name (more_active ops best k w) m) m hit
          (most_recent-IsBest name (more_active ops best k w) m))
    | inr miss ↦ rw miss (
        IsBest-skip name k w best (most_recent ops name best m) m miss
          (most_recent-IsBest name best m))
  ]

  -- What getWorker has to find, by its result.
  pub Chosen : Text → MessageRouter C W M → Option (Text × W) → Type 0
  Chosen name r none = (JsMap.get name r.workers ≡ none) × NoneThere name r.workers
  Chosen name r (some x) =
      ((x.0 ≡ name) × (JsMap.get name r.workers ≡ some x.1))
      ⊎ ((JsMap.get name r.workers ≡ none)
          × Memᴰ x r.workers
          × (key_belongs_to_channel x.0 name ≡ true)
          × NoneLater name r.workers x.1)

  most_recent-Chosen :
      (name : Text) (r : MessageRouter C W M) (res : Option (Text × W))
      → JsMap.get name r.workers ≡ none
      → IsBest name none r.workers res
      → Chosen name r res
  unfolding IsBest Chosen
  most_recent-Chosen name r none e h = (e, h.1)
  most_recent-Chosen name r (some x) e h = elim h.2 [
    | inl absurd ↦ cc
    | inr p ↦ inr (e, p.0, p.1, h.1)
  ]

  -- A name finds the worker whose key it is. If it is no key, it finds a worker of the channel of
  -- that name than which no other of the channel was active later, and none only if the channel has
  -- no worker.
  pub get_worker-Chosen :
      (name : Text) (r : MessageRouter C W M) → Chosen name r (get_worker ops name r)
  unfolding get_worker exact_or Chosen
  get_worker-Chosen name r = elim (Option-cases (JsMap.get name r.workers)) [
    | inl missing ↦ rw missing (
        most_recent-Chosen name r (most_recent ops name none r.workers) missing
          (most_recent-IsBest name none r.workers))
    | inr (w, found) ↦ rw found (inl (refl, found))
  ]
