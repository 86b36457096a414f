-- ===== src/RetryQueue/Loads.antt =====
-- src/gateway/src/proactive/state/retry-queue.ts: the files that `load` reads, and that the queue writes
-- files of that kind.
use flopsy.Prelude.{
  ℕ, ◌≤◌, ◌≡◌, refl, inl, inr, Bool, true, false, ◌||◌, some, List, [], ◌∷◌, map, arith, ==_iff,
  Bool-cases, length, keep, All, length-keep-le, Text, str_eq, str_eq_iff,
}
use flopsy.Prelude.JsMap
use flopsy.Prelude.JsMap.{JsMap}
use flopsy.RetryQueue.{max_queue_size, RetryTask, RetryQueue}
use flopsy.RetryQueue.Links.{holds, NoRepeat, HasAttempts, IsSound}

module _ {M J : Type 0} where
  abbrev pub has_id : Text → List (RetryTask M J) → Bool
  has_id id [] = false
  has_id id (t ∷ ts) = str_eq t.id id || has_id id ts

  abbrev pub Distinct : List (RetryTask M J) → Type 0
  Distinct [] = Unit {0}
  Distinct (t ∷ ts) = (has_id t.id ts ≡ false) × Distinct ts

  -- A file with no id twice, no more tasks than a queue holds, and no task that is used up.
  pub record IsClean (ts : List (RetryTask M J)) : Type 0 where
    pub distinct : Distinct ts
    pub few : length ts ≤ max_queue_size
    pub usable : All HasAttempts ts

  has_id-keep :
      (p : RetryTask M J → Bool) (id : Text) (ts : List (RetryTask M J))
      → has_id id ts ≡ false
      → has_id id (keep p ts) ≡ false
  has_id-keep p id [] h = h
  has_id-keep p id (t ∷ ts) h = ground (arith, h, has_id-keep p id ts)

  Distinct-keep :
      (p : RetryTask M J → Bool) (ts : List (RetryTask M J)) → Distinct ts → Distinct (keep p ts)
  Distinct-keep p [] d = tt
  Distinct-keep p (t ∷ ts) d = elim (Bool-cases (p t)) [
    | inl kept ↦ rw kept (has_id-keep p t.id ts d.0, Distinct-keep p ts d.1)
    | inr gone ↦ rw gone (Distinct-keep p ts d.1)
  ]

  usable-keep :
      (p : RetryTask M J → Bool) (ts : List (RetryTask M J))
      → All HasAttempts ts
      → All HasAttempts (keep p ts)
  usable-keep p [] a = tt
  usable-keep p (t ∷ ts) a = elim (Bool-cases (p t)) [
    | inl kept ↦ rw kept (a.0, usable-keep p ts a.1)
    | inr gone ↦ rw gone (usable-keep p ts a.1)
  ]

  pub keep-IsClean :
      (p : RetryTask M J → Bool) (ts : List (RetryTask M J)) → IsClean ts → IsClean (keep p ts)
  keep-IsClean p ts c = record {
    distinct = Distinct-keep p ts c.distinct;
    few = omega (arith, c.few, length-keep-le p ts);
    usable = usable-keep p ts c.usable;
  }

  -- The tasks of a list whose ids an index maps to them.
  module _ (heap : ℕ → RetryTask M J) (index : JsMap ℕ) where
    other-ids :
        (x : ℕ) (xs : List ℕ)
        → holds x xs ≡ false
        → JsMap.get (heap x).id index ≡ some x
        → ((r : ℕ) → holds r xs ≡ true → JsMap.get (heap r).id index ≡ some r)
        → has_id (heap x).id (map heap xs) ≡ false
    other-ids x [] h e f = refl
    other-ids x (y ∷ ys) h e f =
        let rest = other-ids x ys (ground (arith, h)) e (λ r k. f r (ground (arith, k))) in
        ground (
          arith,
          h,
          e,
          rest,
          f y (ground (arith, ==_iff y y)),
          ==_iff y x,
          str_eq_iff (heap y).id (heap x).id,
        )

    Distinct-map :
        (xs : List ℕ)
        → NoRepeat xs
        → ((r : ℕ) → holds r xs ≡ true → JsMap.get (heap r).id index ≡ some r)
        → Distinct (map heap xs)
    Distinct-map [] n f = tt
    Distinct-map (x ∷ xs) n f = (
      other-ids x xs n.0 (f x (ground (arith, ==_iff x x))) (λ r k. f r (ground (arith, k))),
      Distinct-map xs n.1 (λ r k. f r (ground (arith, k))),
    )

    All-map :
        (xs : List ℕ)
        → ((r : ℕ) → holds r xs ≡ true → HasAttempts (heap r))
        → All HasAttempts (map heap xs)
    All-map [] f = tt
    All-map (x ∷ xs) f =
        (f x (ground (arith, ==_iff x x)), All-map xs (λ r k. f r (ground (arith, k))))

    length-map-heap : (xs : List ℕ) → length (map heap xs) ≡ length xs
    length-map-heap [] = refl
    length-map-heap (x ∷ xs) = omega (arith, length-map-heap xs)

  -- What a sound queue writes is a file that can be read again.
  pub written-IsClean : (q : RetryQueue M J) → IsSound q → IsClean (map q.heap q.tasks)
  written-IsClean q s = record {
    distinct = Distinct-map q.heap q.index q.tasks s.linked.once s.linked.indexed;
    few = omega (arith, s.linked.bounded, length-map-heap q.heap q.index q.tasks);
    usable = All-map q.heap q.index q.tasks s.unspent;
  }
