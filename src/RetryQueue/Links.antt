-- ===== src/RetryQueue/Links.antt =====
-- src/gateway/src/proactive/state/retry-queue.ts: when the list of a queue and its index agree, and
-- what assignments and removals keep of it.
use flopsy.Prelude.{
  ℕ, ◌≤◌, ◌<◌, ◌≡◌, refl, Bool, true, false, not, ◌&&◌, ◌||◌, some, List, [], ◌∷◌, ◌++◌, arith,
  ◌==◌, ==_iff, length, keep, length-keep-le, Text, str_eq, str_eq_iff,
}
use flopsy.Prelude.JsMap
use flopsy.Prelude.JsMap.{JsMap}
use flopsy.RetryQueue.{
  max_queue_size, retry_max_attempts, RetryTask, RetryQueue, assign, persist, forget,
}

abbrev pub holds : ℕ → List ℕ → Bool
holds r [] = false
holds r (x ∷ xs) = (x == r) || holds r xs

abbrev pub NoRepeat : List ℕ → Type 0
NoRepeat [] = Unit {0}
NoRepeat (x ∷ xs) = (holds x xs ≡ false) × NoRepeat xs

pub holds-append : (r x : ℕ) (xs : List ℕ) → holds r (xs ++ x ∷ []) ≡ (holds r xs || (x == r))
holds-append r x [] = ground arith
holds-append r x (y ∷ xs) = ground (arith, holds-append r x xs)

pub holds-keep : (r : ℕ) (p : ℕ → Bool) (xs : List ℕ) → holds r (keep p xs) ≡ (holds r xs && p r)
holds-keep r p [] = refl
holds-keep r p (x ∷ xs) = ground (arith, holds-keep r p xs, ==_iff x r)

pub NoRepeat-append :
    (x : ℕ) (xs : List ℕ) → NoRepeat xs → holds x xs ≡ false → NoRepeat (xs ++ x ∷ [])
NoRepeat-append x [] n h = ground arith
NoRepeat-append x (y ∷ xs) n h = (
  ground (arith, h, n.0, holds-append y x xs, ==_iff x y),
  NoRepeat-append x xs n.1 (ground (arith, h)),
)

NoRepeat-keep : (p : ℕ → Bool) (xs : List ℕ) → NoRepeat xs → NoRepeat (keep p xs)
NoRepeat-keep p [] n = tt
NoRepeat-keep p (x ∷ xs) n = ground (arith, n.0, NoRepeat-keep p xs n.1, holds-keep x p xs)

module _ {M J : Type 0} where
  -- The list and the index hold the same tasks, each id once.
  pub record IsLinked (q : RetryQueue M J) : Type 0 where
    pub fresh : (r : ℕ) → holds r q.tasks ≡ true → r < q.next_ref
    pub indexed : (r : ℕ) → holds r q.tasks ≡ true → JsMap.get (q.heap r).id q.index ≡ some r
    pub listed :
        (id : Text) (r : ℕ)
        → JsMap.get id q.index ≡ some r
        → (holds r q.tasks ≡ true) × ((q.heap r).id ≡ id)
    pub once : NoRepeat q.tasks
    pub bounded : length q.tasks ≤ max_queue_size

  abbrev pub HasAttempts : RetryTask M J → Type 0
  HasAttempts t = (t.max_attempts ≡ retry_max_attempts) × (t.attempts < retry_max_attempts)

  pub record IsSound (q : RetryQueue M J) : Type 0 where
    pub linked : IsLinked q
    pub unspent : (r : ℕ) → holds r q.tasks ≡ true → HasAttempts (q.heap r)

  pub assign-IsLinked :
      (ref : ℕ) (change : RetryTask M J → RetryTask M J) (q : RetryQueue M J)
      → IsLinked q
      → (change (q.heap ref)).id ≡ (q.heap ref).id
      → IsLinked (record q { heap = assign ref change q.heap })
  unfolding assign
  assign-IsLinked ref change q s i = record {
    fresh = s.fresh;
    indexed = λ r h. ground (arith, i, s.indexed r h, ==_iff r ref);
    listed = λ id r h. ((s.listed id r h).0, ground (arith, i, (s.listed id r h).1, ==_iff r ref));
    once = s.once;
    bounded = s.bounded;
  }

  pub persist-IsSound : (q : RetryQueue M J) → IsSound q → IsSound (persist q)
  unfolding persist
  persist-IsSound q s = record {
    linked = record {
      fresh = s.linked.fresh;
      indexed = s.linked.indexed;
      listed = s.linked.listed;
      once = s.linked.once;
      bounded = s.linked.bounded;
    };
    unspent = s.unspent;
  }

  pub forget-IsLinked : (id : Text) (q : RetryQueue M J) → IsLinked q → IsLinked (forget id q)
  unfolding forget
  forget-IsLinked id q s =
      let others = λ (r : ℕ). not (str_eq (q.heap r).id id) in
      record {
        fresh = λ r h. s.fresh r (ground (arith, h, holds-keep r others q.tasks));
        indexed = λ r h. ground (
          arith,
          h,
          holds-keep r others q.tasks,
          s.indexed r,
          JsMap.get-delete id (q.heap r).id q.index,
          str_eq_iff id (q.heap r).id,
          str_eq_iff (q.heap r).id id,
        );
        listed = λ j r h. ground (
          arith,
          h,
          JsMap.get-delete id j q.index,
          s.listed j r,
          holds-keep r others q.tasks,
          str_eq_iff id j,
          str_eq_iff (q.heap r).id id,
        );
        once = NoRepeat-keep others q.tasks s.once;
        bounded = omega (arith, s.bounded, length-keep-le others q.tasks);
      }

  -- What is left after an id is forgotten: the tasks with another id.
  pub holds-forget :
      (id : Text) (q : RetryQueue M J) (r : ℕ)
      → holds r (forget id q).tasks ≡ (holds r q.tasks && not (str_eq (q.heap r).id id))
  unfolding forget
  holds-forget id q r = holds-keep r (λ r. not (str_eq (q.heap r).id id)) q.tasks
