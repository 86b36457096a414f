-- ===== src/EventQueue/Order.antt =====
-- src/gateway/src/core/event-queue.ts: events keep their order and nobody waits beside an event.
use flopsy.Prelude.{
  ℕ, ◌+◌, ◌-◌, ◌≤◌, ◌<◌, ◌≡◌, refl, sym, ap, ◌∙◌, ◌⊎◌, inl, inr, Bool, true, false, not, ◌||◌,
  Option, none, some, List, [], ◌∷◌, ◌++◌, arith, ltb, leb, ◌==◌, if◌then◌else◌, ==_iff, Bool-cases,
  length, take, drop, keep, length-append,
}
use mathlib.Core.List.{append_assoc, append-nil}
use mathlib.Core.Path.{subst}
use flopsy.EventQueue.Promises.{
  waits, settled, timeouts, waits-snoc, waits-keep, is_waiting-waits, notified, untimed,
}
use flopsy.EventQueue.{
  Waiter, max_queued_events, EventQueue, new_queue, push, after_shift, try_dequeue, wait,
  wait_for_event, timer_fires, clear, is_waiting,
}

pub data Operation (E : Type 0) : Type 0 where
  pushing : E → Operation E
  dequeuing clearing : Operation E
  waiting firing : ℕ → Operation E

-- A queue, with the events that were pushed, those that were taken out and those that were lost, each
-- in order, and the promises whose timers fired. An event is lost if it is the oldest at a push into a
-- full queue, or queued at a `clear`.
pub record History (E : Type 0) : Type 0 where
  pub queue : EventQueue E
  pub pushed : List E
  pub taken : List E
  pub lost : List E
  pub fired : List ℕ

abbrev list_of : {E : Type 0} → Option E → List E
list_of none = []
list_of (some e) = e ∷ []

abbrev pub among : ℕ → List ℕ → Bool
among p [] = false
among p (x ∷ xs) = x == p || among p xs

module _ {E : Type 0} where
  -- What a push into a full queue drops, and what it keeps.
  abbrev pub dropped : List E → List E
  dropped queue = if leb max_queued_events (length queue) then take 1 queue else []

  unfoldable pub step : Operation E → History E → History E
  step (pushing e) h = record h {
    queue = push e h.queue;
    pushed = h.pushed ++ e ∷ [];
    lost = h.lost ++ dropped h.queue.queue;
  }
  step dequeuing h =
      let (e, q) = try_dequeue h.queue in record h { queue = q; taken = h.taken ++ list_of e }
  step clearing h = record h { queue = clear h.queue; lost = h.lost ++ h.queue.queue }
  step (waiting timeout) h = record h { queue = (wait_for_event timeout h.queue).1 }
  step (firing p) h = record h { queue = timer_fires p h.queue; fired = p ∷ h.fired }

  unfoldable pub run : List (Operation E) → History E → History E
  run [] h = h
  run (o ∷ os) h = run os (step o h)

  unfoldable pub start : History E
  start = record { queue = new_queue; pushed = []; taken = []; lost = []; fired = [] }

-- The third list has the entries of the first and of the second, each list in its order.
pub data Merge {E : Type 0} : List E → List E → List E → Type 0 where
  empty : Merge [] [] []
  left : {x : E} {xs ys zs : List E} → Merge xs ys zs → Merge (x ∷ xs) ys (x ∷ zs)
  right : {y : E} {xs ys zs : List E} → Merge xs ys zs → Merge xs (y ∷ ys) (y ∷ zs)

module _ {E : Type 0} where
  left-all : (ds : List E) → Merge (ds ++ []) [] ds
  left-all [] = empty
  left-all (d ∷ ds) = left (left-all ds)

  right-all : (ds : List E) → Merge [] ds ds
  right-all [] = empty
  right-all (d ∷ ds) = right (right-all ds)

  left-append : (ds : List E) {xs ys zs : List E} → Merge xs ys zs → Merge (xs ++ ds) ys (zs ++ ds)
  left-append ds empty = subst (λ l. Merge l [] ds) (append-nil ds) (left-all ds)
  left-append ds (left m) = left (left-append ds m)
  left-append ds (right m) = right (left-append ds m)

  right-append : (ds : List E) {xs ys zs : List E} → Merge xs ys zs → Merge xs (ys ++ ds) (zs ++ ds)
  right-append ds empty = right-all ds
  right-append ds (left m) = left (right-append ds m)
  right-append ds (right m) = right (right-append ds m)

  -- The events that are gone, which were taken or lost, and then those in the queue are those pushed.
  pub record InOrder (h : History E) : Type 0 where
    pub past : List E
    pub splits : h.pushed ≡ past ++ h.queue.queue
    pub merges : Merge h.taken h.lost past

  -- What holds of every history.
  pub record IsOrderly (h : History E) : Type 0 where
    pub in_order : InOrder h
    pub bounded : length h.queue.queue ≤ max_queued_events
    pub nobody_waits : (h.queue.waiters ≡ []) ⊎ (h.queue.queue ≡ [])
    pub answered :
        (p : ℕ)
        → waits p h.queue.waiters + settled p h.queue.resolved
          ≡ (if ltb p h.queue.next_promise then 1 else 0)
    pub timed : (p : ℕ) → 0 < timeouts p h.queue.resolved → among p h.fired ≡ true

  -- Events at the front of the queue that go.
  split-front :
      (past front rest pushed queue : List E)
      → pushed ≡ past ++ queue
      → queue ≡ front ++ rest
      → pushed ≡ (past ++ front) ++ rest
  split-front past front rest pushed queue h e =
      h ∙ ap (λ l. past ++ l) e ∙ sym (append_assoc past front rest)

  dropped-append :
      (queue : List E)
      → queue
        ≡ dropped queue ++ (if leb max_queued_events (length queue) then drop 1 queue else queue)
  dropped-append queue = elim (Bool-cases (leb 1_000 (length queue))) [
    | inr room ↦ rw room
    | inl full ↦ rw full (take-drop queue)
  ]
    where
      take-drop : (queue : List E) → queue ≡ take 1 queue ++ drop 1 queue
      take-drop [] = refl
      take-drop (x ∷ xs) = refl

  length-drop1 : (xs : List E) → length (drop 1 xs) ≡ length xs - 1
  length-drop1 [] = omega arith
  length-drop1 (x ∷ xs) = omega arith

module _ {E : Type 0} where
  push-IsOrderly : (e : E) (h : History E) → IsOrderly h → IsOrderly (step (pushing e) h)
  unfolding step push
  push-IsOrderly e h i =
      let queue = h.queue.queue in
      let kept = if leb 1_000 (length queue) then drop 1 queue else queue in
      let past = i.in_order.past ++ dropped queue in
      record {
        in_order = record {
          past = past;
          splits =
              ap (λ l. l ++ e ∷ [])
                (split-front i.in_order.past (dropped queue) kept h.pushed queue i.in_order.splits
                  (dropped-append queue))
              ∙ append_assoc past kept (e ∷ []);
          merges = right-append (dropped queue) i.in_order.merges;
        };
        bounded = ground (arith, i.bounded, length-append kept (e ∷ []), length-drop1 queue);
        nobody_waits = inl refl;
        answered = λ p. notified (record h.queue { queue = kept ++ e ∷ [] }) p ∙ i.answered p;
        timed = λ p t.
            i.timed p (omega (arith, t, untimed (record h.queue { queue = kept ++ e ∷ [] }) p));
      }

  dequeue-IsOrderly :
      (events : List E) (h : History E)
      → IsOrderly h
      → h.queue.queue ≡ events
      → IsOrderly (
          let (e, q') = after_shift events h.queue in
          record h { queue = q'; taken = h.taken ++ list_of e })
  unfolding after_shift
  dequeue-IsOrderly [] h i eq = record {
    in_order = record {
      past = i.in_order.past;
      splits = i.in_order.splits;
      merges =
          subst (λ l. Merge l h.lost i.in_order.past) (sym (append-nil h.taken)) i.in_order.merges;
    };
    bounded = i.bounded;
    nobody_waits = i.nobody_waits;
    answered = i.answered;
    timed = i.timed;
  }
  dequeue-IsOrderly (e ∷ es) h i eq =
      let whole : length h.queue.queue ≡ length (e ∷ es) = ap (λ l. length l) eq in
      record {
        in_order = record {
          past = i.in_order.past ++ e ∷ [];
          splits =
              split-front i.in_order.past (e ∷ []) es h.pushed h.queue.queue i.in_order.splits eq;
          merges = left-append (e ∷ []) i.in_order.merges;
        };
        bounded = omega (arith, whole, i.bounded);
        nobody_waits = elim i.nobody_waits [ inl nobody ↦ inl nobody | inr nothing ↦ cc ];
        answered = i.answered;
        timed = i.timed;
      }

  -- What does not touch the events keeps their order.
  same-InOrder :
      (h : History E) (q : EventQueue E) (fs : List ℕ)
      → InOrder h
      → q.queue ≡ h.queue.queue
      → InOrder (record h { queue = q; fired = fs })
  same-InOrder h q fs o e = record {
    past = o.past;
    splits = o.splits ∙ ap (λ l. o.past ++ l) (sym e);
    merges = o.merges;
  }

  wait-IsOrderly :
      (events : List E) (timeout : ℕ) (h : History E)
      → IsOrderly h
      → h.queue.queue ≡ events
      → IsOrderly (record h { queue = wait events timeout h.queue })
  unfolding wait
  wait-IsOrderly [] timeout h i eq =
      let next = h.queue.next_promise in
      let w : Waiter = record { promise = next; timeout_ms = timeout } in
      record {
        in_order = same-InOrder h (wait [] timeout h.queue) h.fired i.in_order refl;
        bounded = i.bounded;
        nobody_waits = inr eq;
        answered = λ p. ground (arith, i.answered p, waits-snoc p w h.queue.waiters, ==_iff next p);
        timed = i.timed;
      }
  wait-IsOrderly (e ∷ es) timeout h i eq = record {
    in_order = same-InOrder h (wait (e ∷ es) timeout h.queue) h.fired i.in_order refl;
    bounded = i.bounded;
    nobody_waits = i.nobody_waits;
    answered = unfold settled in λ p. ground (arith, i.answered p, ==_iff h.queue.next_promise p);
    timed = unfold timeouts in λ p t. i.timed p (omega (arith, t));
  }

  firing-IsOrderly : (p : ℕ) (h : History E) → IsOrderly h → IsOrderly (step (firing p) h)
  unfolding step timer_fires
  firing-IsOrderly p h i = elim (Bool-cases (is_waiting p h.queue.waiters)) [
    | inl there ↦ rw there (record {
      in_order = same-InOrder h (timed_out p h.queue) (p ∷ h.fired) i.in_order refl;
      bounded = i.bounded;
      nobody_waits = elim i.nobody_waits [
        | inl nobody ↦ inl (ap (λ l. keep (λ w. not (w.promise == p)) l) nobody)
        | inr nothing ↦ inr nothing
      ];
      answered =
          unfold settled in
          λ r. ground (
            arith,
            i.answered r,
            i.answered p,
            waits-keep r p h.queue.waiters,
            is_waiting-waits p h.queue.waiters there,
            ==_iff p r,
          );
      timed = unfold timeouts in λ r t. ground (arith, t, i.timed r);
    })
    | inr gone ↦ rw gone (record {
      in_order = same-InOrder h h.queue (p ∷ h.fired) i.in_order refl;
      bounded = i.bounded;
      nobody_waits = i.nobody_waits;
      answered = i.answered;
      timed = λ r t. ground (arith, i.timed r t);
    })
  ]
    where
      timed_out : ℕ → EventQueue E → EventQueue E
      timed_out p q = record q {
        waiters = keep (λ w. not (w.promise == p)) q.waiters;
        resolved = (p, false) ∷ q.resolved;
      }

  step-IsOrderly : (o : Operation E) (h : History E) → IsOrderly h → IsOrderly (step o h)
  unfolding step clear try_dequeue wait_for_event
  step-IsOrderly (pushing e) h i = push-IsOrderly e h i
  step-IsOrderly dequeuing h i = dequeue-IsOrderly h.queue.queue h i refl
  step-IsOrderly clearing h i =
      let queue = h.queue.queue in
      record {
        in_order = record {
          past = i.in_order.past ++ queue;
          splits = i.in_order.splits ∙ sym (append-nil (i.in_order.past ++ queue));
          merges = right-append queue i.in_order.merges;
        };
        bounded = omega arith;
        nobody_waits = inl refl;
        answered = λ p. notified (record h.queue { queue = [] }) p ∙ i.answered p;
        timed = λ p t. i.timed p (omega (arith, t, untimed (record h.queue { queue = [] }) p));
      }
  step-IsOrderly (waiting timeout) h i = wait-IsOrderly h.queue.queue timeout h i refl
  step-IsOrderly (firing p) h i = firing-IsOrderly p h i

  run-IsOrderly : (os : List (Operation E)) (h : History E) → IsOrderly h → IsOrderly (run os h)
  unfolding run
  run-IsOrderly [] h i = i
  run-IsOrderly (o ∷ os) h i = run-IsOrderly os (step o h) (step-IsOrderly o h i)

  -- After any pushes, waits, timeouts, clears and events that are taken out, of a queue that began
  -- empty: the events that were pushed are, in their order, those that are gone and then those that
  -- are queued, and those that are gone are the ones that were taken and the ones that were lost to a
  -- full queue or a `clear`, each in order; at most 1000 are queued; nobody waits while an event is
  -- queued; every promise that `waitForEvent` returned either still waits or was resolved, exactly
  -- once, while no other promise does; and a promise was resolved with `false` only if its timer fired.
  pub run-start-IsOrderly : (os : List (Operation E)) → IsOrderly (run os start)
  unfolding start new_queue
  run-start-IsOrderly os = run-IsOrderly os start (record {
    in_order = record { past = []; splits = refl; merges = empty };
    bounded = omega arith;
    nobody_waits = inl refl;
    answered = unfold waits in unfold settled in λ p. ground arith;
    timed = unfold timeouts in λ p t. absurd (omega (arith, t));
  })
