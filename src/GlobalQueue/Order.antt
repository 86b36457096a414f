-- ===== src/GlobalQueue/Order.antt =====
-- src/gateway/src/core/global-message-queue.ts: the entries stay in the order in which they are served.
use flopsy.Prelude.{
  ℕ, zero, suc, ◌<◌, ◌≡◌, refl, ap, inl, inr, Bool, true, false, ◌||◌, some, List, [], ◌∷◌, ◌++◌,
  arith, ltb, if◌then◌else◌, ltb→lt, Bool-cases, Option-cases, length, take, drop, All, All-append,
}
use mathlib.Core.List.{Perm, perm_middle}
use mathlib.Core.List.Perm
use flopsy.GlobalQueue.{
  GlobalQueueEntry, GlobalMessageQueue, stops, position, splice_in, enqueue, dequeue, pick, notify,
}

-- `a` is served before `b`, or may be: lower priority number, and first come first served within one.
abbrev pub Serves : GlobalQueueEntry → GlobalQueueEntry → Type 0
Serves a b = stops a b ≡ true

abbrev pub IsOrdered : List GlobalQueueEntry → Type 0
IsOrdered [] = Unit {0}
IsOrdered (e ∷ es) = All (λ x. Serves e x) es × IsOrdered es

Serves-trans : (a b c : GlobalQueueEntry) → Serves a b → Serves b c → Serves a c
Serves-trans a b c h k = ground arith

Serves-total : (a b : GlobalQueueEntry) → stops a b ≡ false → Serves b a
Serves-total a b h = ground arith

All-Serves :
    (a b : GlobalQueueEntry) (es : List GlobalQueueEntry)
    → Serves a b
    → All (λ x. Serves b x) es
    → All (λ x. Serves a x) es
All-Serves a b [] h k = tt
All-Serves a b (e ∷ es) h k = (Serves-trans a b e h k.0, All-Serves a b es h k.1)

-- The scan over a list with one more entry in front.
position-cons :
    (item e : GlobalQueueEntry) (es : List GlobalQueueEntry) (i : ℕ)
    → position item (e ∷ es) (suc i) ≡ (
        if ltb 0 (position item es i)
        then suc (position item es i)
        else if stops e item
        then 1
        else 0)
unfolding position
position-cons item e es zero = ground arith
position-cons item e es (suc i) = ground (arith, position-cons item e es i)

-- What the scan finds, by recursion from the front: the entry goes behind the last one that it may
-- not overtake.
insert_behind : GlobalQueueEntry → List GlobalQueueEntry → List GlobalQueueEntry
insert_behind item es = splice_in (position item es (length es)) item es

position_ordered :
    (item e : GlobalQueueEntry) (es : List GlobalQueueEntry)
    → IsOrdered (e ∷ es)
    → 0 < position item es (length es)
    → Serves e item
unfolding position
position_ordered item e [] o h = absurd (omega arith)
position_ordered item e (x ∷ es) o h = elim (Bool-cases (ltb 0 (position item es (length es)))) [
  | inl pos ↦
      position_ordered item e es (o.0.1, o.1.1) (ltb→lt 0 (position item es (length es)) pos)
  | inr none_yet ↦
      ground (arith, h, position-cons item x es (length es), Serves-trans e x item o.0.0)
]

insert_behind-cons :
    (item e : GlobalQueueEntry) (es : List GlobalQueueEntry)
    → insert_behind item (e ∷ es) ≡ (
        if ltb 0 (position item es (length es)) || stops e item
        then e ∷ insert_behind item es
        else item ∷ e ∷ es)
unfolding insert_behind
insert_behind-cons item e es = ground (arith, position-cons item e es (length es))

All-take {κ} :
    (P : GlobalQueueEntry → Type κ) (n : ℕ) (es : List GlobalQueueEntry)
    → All P es
    → All P (take n es)
All-take P zero es h = tt
All-take P (suc n) [] h = tt
All-take P (suc n) (e ∷ es) h = (h.0, All-take P n es h.1)

All-drop {κ} :
    (P : GlobalQueueEntry → Type κ) (n : ℕ) (es : List GlobalQueueEntry)
    → All P es
    → All P (drop n es)
All-drop P zero es h = h
All-drop P (suc n) [] h = tt
All-drop P (suc n) (e ∷ es) h = All-drop P n es h.1

All-insert_behind :
    (P : GlobalQueueEntry → Type 0) (item : GlobalQueueEntry) (es : List GlobalQueueEntry)
    → P item
    → All P es
    → All P (insert_behind item es)
unfolding insert_behind
All-insert_behind P item es p h =
    let i = position item es (length es) in
    All-append P (take i es) (item ∷ drop i es) (All-take P i es h) (p, All-drop P i es h)

insert_behind-IsOrdered :
    (item : GlobalQueueEntry) (es : List GlobalQueueEntry)
    → IsOrdered es
    → IsOrdered (insert_behind item es)
insert_behind-IsOrdered item [] o = unfold insert_behind position in (tt, tt)
insert_behind-IsOrdered item (e ∷ es) o =
    rw (insert_behind-cons item e es) (elim (Bool-cases (ltb 0 (position item es (length es)))) [
      | inl pos ↦
          let first = position_ordered item e es o (ltb→lt 0 (position item es (length es)) pos) in
          rw pos (
            All-insert_behind (λ x. Serves e x) item es first o.0,
            insert_behind-IsOrdered item es o.1,
          )
      | inr none_yet ↦ rw none_yet (elim (Bool-cases (stops e item)) [
        | inl stop ↦ rw stop (
          All-insert_behind (λ x. Serves e x) item es stop o.0,
          insert_behind-IsOrdered item es o.1,
        )
        | inr pass ↦
            let first = Serves-total e item pass in
            rw pass ((first, All-Serves item e es first o.0), o)
      ])
    ])

take-drop : (n : ℕ) (es : List GlobalQueueEntry) → take n es ++ drop n es ≡ es
take-drop zero es = refl
take-drop (suc n) [] = refl
take-drop (suc n) (e ∷ es) = ap (λ l. e ∷ l) (take-drop n es)

-- Enqueueing keeps the order of service, and the queue then holds the new entry and those that it
-- held before.
pub enqueue-IsOrdered :
    (item : GlobalQueueEntry) (q : GlobalMessageQueue)
    → IsOrdered q.entries
    → let q' = (enqueue item q).1 in IsOrdered q'.entries × Perm q'.entries (item ∷ q.entries)
unfolding enqueue notify
enqueue-IsOrdered item q o =
    let i = position item q.entries (length q.entries) in
    (
      unfold insert_behind in insert_behind-IsOrdered item q.entries o,
      rw (take-drop i q.entries) at (perm_middle {a = item} (take i q.entries) (drop i q.entries)),
    )

-- An entry that was taken by a test serves whatever the test passes among the others.
pub record IsBest (p : GlobalQueueEntry → Bool) (es : List GlobalQueueEntry) (e : GlobalQueueEntry)
    (left : List GlobalQueueEntry) : Type 0 where
  pub passes : p e ≡ true
  pub ordered : IsOrdered left
  pub best : All (λ x. p x ≡ true → Serves e x) left
  pub same : Perm es (e ∷ left)

All-weaken :
    (p : GlobalQueueEntry → Bool) (e : GlobalQueueEntry) (es : List GlobalQueueEntry)
    → All (λ x. Serves e x) es
    → All (λ x. p x ≡ true → Serves e x) es
All-weaken p e [] h = tt
All-weaken p e (x ∷ es) h = (λ _. h.0, All-weaken p e es h.1)

All-perm_rest :
    (p : GlobalQueueEntry → Bool) (a e : GlobalQueueEntry) (es left : List GlobalQueueEntry)
    → pick p es ≡ some (e, left)
    → All (λ x. Serves a x) es
    → Serves a e × All (λ x. Serves a x) left
unfolding pick
All-perm_rest p a e [] left h k = cc
All-perm_rest p a e (x ∷ es) left h k = elim (Bool-cases (p x)) [
  | inl hit ↦
      let ex : x ≡ e = ground arith in let el : es ≡ left = ground arith in rw (← ex, ← el) k
  | inr miss ↦ elim (Option-cases (pick p es)) [
    | inl gone ↦ absurd (ground arith)
    | inr ((f, rest), found) ↦
        let ef : f ≡ e = ground arith in
        let el : x ∷ rest ≡ left = ground arith in
        let (a, b) = All-perm_rest p a f es rest found k.1 in rw (← ef, ← el) (a, (k.0, b))
  ]
]

pick-IsBest :
    (p : GlobalQueueEntry → Bool) (es : List GlobalQueueEntry) (e : GlobalQueueEntry)
    (left : List GlobalQueueEntry)
    → IsOrdered es
    → pick p es ≡ some (e, left)
    → IsBest p es e left
unfolding pick
pick-IsBest p [] e left o h = absurd (ground arith)
pick-IsBest p (x ∷ es) e left o h = elim (Bool-cases (p x)) [
  | inl hit ↦
      let ex : x ≡ e = ground arith in
      let el : es ≡ left = ground arith in
      rw (← ex, ← el)
        (record {
          passes = hit;
          ordered = o.1;
          best = All-weaken p x es o.0;
          same = Perm.refl (x ∷ es);
        })
  | inr miss ↦ elim (Option-cases (pick p es)) [
    | inl gone ↦ absurd (ground arith)
    | inr ((f, rest), found) ↦
        let ef : f ≡ e = ground arith in
        let el : x ∷ rest ≡ left = ground arith in
        let ih = pick-IsBest p es f rest o.1 found in
        rw (← ef, ← el)
          (record {
            passes = ih.passes;
            ordered = ((All-perm_rest p x f es rest found o.0).1, ih.ordered);
            best = (λ hx. absurd (ground (arith, hx, miss)), ih.best);
            same = Perm.trans (Perm.cons x ih.same) (Perm.swap f x rest);
          })
  ]
]

-- With a filter, `dequeue` takes an entry that passes it and that serves every other entry that
-- passes it; the queue keeps exactly the others, still in order.
pub dequeue-IsBest :
    (p : GlobalQueueEntry → Bool) (q : GlobalMessageQueue) (e : GlobalQueueEntry)
    → IsOrdered q.entries
    → (dequeue (some p) q).0 ≡ some e
    → IsBest p q.entries e (dequeue (some p) q).1.entries
unfolding dequeue notify
dequeue-IsBest p q e o h = elim (Option-cases (pick p q.entries)) [
  | inl gone ↦ absurd (ground arith)
  | inr ((f, rest), found) ↦
      let ef : f ≡ e = ground arith in
      let left : (dequeue (some p) q).1.entries ≡ rest = ground arith in
      rw left (rw (← ef) (pick-IsBest p q.entries f rest o found))
]
