-- ===== src/Goal/Subgoals.antt =====
-- src/team/src/harness/goals/goal-manager.ts: the limits on subgoals.
use flopsy.Prelude.{
  ℕ, zero, suc, ◌-◌, ◌≤◌, ◌<◌, ◌≡◌, refl, ap, ◌∙◌, ◌≢◌, ◌⊎◌, inl, inr, true, Option, none, some,
  List, [], ◌∷◌, ◌++◌, arith, if◌then◌else◌, Bool-cases, Option-cases, length, take, drop, All,
  length-append, All-append, Text, str_eq, str_eq_refl, trim, returned,
}
use flopsy.Goal.{
  SessionGoalRow, Store, get, add_subgoal, remove_subgoal, clear_subgoals, max_subgoals_per_goal,
  max_subgoal_chars, nth, is_active, with_subgoals,
}
use flopsy.Goal.Budget.{get-patch_session_goal}

abbrev pub IsSubgoal : Text → Type 0
IsSubgoal s = (0 < length s) × (length s ≤ max_subgoal_chars)

pub record IsBounded (row : SessionGoalRow) : Type 0 where
  pub few : length row.subgoals ≤ max_subgoals_per_goal
  pub short : All IsSubgoal row.subgoals

abbrev pub IsBoundedIn : Option SessionGoalRow → Type 0
IsBoundedIn none = Unit {0}
IsBoundedIn (some row) = IsBounded row

-- One accepted command on the subgoals of a thread.
pub data Edit (s : Store) : Store → Type 0 where
  adds :
      (thread text : Text) (row : SessionGoalRow) (s' : Store)
      → add_subgoal thread text s ≡ returned (row, s')
      → Edit s s'
  removes :
      (thread : Text) (i : ℕ) (out : Text × ℕ) (s' : Store)
      → remove_subgoal thread i s ≡ returned (out, s')
      → Edit s s'
  clears :
      (thread : Text) (n : ℕ) (s' : Store) → clear_subgoals thread s ≡ returned (n, s') → Edit s s'

All-take {κ} : {A : Type 0} (P : A → Type κ) (n : ℕ) (xs : List A) → All P xs → All P (take n xs)
All-take P zero xs h = tt
All-take P (suc n) [] h = tt
All-take P (suc n) (x ∷ xs) h = (h.0, All-take P n xs h.1)

All-drop {κ} : {A : Type 0} (P : A → Type κ) (n : ℕ) (xs : List A) → All P xs → All P (drop n xs)
All-drop P zero xs h = h
All-drop P (suc n) [] h = tt
All-drop P (suc n) (x ∷ xs) h = All-drop P n xs h.1

length-cut : (n : ℕ) (xs : List Text) → length (take n xs ++ drop (suc n) xs) ≤ length xs
length-cut zero [] = omega arith
length-cut (suc n) [] = omega arith
length-cut zero (x ∷ xs) = omega arith
length-cut (suc n) (x ∷ xs) = omega (arith, length-cut n xs)

get-with_subgoals :
    (thread j : Text) (ss : List Text) (row : SessionGoalRow) (store : Store)
    → get thread store ≡ some row
    → get j (with_subgoals thread ss store)
      ≡ (if str_eq thread j then some (record row { subgoals = ss }) else get j store)
unfolding with_subgoals
get-with_subgoals thread j ss row store e = get-patch_session_goal thread j _ row store e

-- What an accepted addition did.
add_subgoal-returned :
    (thread text : Text) (row row' : SessionGoalRow) (store store' : Store)
    → get thread store ≡ some row
    → add_subgoal thread text store ≡ returned (row', store')
    → (is_active row.status ≡ true)
      × IsSubgoal (trim text)
      × (length row.subgoals < max_subgoals_per_goal)
      × (store' ≡ with_subgoals thread (row.subgoals ++ trim text ∷ []) store)
      × (row' ≡ record row { subgoals = row.subgoals ++ trim text ∷ [] })
unfolding add_subgoal
add_subgoal-returned thread text row row' store store' e r = ground (arith, e)

-- What an accepted removal did; the index counts from 1.
remove_subgoal-returned :
    (thread : Text) (n : ℕ) (row : SessionGoalRow) (out : Text × ℕ) (store store' : Store)
    → get thread store ≡ some row
    → remove_subgoal thread (suc n) store ≡ returned (out, store')
    → (n < length row.subgoals)
      × (out.0 ≡ nth row.subgoals n)
      × (store' ≡ with_subgoals thread (take n row.subgoals ++ drop (suc n) row.subgoals) store)
unfolding remove_subgoal
remove_subgoal-returned thread n row out store store' e r =
    let back : suc n - 1 ≡ n = omega arith in ground (arith, e, back)

-- A row that a thread gets new subgoals in.
replaced-IsBounded :
    (thread j : Text) (ss : List Text) (row : SessionGoalRow) (store : Store)
    → get thread store ≡ some row
    → length ss ≤ max_subgoals_per_goal
    → All IsSubgoal ss
    → IsBoundedIn (get j store)
    → IsBoundedIn (get j (with_subgoals thread ss store))
replaced-IsBounded thread j ss row store e h k b =
    rw (get-with_subgoals thread j ss row store e) (elim (Bool-cases (str_eq thread j)) [
      | inl hit ↦ rw hit (record { few = h; short = k })
      | inr miss ↦ rw miss b
    ])

IsBounded-of :
    (o : Option SessionGoalRow) (row : SessionGoalRow)
    → o ≡ some row
    → IsBoundedIn o
    → IsBounded row
IsBounded-of o row e b = rw e at b

add_subgoal-absent :
    (thread text : Text) (row : SessionGoalRow) (s s' : Store)
    → get thread s ≡ none
    → add_subgoal thread text s ≢ returned (row, s')
unfolding add_subgoal
add_subgoal-absent thread text row s s' e = ground (arith, e)

remove_subgoal-absent :
    (thread : Text) (i : ℕ) (out : Text × ℕ) (s s' : Store)
    → get thread s ≡ none
    → remove_subgoal thread i s ≢ returned (out, s')
unfolding remove_subgoal
remove_subgoal-absent thread i out s s' e = ground (arith, e)

remove_subgoal-zero :
    (thread : Text) (out : Text × ℕ) (s s' : Store) → remove_subgoal thread 0 s ≢ returned (out, s')
unfolding remove_subgoal
remove_subgoal-zero thread out s s' = ground arith

clear_subgoals-absent :
    (thread : Text) (n : ℕ) (s s' : Store)
    → get thread s ≡ none
    → clear_subgoals thread s ≢ returned (n, s')
unfolding clear_subgoals
clear_subgoals-absent thread n s s' e = ground (arith, e)

clear_subgoals-returned :
    (thread : Text) (n : ℕ) (row : SessionGoalRow) (s s' : Store)
    → get thread s ≡ some row
    → clear_subgoals thread s ≡ returned (n, s')
    → (s' ≡ s) ⊎ (s' ≡ with_subgoals thread [] s)
unfolding clear_subgoals
clear_subgoals-returned thread n row s s' e h = ground (arith, e)

add-IsBounded :
    (thread text : Text) (row : SessionGoalRow) (s s' : Store)
    → add_subgoal thread text s ≡ returned (row, s')
    → ((j : Text) → IsBoundedIn (get j s))
    → (j : Text) → IsBoundedIn (get j s')
add-IsBounded thread text row s s' h b j = elim (Option-cases (get thread s)) [
  | inl e ↦ absurd (add_subgoal-absent thread text row s s' e h)
  | inr (old, e) ↦
      let (on, sub, few, es, er) = add_subgoal-returned thread text old row s s' e h in
      let bounds = IsBounded-of (get thread s) old e (b thread) in
      rw es (
        replaced-IsBounded thread j (old.subgoals ++ trim text ∷ []) old s e
          (omega (arith, few, length-append old.subgoals (trim text ∷ [])))
          (All-append IsSubgoal old.subgoals (trim text ∷ []) bounds.short (sub, tt)) (b j))
]

remove-IsBounded :
    (thread : Text) (i : ℕ) (out : Text × ℕ) (s s' : Store)
    → remove_subgoal thread i s ≡ returned (out, s')
    → ((j : Text) → IsBoundedIn (get j s))
    → (j : Text) → IsBoundedIn (get j s')
remove-IsBounded thread zero out s s' h b j = absurd (remove_subgoal-zero thread out s s' h)
remove-IsBounded thread (suc n) out s s' h b j = elim (Option-cases (get thread s)) [
  | inl e ↦ absurd (remove_subgoal-absent thread (suc n) out s s' e h)
  | inr (old, e) ↦
      let (lt, eo, es) = remove_subgoal-returned thread n old out s s' e h in
      let bounds = IsBounded-of (get thread s) old e (b thread) in
      rw es (
        replaced-IsBounded thread j (take n old.subgoals ++ drop (suc n) old.subgoals) old s e
          (omega (arith, length-cut n old.subgoals, bounds.few))
          (All-append IsSubgoal (take n old.subgoals) (drop (suc n) old.subgoals)
            (All-take IsSubgoal n old.subgoals bounds.short)
            (All-drop IsSubgoal (suc n) old.subgoals bounds.short))
          (b j))
]

clear-IsBounded :
    (thread : Text) (n : ℕ) (s s' : Store)
    → clear_subgoals thread s ≡ returned (n, s')
    → ((j : Text) → IsBoundedIn (get j s))
    → (j : Text) → IsBoundedIn (get j s')
clear-IsBounded thread n s s' h b j = elim (Option-cases (get thread s)) [
  | inl e ↦ absurd (clear_subgoals-absent thread n s s' e h)
  | inr (old, e) ↦ elim (clear_subgoals-returned thread n old s s' e h) [
    | inl same ↦ rw same (b j)
    | inr es ↦ rw es (replaced-IsBounded thread j [] old s e (omega arith) tt (b j))
  ]
]

-- Every accepted command on subgoals keeps, in the goals of all threads, at most 20 subgoals of 1 to
-- 400 characters each.
pub Edit-IsBounded :
    (s s' : Store)
    → Edit s s'
    → ((j : Text) → IsBoundedIn (get j s))
    → (j : Text) → IsBoundedIn (get j s')
Edit-IsBounded s s' (adds thread text row _ h) b j = add-IsBounded thread text row s s' h b j
Edit-IsBounded s s' (removes thread i out _ h) b j = remove-IsBounded thread i out s s' h b j
Edit-IsBounded s s' (clears thread n _ h) b j = clear-IsBounded thread n s s' h b j

nth_snoc : (xs : List Text) (x : Text) → nth (xs ++ x ∷ []) (length xs) ≡ x
unfolding nth
nth_snoc [] x = refl
nth_snoc (y ∷ xs) x = nth_snoc xs x

cut_snoc :
    (xs : List Text) (x : Text)
    → take (length xs) (xs ++ x ∷ []) ++ drop (suc (length xs)) (xs ++ x ∷ []) ≡ xs
cut_snoc [] x = refl
cut_snoc (y ∷ xs) x = ap (λ l. y ∷ l) (cut_snoc xs x)

remove_subgoal-accepts :
    (thread : Text) (n : ℕ) (row : SessionGoalRow) (store : Store)
    → get thread store ≡ some row
    → n < length row.subgoals
    → let cut = take n row.subgoals ++ drop (suc n) row.subgoals in
      remove_subgoal thread (suc n) store
      ≡ returned ((nth row.subgoals n, length cut), with_subgoals thread cut store)
unfolding remove_subgoal
remove_subgoal-accepts thread n row store e h =
    let back : suc n - 1 ≡ n = omega arith in ground (arith, e, back)

-- Removing the subgoal that was just added, by its number, gives its trimmed text back, with the
-- number of subgoals that were there before, and the goal has its former subgoals.
pub remove-add_subgoal :
    (thread text : Text) (row row' : SessionGoalRow) (store store' : Store)
    → get thread store ≡ some row
    → add_subgoal thread text store ≡ returned (row', store')
    → (store'' : Store) × (remove_subgoal thread (suc (length row.subgoals)) store'
        ≡ returned ((trim text, length row.subgoals), store''))
      × (get thread store'' ≡ some row)
remove-add_subgoal thread text row row' store store' e h =
    let ss = row.subgoals ++ trim text ∷ [] in
    let (on, sub, few, es, er) = add_subgoal-returned thread text row row' store store' e h in
    let there : get thread store' ≡ some (record row { subgoals = ss }) =
      rw es (get-with_subgoals thread thread ss row store e ∙ rw (str_eq_refl thread)) in
    let last : length row.subgoals < length ss =
      omega (arith, length-append row.subgoals (trim text ∷ [])) in
    let store'' = with_subgoals thread row.subgoals store' in
    (
      store'',
      cc (
        remove_subgoal-accepts thread (length row.subgoals) (record row { subgoals = ss }) store'
            there last,
        nth_snoc row.subgoals (trim text),
        cut_snoc row.subgoals (trim text),
      ),
      get-with_subgoals thread thread row.subgoals (record row { subgoals = ss }) store' there
          ∙ rw (str_eq_refl thread),
    )
