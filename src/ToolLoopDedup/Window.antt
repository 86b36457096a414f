-- ===== src/ToolLoopDedup/Window.antt =====
-- src/team/src/harness/hooks/tool-loop-dedup.ts: the bounded window decides as the whole history
-- would.
use flopsy.Prelude.{
  ℕ, zero, suc, ◌+◌, min, ◌≡◌, refl, ap, ◌∙◌, inl, inr, Bool, true, false, not, ◌&&◌, Option, none,
  some, List, [], ◌∷◌, ◌++◌, map, arith, leb, if◌then◌else◌, Bool-cases, take, Text,
}
use mathlib.Core.List.{reverse, reverse-reverse, reverse-append}
use flopsy.ToolLoopDedup.{
  DedupEntry, DedupOptions, threshold_of, window_of, run_length, slice_last, is_meta,
  before_tool_call,
}

-- A call that was made: its tool, its hash, and its time.
pub record Call : Type 0 where
  pub name : Text
  pub hash : Text
  pub at : ℕ

unfoldable pub store_after : DedupOptions → List DedupEntry → List Call → List DedupEntry
store_after o recent [] = recent
store_after o recent (c ∷ cs) = store_after o (before_tool_call o c.at c.name c.hash recent).1 cs

-- The hashes of all calls of other than meta-tools, the newest first, on top of older ones.
abbrev pub hashes : List Text → List Call → List Text
hashes old [] = old
hashes old (c ∷ cs) = hashes (if is_meta c.name then old else c.hash ∷ old) cs

run_length-take :
    (n : ℕ) (h : Text) (hs : List Text) → run_length h (take n hs) ≡ min n (run_length h hs)
unfolding run_length
run_length-take zero h hs = omega arith
run_length-take (suc n) h [] = omega arith
run_length-take (suc n) h (x ∷ hs) = ground (arith, run_length-take n h hs)

take-take-suc : {A : Type 0} (n : ℕ) (xs : List A) → take n (take (suc n) xs) ≡ take n xs
take-take-suc zero xs = refl
take-take-suc (suc n) [] = refl
take-take-suc (suc n) (x ∷ xs) = ap (λ l. x ∷ l) (take-take-suc n xs)

-- Only the newest entries matter to the newest entries.
take-cons-take :
    {A : Type 0} (n : ℕ) (x : A) (xs : List A) → take n (x ∷ take n xs) ≡ take n (x ∷ xs)
take-cons-take zero x xs = refl
take-cons-take (suc n) x xs = ap (λ l. x ∷ l) (take-take-suc n xs)

map-take : {A B : Type 0} (f : A → B) (n : ℕ) (xs : List A) → map f (take n xs) ≡ take n (map f xs)
map-take f zero xs = refl
map-take f (suc n) [] = refl
map-take f (suc n) (x ∷ xs) = ap (λ l. f x ∷ l) (map-take f n xs)

take-nil : {A : Type 0} (n : ℕ) → [] ≡ take {A = A} n []
take-nil zero = refl
take-nil (suc n) = refl

newest_hashes : List DedupEntry → List Text
newest_hashes recent = map (λ e. e.hash) (reverse recent)

-- One call adds its hash to the newest ones, within the window.
newest_hashes-slice_last :
    (n : ℕ) (e : DedupEntry) (recent : List DedupEntry)
    → newest_hashes (slice_last n (recent ++ e ∷ [])) ≡ take n (e.hash ∷ newest_hashes recent)
unfolding newest_hashes slice_last
newest_hashes-slice_last n e recent =
    rw (reverse-reverse (take n (reverse (recent ++ e ∷ []))))
      (rw (reverse-append recent (e ∷ [])) (map-take (λ e. e.hash) n (e ∷ reverse recent)))

before_tool_call-newest :
    (o : DedupOptions) (c : Call) (recent : List DedupEntry) (old : List Text)
    → newest_hashes recent ≡ take (window_of o) old
    → newest_hashes (before_tool_call o c.at c.name c.hash recent).1
      ≡ take (window_of o) (if is_meta c.name then old else c.hash ∷ old)
unfolding before_tool_call
before_tool_call-newest o c recent old h = elim (Bool-cases (is_meta c.name)) [
  | inl meta ↦ rw meta h
  | inr real ↦ rw real (
      newest_hashes-slice_last (window_of o) (record { hash = c.hash; ts = c.at }) recent
      ∙ ap (λ l. take (window_of o) (c.hash ∷ l)) h
      ∙ take-cons-take (window_of o) c.hash old)
]

store_after-newest :
    (o : DedupOptions) (recent : List DedupEntry) (old : List Text) (cs : List Call)
    → newest_hashes recent ≡ take (window_of o) old
    → newest_hashes (store_after o recent cs) ≡ take (window_of o) (hashes old cs)
unfolding store_after
store_after-newest o recent old [] h = h
store_after-newest o recent old (c ∷ cs) h =
    store_after-newest o (before_tool_call o c.at c.name c.hash recent).1
      (if is_meta c.name then old else c.hash ∷ old) cs (before_tool_call-newest o c recent old h)

run_length-newest :
    (o : DedupOptions) (cs : List Call) (h : Text)
    → run_length h (map (λ e. e.hash) (reverse (store_after o [] cs)))
      ≡ min (window_of o) (run_length h (hashes [] cs))
unfolding newest_hashes
run_length-newest o cs h =
    let empty : newest_hashes [] ≡ take (window_of o) [] = take-nil (window_of o) in
    ap (run_length h) (store_after-newest o [] [] cs empty)
    ∙ run_length-take (window_of o) h (hashes [] cs)

abbrev pub is_blocked : Option ℕ → Bool
is_blocked none = false
is_blocked (some n) = true

-- However the window is set, the interceptor decides as one that remembers every call would: after
-- any history of calls, a call is blocked exactly if it is of other than a meta-tool and it would be
-- at least the threshold-th call in a row, of all calls of other than meta-tools, with this hash.
pub before_tool_call-store_after :
    (o : DedupOptions) (cs : List Call) (c : Call)
    → is_blocked (before_tool_call o c.at c.name c.hash (store_after o [] cs)).0
      ≡ (not (is_meta c.name) && leb (threshold_of o) (1 + run_length c.hash (hashes [] cs)))
unfolding before_tool_call window_of
before_tool_call-store_after o cs c =
    let recent : List DedupEntry = store_after o [] cs in
    let n : run_length c.hash (map (λ e. e.hash) (reverse recent))
        ≡ min (window_of o) (run_length c.hash (hashes [] cs)) =
      run_length-newest o cs c.hash in
    elim (Bool-cases (is_meta c.name)) [
      | inl meta ↦ rw meta
      | inr real ↦ rw real (rw n (ground arith))
    ]
