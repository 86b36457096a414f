-- ===== src/ToolLoopDedup.antt =====
-- src/team/src/harness/hooks/tool-loop-dedup.ts: the interceptor that blocks an agent which makes the
-- same tool call over and over. The hashes of the last calls are kept in the run's store, `recent`;
-- `Date.now()` is an argument, and `JSON.stringify` is a parameter that may throw.
mod Examples
pub mod Window
use flopsy.Prelude.{
  ℕ, ◌+◌, max, Bool, true, false, ◌&&◌, ◌||◌, Option, none, some, List, [], ◌∷◌, ◌++◌, map, ltb,
  leb, ◌==◌, if◌then◌else◌, take, Text, codes, str_eq, starts_with,
}
use flopsy.Prelude.JsMap.{JsMap}
use mathlib.Core.List.{reverse}

pub record DedupEntry : Type 0 where
  pub hash : Text
  pub ts : ℕ

pub record DedupOptions : Type 0 where
  pub threshold : Option ℕ
  pub window : Option ℕ

-- The arguments of a call: an object that is no array, by its entries, or anything else.
pub data ToolArgs (V O : Type 0) : Type 0 where
  plain_object : JsMap V → ToolArgs V O
  other : O → ToolArgs V O

abbrev or_default : Option ℕ → ℕ → ℕ
or_default none d = d
or_default (some n) d = n

unfoldable pub threshold_of : DedupOptions → ℕ
threshold_of o = max 2 (or_default o.threshold 3)

unfoldable pub window_of : DedupOptions → ℕ
unfolding threshold_of
window_of o = max (threshold_of o) (or_default o.window 10)

-- The order of Array.prototype.sort on strings.
unfoldable pub text_leb : Text → Text → Bool
text_leb [] t = true
text_leb (x ∷ xs) [] = false
text_leb (x ∷ xs) (y ∷ ys) = ltb x y || (x == y && text_leb xs ys)

module _ {V : Type 0} where
  insert_entry : Text → V → JsMap V → JsMap V
  unfolding text_leb
  insert_entry k v [] = (k, v) ∷ []
  insert_entry k v ((j, w) ∷ m) =
      if text_leb k j then (k, v) ∷ (j, w) ∷ m else (j, w) ∷ insert_entry k v m

  unfoldable pub sort_entries : JsMap V → JsMap V
  unfolding insert_entry
  sort_entries [] = []
  sort_entries ((k, v) ∷ m) = insert_entry k v (sort_entries m)

module _ {V O : Type 0} (stringify_object : JsMap V → Option Text)
    (stringify : O → Option Text) where
  hash_of : Text → Option Text → Text
  hash_of name none = name ++ codes "::<unhashable>"
  hash_of name (some json) = name ++ (codes "::" ++ json)

  unfoldable pub canonical_hash : Text → ToolArgs V O → Text
  unfolding hash_of sort_entries
  canonical_hash name (plain_object m) = hash_of name (stringify_object (sort_entries m))
  canonical_hash name (other o) = hash_of name (stringify o)

-- How many entries there are with the hash, from the newest on, before another one.
unfoldable pub run_length : Text → List Text → ℕ
run_length hash [] = 0
run_length hash (h ∷ hs) = if str_eq h hash then 1 + run_length hash hs else 0

-- `slice(-window)`.
unfoldable pub slice_last : {A : Type 0} → ℕ → List A → List A
slice_last n xs = reverse (take n (reverse xs))

abbrev pub is_meta : Text → Bool
is_meta name = starts_with name (codes "__")

-- Whether the call is blocked, with the number of calls in a row, and the entries that are stored.
unfoldable pub before_tool_call :
    DedupOptions → ℕ → Text → Text → List DedupEntry → Option ℕ × List DedupEntry
unfolding threshold_of window_of run_length slice_last
before_tool_call o now name hash recent =
    if is_meta name
    then (none, recent)
    else (let consecutive = 1 + run_length hash (map (λ e. e.hash) (reverse recent)) in
        let updated = slice_last (window_of o) (recent ++ record { hash = hash; ts = now } ∷ []) in
        (if leb (threshold_of o) consecutive then some consecutive else none, updated))
