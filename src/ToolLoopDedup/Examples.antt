-- ===== src/ToolLoopDedup/Examples.antt =====
-- Runs of the interceptor.
use flopsy.Prelude.{
  ℕ, ◌+◌, ◌≡◌, refl, not, ◌&&◌, none, some, List, [], ◌∷◌, ◌++◌, leb, Text, codes, str_eq,
  starts_with,
}
use flopsy.Prelude.JsMap.{JsMap}
use flopsy.ToolLoopDedup.{
  DedupOptions, threshold_of, run_length, is_meta, before_tool_call, canonical_hash, plain_object,
}
use flopsy.ToolLoopDedup.Window.{
  Call, store_after, hashes, is_blocked, before_tool_call-store_after,
}

abbrev by_default : DedupOptions
by_default = record { threshold = none; window = none }

abbrev reads : ℕ → Call
reads at = record { name = codes "read"; hash = codes "read::{}"; at = at }

abbrev history : List Call
history = reads 1 ∷ record { name = codes "__search"; hash = codes "x"; at = 2 } ∷ reads 3 ∷ []

before_tool_call-store_after_example :
    is_blocked
      (before_tool_call by_default 4
        (codes "read")
        (codes "read::{}")
        (store_after by_default [] history)).0
    ≡ (not (is_meta (codes "read"))
        && leb (threshold_of by_default) (1 + run_length (codes "read::{}") (hashes [] history)))
before_tool_call-store_after_example = before_tool_call-store_after by_default history (reads 4)

third_blocked :
    (before_tool_call by_default 4
      (codes "read")
      (codes "read::{}")
      (store_after by_default [] history)).0
    ≡ some 3
unfolding before_tool_call store_after str_eq starts_with
third_blocked = refl

abbrev join : JsMap ℕ → Text
join [] = []
join ((k, v) ∷ m) = k ++ join m

-- The hash goes by the sorted keys.
same_hash :
    canonical_hash {V = ℕ} {O = ℕ}
      (λ m. some (join m))
      (λ o. none)
      (codes "f")
      (plain_object ((codes "b", 2) ∷ (codes "a", 1) ∷ []))
    ≡ codes "f::ab"
unfolding canonical_hash
same_hash = refl
