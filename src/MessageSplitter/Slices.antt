-- ===== src/MessageSplitter/Slices.antt =====
-- src/gateway/src/channels/telegram/message-splitter.ts: the last slices lose nothing.
use flopsy.Prelude.{
  ℕ, zero, suc, ◌≤◌, ◌≡◌, refl, List, [], ◌∷◌, ◌++◌, arith, length, take, drop, Text,
}
use mathlib.Core.List.{append-nil}
use flopsy.Prelude.{take-drop, length-drop}
use flopsy.MessageSplitter.{Chunk, text_of, hard_slices}

abbrev pub joined : List Chunk → Text
joined [] = []
joined (c ∷ cs) = text_of c ++ joined cs

joined-fuel : (fuel n : ℕ) (s : Text) → 1 ≤ n → length s ≤ fuel → joined (hard_slices fuel n s) ≡ s
unfolding hard_slices
joined-fuel zero n [] h le = refl
joined-fuel zero n (x ∷ xs) h le = ground (arith, le)
joined-fuel (suc fuel) n [] h le = refl
joined-fuel (suc fuel) n (x ∷ xs) h le =
    let s : Text = x ∷ xs in
    let c : Chunk = record { prefix = []; body = take n s; closing = [] } in
    let text : text_of c ≡ take n s = unfold text_of in append-nil (take n s) in
    let rest : joined (hard_slices fuel n (drop n s)) ≡ drop n s =
      joined-fuel fuel n (drop n s) h (omega (arith, h, le, length-drop n s)) in
    rw (text, rest) (take-drop n s)

-- With the length of the text as fuel, the slices put together are the text.
pub joined-hard_slices : (n : ℕ) (s : Text) → 1 ≤ n → joined (hard_slices (length s) n s) ≡ s
joined-hard_slices n s h = joined-fuel (length s) n s h (omega arith)
