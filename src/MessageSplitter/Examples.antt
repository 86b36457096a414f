-- ===== src/MessageSplitter/Examples.antt =====
-- Messages that are split.
use flopsy.Prelude.{◌<◌, ◌≡◌, refl, [], ◌∷◌, ◌++◌, map, arith, length, All, Text, codes, decimal}
use flopsy.MessageSplitter.{raw_chunks, split_message}
use flopsy.MessageSplitter.Lengths.{HasRoom, IsWithin, split_message-IsWithin}

-- Below the limit of 14 a message can be too long: 22 characters for a limit of 12.
abbrev letters : Text
letters = codes "abcdefghijklmnopqrst"

too_long : map length (split_message letters 12) ≡ 22 ∷ 8 ∷ []
unfolding split_message decimal
too_long = refl

abbrev long_message : Text
long_message = codes "aaaa bbbb cccc dddd eeee ff"

three_parts :
    split_message long_message 24
    ≡ codes "aaaa bbbb (1/3)" ∷ codes " cccc (2/3)" ∷ codes " dddd eeee ff (3/3)" ∷ []
unfolding split_message decimal
three_parts = refl

abbrev fenced : Text
fenced = codes "```js" ++ 10 ∷ codes "let a = 1;" ++ 10 ∷ codes "let b = 22;" ++ 10 ∷ codes "```"

rooms : All (HasRoom 31) (raw_chunks fenced 31)
unfolding raw_chunks
rooms = (λ h. omega arith, (λ h. omega arith, tt))

few_chunks : length (raw_chunks fenced 31) < 1000
unfolding raw_chunks
few_chunks = omega arith

split_message-IsWithin_example : All (IsWithin 31) (split_message fenced 31)
split_message-IsWithin_example = split_message-IsWithin fenced 31 (omega arith) rooms few_chunks

-- A fence is closed at the end of a chunk and opened again.
fence_is_carried :
    split_message fenced 31
    ≡ (codes "```js" ++ 10 ∷ codes "let a = 1;" ++ 10 ∷ codes "``` (1/2)")
      ∷ (codes "```js" ++ 10 ∷ codes "let b = 22;" ++ 10 ∷ codes "``` (2/2)")
      ∷ []
unfolding split_message decimal
fence_is_carried = refl
