-- ===== src/MessageSplitter.antt =====
-- src/gateway/src/channels/telegram/message-splitter.ts (splitMessage), for a limit above 10. A chunk
-- is kept in its parts, the fence that is opened again, the text and the fence that is closed. A place
-- in a text is counted from its end where the source has a negative number.
pub mod Lengths
pub mod Slices
mod Examples
use flopsy.Prelude.{
  ℕ, zero, suc, ◌+◌, ◌-◌, ◌*◌, ◌/◌, ◌%◌, max, Bool, true, false, not, ◌&&◌, ◌||◌, Option, none,
  some, List, [], ◌∷◌, ◌++◌, map, ltb, leb, ◌==◌, if◌then◌else◌, length, take, drop, Text, codes,
  starts_with, decimal,
}
use flopsy.Prelude.{is_space, trim_start}
use flopsy.Prelude.Substrings.{split_on}

abbrev pub indicator_reserve : ℕ
indicator_reserve = 10

abbrev pub fence_close : Text
fence_close = 10 ∷ codes "```"

pub record FenceState : Type 0 where
  pub is_open : Bool
  pub lang : Text

pub record Place : Type 0 where
  pub from_end : Bool
  pub at : ℕ

pub record Chunk : Type 0 where
  pub prefix : Text
  pub body : Text
  pub closing : Text

-- `s.slice(0, p)` and `s.slice(p)`.
unfoldable pub before : Place → Text → Text
before p s = if p.from_end then take (length s - p.at) s else take p.at s

unfoldable pub after : Place → Text → Text
after p s = if p.from_end then drop (length s - p.at) s else drop p.at s

abbrev is_word : ℕ → Bool
is_word x =
    ((leb b'A' x && leb x b'Z') || (leb b'a' x && leb x b'z'))
    || ((leb b'0' x && leb x b'9') || x == b'_')

all_spaces : Text → Bool
all_spaces [] = true
all_spaces (x ∷ xs) = is_space x && all_spaces xs

-- A word and then only spaces.
word_of : Text → Option Text
unfolding all_spaces
word_of [] = some []
word_of (x ∷ xs) =
    let rest = word_of xs in
    if is_word x
    then elim rest [ none ↦ none | some w ↦ some (x ∷ w) ]
    else if all_spaces (x ∷ xs)
    then some []
    else none

-- The language of a line that matches `^(\s*)```(\w*)\s*$`.
fence_line : Text → Option Text
unfolding word_of trim_start starts_with
fence_line line =
    let start = trim_start line in
    if starts_with start (codes "```") then word_of (drop 3 start) else none

toggle : Option Text → FenceState → FenceState
toggle none f = f
toggle (some lang) f =
    if f.is_open
    then record { is_open = false; lang = [] }
    else record { is_open = true; lang = lang }

scan_lines : List Text → FenceState → FenceState
unfolding toggle fence_line
scan_lines [] f = f
scan_lines (l ∷ ls) f = scan_lines ls (toggle (fence_line l) f)

unfoldable pub detect_open_fence : Text → FenceState
unfolding scan_lines split_on
detect_open_fence body = scan_lines (split_on 10 body) (record { is_open = false; lang = [] })

-- The last place of a backtick, after a character that is no backslash, from a place on.
last_backtick : ℕ → Bool → Text → Option ℕ
last_backtick i escaped [] = none
last_backtick i escaped (x ∷ xs) =
    let rest = last_backtick (i + 1) (x == 92) xs in
    elim rest [ some j ↦ some j | none ↦ if x == 96 && not escaped then some i else none ]

unfoldable pub find_last_unescaped_backtick : Text → Option ℕ
unfolding last_backtick
find_last_unescaped_backtick s = last_backtick 0 false s

count_backticks : Bool → Text → ℕ
count_backticks escaped [] = 0
count_backticks escaped (x ∷ xs) =
    let rest = count_backticks (x == 92) xs in if x == 96 && not escaped then 1 + rest else rest

unfoldable pub count_unescaped_backticks : Text → ℕ
unfolding count_backticks
count_unescaped_backticks s = count_backticks false s

last_index : ℕ → ℕ → Text → Option ℕ
last_index i c [] = none
last_index i c (x ∷ xs) =
    let rest = last_index (i + 1) c xs in
    elim rest [ some j ↦ some j | none ↦ if x == c then some i else none ]

unfoldable pub last_index_of : ℕ → Text → Option ℕ
unfolding last_index
last_index_of c s = last_index 0 c s

-- `splitAt < headroom / 2`, where none is -1.
is_early : Option ℕ → Place → Bool
is_early none headroom = if headroom.from_end then ltb headroom.at 2 else true
is_early (some i) headroom = if headroom.from_end then false else ltb (2 * i) headroom.at

later_of : Option ℕ → Option ℕ → Option ℕ
later_of none o = o
later_of (some i) none = some i
later_of (some i) (some j) = if ltb i j then some j else some i

place_or : Option ℕ → Place → Place
place_or none headroom = headroom
place_or (some zero) headroom = headroom
place_or (some (suc i)) headroom = record { from_end = false; at = suc i }

-- A line break that is not too early, else a space, else the whole headroom.
unfoldable pub split_place : Text → Place → Place
unfolding is_early later_of place_or last_index_of
split_place region headroom =
    let newline = last_index_of 10 region in
    place_or
      (if is_early newline headroom then later_of newline (last_index_of 32 region) else newline)
      headroom

retreat_to : Option ℕ → Text → Place → Text × Place
retreat_to none body at = (body, at)
retreat_to (some zero) body at = (body, at)
retreat_to (some (suc i)) body at = (take (suc i) body, record { from_end = false; at = suc i })

-- Back before a backtick that is not paired.
unfoldable pub retreat : Bool → Text → Place → Text × Place
unfolding retreat_to find_last_unescaped_backtick count_unescaped_backticks
retreat in_fence body at =
    if not in_fence && (count_unescaped_backticks body % 2 == 1)
    then retreat_to (find_last_unescaped_backtick body) body at
    else (body, at)

prefix_of : Option Text → Text
prefix_of none = []
prefix_of (some lang) = codes "```" ++ (lang ++ 10 ∷ [])

unfoldable pub headroom_of : ℕ → Text → Place
headroom_of max_length prefix =
    let used = 14 + length prefix in
    if leb used max_length
    then record { from_end = false; at = max_length - used }
    else record { from_end = true; at = used - max_length }

skip_newline : Text → Text
skip_newline [] = []
skip_newline (x ∷ xs) = if x == 10 then xs else x ∷ xs

-- One turn of the loop where the rest does not fit: the chunk, what remains and the fence carried on.
unfoldable pub cut_chunk : ℕ → Text → Text → Chunk × Text × Option Text
unfolding before after split_place detect_open_fence retreat headroom_of skip_newline
cut_chunk max_length prefix remaining =
    let headroom = headroom_of max_length prefix in
    let region = before headroom remaining in
    let at = split_place region headroom in
    let first = before at region in
    let fence = detect_open_fence (prefix ++ first) in
    let (body, at') = retreat fence.is_open first at in
    (
      record { prefix = prefix; body = body; closing = if fence.is_open then fence_close else [] },
      skip_newline (after at' remaining),
      if fence.is_open then some fence.lang else none,
    )

-- The fallback, on fuel; the length of the text is enough, as a slice takes one character at least.
unfoldable pub hard_slices : ℕ → ℕ → Text → List Chunk
hard_slices zero n s = []
hard_slices (suc fuel) n [] = []
hard_slices (suc fuel) n (x ∷ xs) =
    record { prefix = []; body = take n (x ∷ xs); closing = [] }
    ∷ hard_slices fuel n (drop n (x ∷ xs))

-- The loop, whose bound is the source's own.
unfoldable pub split_loop : ℕ → ℕ → Text → Option Text → List Chunk
unfolding cut_chunk hard_slices prefix_of
split_loop max_length zero remaining carry =
    hard_slices (length remaining) (max_length - indicator_reserve) remaining
split_loop max_length (suc n) [] carry = []
split_loop max_length (suc n) (x ∷ xs) carry =
    let prefix = prefix_of carry in
    let (chunk, remaining, carry') = cut_chunk max_length prefix (x ∷ xs) in
    let rest = split_loop max_length n remaining carry' in
    if leb (length prefix + length (x ∷ xs) + indicator_reserve) max_length
    then record { prefix = prefix; body = x ∷ xs; closing = [] } ∷ []
    else chunk ∷ rest

unfoldable pub safety_limit : ℕ → ℕ → ℕ
safety_limit n max_length =
    let step = max 1 (max_length - indicator_reserve) in (n + step - 1) / step + 4

unfoldable pub text_of : Chunk → Text
text_of c = c.prefix ++ (c.body ++ c.closing)

with_marks : ℕ → ℕ → List Chunk → List Text
unfolding text_of
with_marks i total [] = []
with_marks i total (c ∷ cs) =
    (text_of c ++ (codes " (" ++ (decimal i ++ (b'/' ∷ (decimal total ++ codes ")")))))
    ∷ with_marks (i + 1) total cs

unfoldable pub raw_chunks : Text → ℕ → List Chunk
unfolding split_loop safety_limit
raw_chunks content max_length =
    split_loop max_length (safety_limit (length content) max_length) content none

unfoldable pub split_message : Text → ℕ → List Text
unfolding raw_chunks with_marks text_of
split_message content max_length =
    if leb (length content) max_length
    then content ∷ []
    else (let chunks = raw_chunks content max_length in
        if ltb 1 (length chunks) then with_marks 1 (length chunks) chunks else map text_of chunks)
