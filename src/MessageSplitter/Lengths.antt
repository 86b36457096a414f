-- ===== src/MessageSplitter/Lengths.antt =====
-- src/gateway/src/channels/telegram/message-splitter.ts: how long the chunks are.
use flopsy.Prelude.{
  ℕ, zero, suc, ◌+◌, ◌-◌, ◌%◌, ◌≤◌, ◌<◌, ◌≡◌, inl, inr, Bool, true, false, not, ◌&&◌, Option, none,
  some, List, [], ◌∷◌, ◌++◌, map, arith, ltb, leb, ◌==◌, if◌then◌else◌, leb→le, Bool-cases, length,
  take, drop, All, length-append, Text, codes, decimal,
}
use flopsy.Prelude.{length-decimal}
use flopsy.MessageSplitter.{
  with_marks, split_message, indicator_reserve, Place, Chunk, before, split_place,
  detect_open_fence, retreat, retreat_to, headroom_of, cut_chunk, hard_slices, split_loop,
  safety_limit, raw_chunks, text_of, prefix_of, find_last_unescaped_backtick,
  count_unescaped_backticks, fence_close,
}

length-take-le : (n : ℕ) (s : Text) → length (take n s) ≤ n
length-take-le zero s = omega arith
length-take-le (suc n) [] = omega arith
length-take-le (suc n) (x ∷ xs) = omega (arith, length-take-le n xs)

length-take-length : (n : ℕ) (s : Text) → length (take n s) ≤ length s
length-take-length zero s = omega arith
length-take-length (suc n) [] = omega arith
length-take-length (suc n) (x ∷ xs) = omega (arith, length-take-length n xs)

length-before : (p : Place) (s : Text) → length (before p s) ≤ length s
unfolding before
length-before p s = elim (Bool-cases p.from_end) [
  | inl back ↦ rw back (length-take-length (length s - p.at) s)
  | inr front ↦ rw front (length-take-length p.at s)
]

length-retreat_to :
    (o : Option ℕ) (body : Text) (at : Place) → length (retreat_to o body at).0 ≤ length body
unfolding retreat_to
length-retreat_to none body at = omega arith
length-retreat_to (some zero) body at = omega arith
length-retreat_to (some (suc i)) body at = length-take-length (suc i) body

length-retreat : (f : Bool) (body : Text) (at : Place) → length (retreat f body at).0 ≤ length body
unfolding retreat
length-retreat f body at = elim (Bool-cases (not f && (count_unescaped_backticks body % 2 == 1))) [
  | inl odd ↦ rw odd (length-retreat_to (find_last_unescaped_backtick body) body at)
  | inr even ↦ rw even (omega arith)
]

-- The chunk leaves room for the mark, if its prefix leaves room for itself and the closing fence.
abbrev pub Fits : ℕ → Chunk → Type 0
Fits max_length c =
    14 + length c.prefix ≤ max_length → length (text_of c) + indicator_reserve ≤ max_length

length-text_of :
    (c : Chunk) → length (text_of c) ≡ length c.prefix + (length c.body + length c.closing)
unfolding text_of
length-text_of c =
    omega (arith, length-append c.prefix (c.body ++ c.closing), length-append c.body c.closing)

length-headroom :
    (max_length : ℕ) (prefix s : Text)
    → 14 + length prefix ≤ max_length
    → length (before (headroom_of max_length prefix) s) + 14 + length prefix ≤ max_length
unfolding before headroom_of
length-headroom max_length prefix s h =
    let room : leb (14 + length prefix) max_length ≡ true = ground (arith, h) in
    rw room (omega (arith, h, length-take-le (max_length - (14 + length prefix)) s))

length-closing : (b : Bool) → length (if b then fence_close else []) ≤ 4
length-closing true = omega arith
length-closing false = omega arith

cut_chunk-Fits :
    (max_length : ℕ) (prefix remaining : Text)
    → Fits max_length (cut_chunk max_length prefix remaining).0
unfolding cut_chunk
cut_chunk-Fits max_length prefix remaining h =
    let headroom = headroom_of max_length prefix in
    let region = before headroom remaining in
    let at = split_place region headroom in
    let first = before at region in
    let fence = detect_open_fence (prefix ++ first) in
    let c : Chunk = (cut_chunk max_length prefix remaining).0 in
    let whole : length (text_of c)
        ≡ length prefix
          + (length (retreat fence.is_open first at).0
              + length (if fence.is_open then fence_close else [])) =
      length-text_of c in
    omega (
      arith,
      whole,
      length-headroom max_length prefix remaining h,
      length-before at region,
      length-retreat fence.is_open first at,
      length-closing fence.is_open,
    )

hard_slices-Fits :
    (fuel max_length : ℕ) (s : Text)
    → All (Fits max_length) (hard_slices fuel (max_length - indicator_reserve) s)
unfolding hard_slices
hard_slices-Fits zero max_length s = tt
hard_slices-Fits (suc fuel) max_length [] = tt
hard_slices-Fits (suc fuel) max_length (x ∷ xs) =
    let n = max_length - indicator_reserve in
    let c : Chunk = record { prefix = []; body = take n (x ∷ xs); closing = [] } in
    let whole : length (text_of c) ≡ 0 + (length (take n (x ∷ xs)) + 0) = length-text_of c in
    (
      λ h. omega (arith, h, whole, length-take-le n (x ∷ xs)),
      hard_slices-Fits fuel max_length (drop n (x ∷ xs)),
    )

whole-Fits :
    (max_length : ℕ) (prefix s : Text)
    → leb (length prefix + length s + indicator_reserve) max_length ≡ true
    → Fits max_length (record { prefix = prefix; body = s; closing = [] })
whole-Fits max_length prefix s fits h =
    let c : Chunk = record { prefix = prefix; body = s; closing = [] } in
    let whole : length (text_of c) ≡ length prefix + (length s + 0) = length-text_of c in
    omega (arith, whole, leb→le (length prefix + length s + indicator_reserve) max_length fits)

split_loop-Fits :
    (max_length n : ℕ) (s : Text) (carry : Option Text)
    → All (Fits max_length) (split_loop max_length n s carry)
unfolding split_loop
split_loop-Fits max_length zero s carry = hard_slices-Fits (length s) max_length s
split_loop-Fits max_length (suc n) [] carry = tt
split_loop-Fits max_length (suc n) (x ∷ xs) carry =
    let prefix = prefix_of carry in
    let (chunk, remaining, carry') = cut_chunk max_length prefix (x ∷ xs) in
    elim (Bool-cases (leb (length prefix + length (x ∷ xs) + 10) max_length)) [
      | inl fits ↦ rw fits (whole-Fits max_length prefix (x ∷ xs) fits, tt)
      | inr longer ↦
          rw longer (
            cut_chunk-Fits max_length prefix (x ∷ xs),
            split_loop-Fits max_length n remaining carry',
          )
    ]

-- A fence that is opened again leaves room for text.
abbrev pub HasRoom : ℕ → Chunk → Type 0
HasRoom max_length c = 0 < length c.prefix → 14 + length c.prefix ≤ max_length

-- The same of every chunk, those that open no fence included.
abbrev Leaves : ℕ → Chunk → Type 0
Leaves max_length c = 14 + length c.prefix ≤ max_length

All-Leaves :
    (max_length : ℕ) (cs : List Chunk)
    → 14 ≤ max_length
    → All (HasRoom max_length) cs
    → All (Leaves max_length) cs
All-Leaves max_length [] h r = tt
All-Leaves max_length (c ∷ cs) h r = (
  elim (Bool-cases (ltb 0 (length c.prefix))) [
    | inl opens ↦ r.0 (ground (arith, opens))
    | inr plain ↦ ground (arith, h, plain)
  ],
  All-Leaves max_length cs h r.1,
)

abbrev pub IsWithin : ℕ → Text → Type 0
IsWithin max_length t = length t ≤ max_length

with_marks-IsWithin :
    (max_length i total : ℕ) (cs : List Chunk)
    → All (Fits max_length) cs
    → All (Leaves max_length) cs
    → i + length cs ≤ total + 1
    → total < 1000
    → All (IsWithin max_length) (with_marks i total cs)
unfolding with_marks
with_marks-IsWithin max_length i total [] f r le lt = tt
with_marks-IsWithin max_length i total (c ∷ cs) f r le lt =
    let mark = codes " (" ++ (decimal i ++ (b'/' ∷ (decimal total ++ codes ")"))) in
    (
      omega (
        arith,
        f.0 r.0,
        length-append (text_of c) mark,
        length-append (decimal i) (b'/' ∷ (decimal total ++ codes ")")),
        length-append (decimal total) (codes ")"),
        length-decimal i (omega (arith, le, lt)),
        length-decimal total lt,
      ),
      with_marks-IsWithin max_length (i + 1) total cs f.1 r.1 (omega (arith, le)) lt,
    )

texts-IsWithin :
    (max_length : ℕ) (cs : List Chunk)
    → All (Fits max_length) cs
    → All (Leaves max_length) cs
    → All (IsWithin max_length) (map text_of cs)
texts-IsWithin max_length [] f r = tt
texts-IsWithin max_length (c ∷ cs) f r =
    (omega (arith, f.0 r.0), texts-IsWithin max_length cs f.1 r.1)

-- No message that is sent is longer than the limit, if the limit is at least 14, there are fewer than
-- 1000 messages, and none has to open again a fence whose language leaves no room for text: the line
-- that opens it is at least 14 shorter than the limit.
pub split_message-IsWithin :
    (content : Text) (max_length : ℕ)
    → 14 ≤ max_length
    → All (HasRoom max_length) (raw_chunks content max_length)
    → length (raw_chunks content max_length) < 1000
    → All (IsWithin max_length) (split_message content max_length)
unfolding split_message
split_message-IsWithin content max_length large opened few =
    let chunks = raw_chunks content max_length in
    let room = All-Leaves max_length chunks large opened in
    let fits : All (Fits max_length) chunks =
      unfold raw_chunks in
      split_loop-Fits max_length (safety_limit (length content) max_length) content none in
    elim (Bool-cases (leb (length content) max_length)) [
      | inl short ↦ rw short (leb→le (length content) max_length short, tt)
      | inr long ↦ rw long (elim (Bool-cases (ltb 1 (length chunks))) [
        | inl several ↦
            rw several
              (with_marks-IsWithin max_length 1 (length chunks) chunks fits room (omega arith) few)
        | inr one ↦ rw one (texts-IsWithin max_length chunks fits room)
      ])
    ]
