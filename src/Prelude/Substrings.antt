-- ===== src/Prelude/Substrings.antt =====
-- Texts searched for other texts.
use Prim.Native.Nat.{ℕ, zero, suc, ◌+◌, ◌-◌}
use mathlib.Core.Bool.{Bool, false, ◌&&◌, ◌||◌}
use mathlib.Core.List.{List, [], ◌∷◌, ◌++◌}
use mathlib.Core.Option.{Option, none, some}
use flopsy.Prelude.Tests.{leb, ◌==◌, if◌then◌else◌}
use flopsy.Prelude.Lists.{length, drop}
use flopsy.Prelude.Strings.{Text, str_eq, starts_with}

-- String.prototype.endsWith.
unfoldable pub ends_with : Text → Text → Bool
unfolding str_eq
ends_with s suffix =
    leb (length suffix) (length s) && str_eq (drop (length s - length suffix) s) suffix

-- String.prototype.includes.
unfoldable pub includes : Text → Text → Bool
unfolding starts_with
includes [] p = starts_with [] p
includes (x ∷ xs) p = starts_with (x ∷ xs) p || includes xs p

-- The places still to skip are those of an occurrence that was replaced.
replace_after : ℕ → Text → Text → Text → Text
unfolding starts_with
replace_after (suc k) p r [] = []
replace_after zero p r [] = []
replace_after (suc k) p r (x ∷ xs) = replace_after k p r xs
replace_after zero p r (x ∷ xs) =
    let hit = starts_with (x ∷ xs) p in
    let rest = replace_after (if hit then length p - 1 else 0) p r xs in
    if hit then r ++ rest else x ∷ rest

-- `split(p).join(r)`, for a text `p` that is not empty.
unfoldable pub replace_all : Text → Text → Text → Text
unfolding replace_after
replace_all s p r = replace_after 0 p r s

unfoldable pub some_of {ℓ} : {A : Type ℓ} → (A → Bool) → List A → Bool
some_of p [] = false
some_of p (x ∷ xs) = p x || some_of p xs

-- The pieces of a text between the occurrences of a character; there is always one.
abbrev pub onto_first : ℕ → List Text → List Text
onto_first x [] = (x ∷ []) ∷ []
onto_first x (p ∷ ps) = (x ∷ p) ∷ ps

unfoldable pub split_on : ℕ → Text → List Text
split_on c [] = [] ∷ []
split_on c (x ∷ xs) = let rest = split_on c xs in if x == c then [] ∷ rest else onto_first x rest

-- The text before the first occurrence of a character and the text after it.
abbrev after_char : ℕ → Option (Text × Text) → Option (Text × Text)
after_char x none = none
after_char x (some (before, after)) = some (x ∷ before, after)

unfoldable pub cut_at : ℕ → Text → Option (Text × Text)
cut_at c [] = none
cut_at c (x ∷ xs) = let rest = cut_at c xs in if x == c then some ([], xs) else after_char x rest

-- `toLowerCase`, on ASCII text.
unfoldable pub lower_case : Text → Text
lower_case [] = []
lower_case (x ∷ xs) = (if leb b'A' x && leb x b'Z' then x + 32 else x) ∷ lower_case xs
