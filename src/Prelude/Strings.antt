-- ===== src/Prelude/Strings.antt =====
-- JavaScript strings as lists of UTF-16 code units, their equality, and decimal numerals.
use Prim.Native.Char.{code}
use Prim.Native.String.{String}
use Prim.Native.Nat.{ℕ, zero, suc, ◌+◌, ◌-◌, ◌*◌, ◌/◌, ◌%◌, ◌<◌, ◌≤◌}
use mathlib.Core.Path.{◌≡◌, refl, ap, ◌∙◌, sym}
use mathlib.Core.Logic.{◌↔◌, inl, inr}
use mathlib.Core.Bool.{Bool, true, false, ◌&&◌, ◌||◌}
use mathlib.Core.List.{List, [], ◌∷◌, ◌++◌, reverse}
use native.Mathlib.Omega.{arith}
use flopsy.Prelude.Lists.{length, length-append}
use flopsy.Prelude.Tests.{◌==◌, ltb, leb, if◌then◌else◌, Bool-cases}

abbrev pub Text : Type 0
Text = List ℕ

-- The code units of a literal; every literal of the program is ASCII.
abbrev pub codes : String → Text
codes String.[] = []
codes (String.◌∷◌ c s) = code c ∷ codes s

unfoldable pub str_eq : Text → Text → Bool
str_eq [] [] = true
str_eq [] (y ∷ ys) = false
str_eq (x ∷ xs) [] = false
str_eq (x ∷ xs) (y ∷ ys) = x == y && str_eq xs ys

str_eq-eq : (s t : Text) → str_eq s t ≡ true → s ≡ t
unfolding str_eq
str_eq-eq [] [] h = refl
str_eq-eq [] (y ∷ ys) h = cc
str_eq-eq (x ∷ xs) [] h = cc
str_eq-eq (x ∷ xs) (y ∷ ys) h = ground (arith, str_eq-eq xs ys)

pub str_eq_refl : (s : Text) → str_eq s s ≡ true
unfolding str_eq
str_eq_refl [] = refl
str_eq_refl (x ∷ xs) = ground (arith, str_eq_refl xs)

pub str_eq_iff : (s t : Text) → (str_eq s t ≡ true) ↔ (s ≡ t)
str_eq_iff s t = (str_eq-eq s t, λ e. rw e (str_eq_refl t))

-- String.prototype.startsWith.
unfoldable pub starts_with : Text → Text → Bool
starts_with s [] = true
starts_with [] (y ∷ ys) = false
starts_with (x ∷ xs) (y ∷ ys) = x == y && starts_with xs ys

-- The decimal numeral of a number below the fuel.
decimal_fuel : ℕ → ℕ → Text
decimal_fuel zero n = []
decimal_fuel (suc f) n =
    let rest = decimal_fuel f (n / 10) ++ (b'0' + n % 10) ∷ [] in
    if ltb n 10 then (b'0' + n) ∷ [] else rest

unfoldable pub decimal : ℕ → Text
unfolding decimal_fuel
decimal n = decimal_fuel (suc n) n

parse : ℕ → Text → ℕ
parse acc [] = acc
parse acc (c ∷ cs) = parse (acc * 10 + (c - b'0')) cs

parse-snoc : (acc : ℕ) (s : Text) (c : ℕ) → parse acc (s ++ c ∷ []) ≡ parse acc s * 10 + (c - b'0')
unfolding parse
parse-snoc acc [] c = refl
parse-snoc acc (x ∷ s) c = parse-snoc (acc * 10 + (x - b'0')) s c

parse-decimal_fuel : (f n : ℕ) → n < f → parse 0 (decimal_fuel f n) ≡ n
unfolding decimal_fuel parse
parse-decimal_fuel zero n h = elim h [ ]
parse-decimal_fuel (suc f) n h =
    ground
      (arith, parse-snoc 0 (decimal_fuel f (n / 10)) (b'0' + n % 10), parse-decimal_fuel f (n / 10))

-- Two numbers have one numeral only if they are equal.
pub decimal_inj : (m n : ℕ) → decimal m ≡ decimal n → m ≡ n
unfolding decimal
decimal_inj m n e =
    sym (parse-decimal_fuel (suc m) m (omega arith))
    ∙ ap (parse 0) e
    ∙ parse-decimal_fuel (suc n) n (omega arith)

-- The characters that String.prototype.trim strips.
abbrev pub is_space : ℕ → Bool
is_space c =
    (c == 32)
    || (leb 9 c && leb c 13)
    || (c == 0xa0)
    || (c == 0x1680)
    || (leb 0x2000 c && leb c 0x200a)
    || (c == 0x2028)
    || (c == 0x2029)
    || (c == 0x202f)
    || (c == 0x205f)
    || (c == 0x3000)
    || (c == 0xfeff)

unfoldable pub trim_start : Text → Text
trim_start [] = []
trim_start (c ∷ s) = if is_space c then trim_start s else c ∷ s

-- String.prototype.trim.
unfoldable pub trim : Text → Text
unfolding trim_start
trim s = reverse (trim_start (reverse (trim_start s)))

length-decimal_fuel :
    (f n : ℕ)
    → (n < 10 → length (decimal_fuel f n) ≤ 1)
      × (n < 100 → length (decimal_fuel f n) ≤ 2)
      × (n < 1000 → length (decimal_fuel f n) ≤ 3)
unfolding decimal_fuel
length-decimal_fuel zero n = (λ h. omega arith, λ h. omega arith, λ h. omega arith)
length-decimal_fuel (suc f) n =
    let (one, two, three) = length-decimal_fuel f (n / 10) in
    let longer = length-append (decimal_fuel f (n / 10)) ((b'0' + n % 10) ∷ []) in
    elim (Bool-cases (ltb n 10)) [
      | inl small ↦ rw small (λ h. omega arith, λ h. omega arith, λ h. omega arith)
      | inr large ↦ rw large (
        λ h. ground (arith, h, large),
        λ h. omega (arith, longer, one (omega (arith, h))),
        λ h. omega (arith, longer, two (omega (arith, h))),
      )
    ]

-- A number below 1000 has at most three digits.
pub length-decimal : (n : ℕ) → n < 1000 → length (decimal n) ≤ 3
unfolding decimal
length-decimal n h = (length-decimal_fuel (suc n) n).2 h
