-- ===== src/Prelude/JsMap.antt =====
-- The JavaScript Map with string keys: entries in insertion order, where a write to a key that
-- is there keeps its place.
use Prim.Native.Nat.{◌+◌, ◌≤◌}
use mathlib.Core.Path.{◌≡◌, refl}
use mathlib.Core.Bool.{Bool, true, false}
use mathlib.Core.List.{List, [], ◌∷◌}
use mathlib.Core.Option.{Option, none, some}
use native.Mathlib.Omega.{arith}
use mathlib.Core.Logic.{inl, inr}
use flopsy.Prelude.Tests.{if◌then◌else◌, Bool-cases}
use flopsy.Prelude.Lists.{length}
use flopsy.Prelude.Strings.{Text, str_eq, str_eq_iff}

abbrev pub JsMap {ℓ} : Type ℓ → Type ℓ
JsMap V = List (Text × V)

module _ {ℓ} {V : Type ℓ} where
  unfoldable pub get : Text → JsMap V → Option V
  get k [] = none
  get k ((j, v) ∷ m) = if str_eq j k then some v else get k m

  unfoldable pub has : Text → JsMap V → Bool
  has k [] = false
  has k ((j, v) ∷ m) = if str_eq j k then true else has k m

  unfoldable pub set : Text → V → JsMap V → JsMap V
  set k v [] = (k, v) ∷ []
  set k v ((j, w) ∷ m) = if str_eq j k then (j, v) ∷ m else (j, w) ∷ set k v m

  unfoldable pub delete : Text → JsMap V → JsMap V
  delete k [] = []
  delete k ((j, v) ∷ m) = if str_eq j k then delete k m else (j, v) ∷ delete k m

  unfoldable pub values : JsMap V → List V
  values [] = []
  values ((j, v) ∷ m) = v ∷ values m

  pub get-set :
      (k j : Text) (v : V) (m : JsMap V)
      → get j (set k v m) ≡ (if str_eq k j then some v else get j m)
  unfolding get set
  get-set k j v [] = refl
  get-set k j v ((i, w) ∷ m) =
      ground (arith, str_eq_iff k j, str_eq_iff i k, str_eq_iff i j, get-set k j v m)

  pub get-delete :
      (k j : Text) (m : JsMap V) → get j (delete k m) ≡ (if str_eq k j then none else get j m)
  unfolding get delete
  get-delete k j [] = ground arith
  get-delete k j ((i, w) ∷ m) =
      ground (arith, str_eq_iff k j, str_eq_iff i k, str_eq_iff i j, get-delete k j m)

  pub has-of_get : (k : Text) (m : JsMap V) (v : V) → get k m ≡ some v → has k m ≡ true
  unfolding get has
  has-of_get k [] v h = cc
  has-of_get k ((j, w) ∷ m) v h = ground (arith, has-of_get k m v)

  pub has-false-of_get : (k : Text) (m : JsMap V) → get k m ≡ none → has k m ≡ false
  unfolding get has
  has-false-of_get k [] h = refl
  has-false-of_get k ((j, w) ∷ m) h = ground (arith, has-false-of_get k m)

  pub length-set-le : (k : Text) (v : V) (m : JsMap V) → length (set k v m) ≤ length m + 1
  unfolding set
  length-set-le k v [] = omega arith
  length-set-le k v ((j, w) ∷ m) = ground (arith, length-set-le k v m)

  pub length-delete-le : (k : Text) (m : JsMap V) → length (delete k m) ≤ length m
  unfolding delete
  length-delete-le k [] = omega arith
  length-delete-le k ((j, w) ∷ m) = ground (arith, length-delete-le k m)

  pub length-delete-lt :
      (k : Text) (m : JsMap V) (v : V) → get k m ≡ some v → length (delete k m) + 1 ≤ length m
  unfolding delete get
  length-delete-lt k [] v h = cc
  length-delete-lt k ((j, w) ∷ m) v h = ground (arith, length-delete-lt k m v, length-delete-le k m)

  -- No two entries have one key, as in every Map.
  abbrev pub Distinct : JsMap V → Type ℓ
  Distinct [] = Unit
  Distinct ((k, v) ∷ m) = (get k m ≡ none) × Distinct m

  pub set-Distinct : (k : Text) (v : V) (m : JsMap V) → Distinct m → Distinct (set k v m)
  unfolding set get
  set-Distinct k v [] h = (refl, tt)
  set-Distinct k v ((j, w) ∷ m) h =
      ground (arith, set-Distinct k v m h.1, get-set k j v m, str_eq_iff k j, str_eq_iff j k)

  pub delete-Distinct : (k : Text) (m : JsMap V) → Distinct m → Distinct (delete k m)
  unfolding delete
  delete-Distinct k [] h = tt
  delete-Distinct k ((j, w) ∷ m) h = ground (arith, delete-Distinct k m h.1, get-delete k j m)

  pub delete_absent : (k : Text) (m : JsMap V) → get k m ≡ none → delete k m ≡ m
  unfolding get delete
  delete_absent k [] h = refl
  delete_absent k ((j, w) ∷ m) h = ground (arith, delete_absent k m)

module _ {ℓ κ} {V : Type ℓ} (P : Text → Type κ) where
  -- Every key satisfies the predicate.
  abbrev pub AllKeys : JsMap V → Type κ
  AllKeys [] = Unit
  AllKeys ((k, v) ∷ m) = P k × AllKeys m

  pub set-AllKeys : (k : Text) (v : V) (m : JsMap V) → P k → AllKeys m → AllKeys (set k v m)
  unfolding set
  set-AllKeys k v [] p h = (p, tt)
  set-AllKeys k v ((j, w) ∷ m) p h = ground (arith, set-AllKeys k v m p h.1)

  -- A write to a key that is there adds no key.
  pub set-AllKeys-has :
      (k : Text) (v : V) (m : JsMap V) → has k m ≡ true → AllKeys m → AllKeys (set k v m)
  unfolding set has
  set-AllKeys-has k v [] e h = cc
  set-AllKeys-has k v ((j, w) ∷ m) e h = elim (Bool-cases (str_eq j k)) [
    | inl hit ↦ rw hit h
    | inr miss ↦ rw miss (h.0, set-AllKeys-has k v m (ground arith) h.1)
  ]

  pub delete-AllKeys : (k : Text) (m : JsMap V) → AllKeys m → AllKeys (delete k m)
  unfolding delete
  delete-AllKeys k [] h = tt
  delete-AllKeys k ((j, w) ∷ m) h = ground (arith, delete-AllKeys k m h.1)

module _ {ℓ} {V : Type ℓ} where
  pub length-delete :
      (k : Text) (v : V) (m : JsMap V)
      → Distinct m
      → get k m ≡ some v
      → length (delete k m) + 1 ≡ length m
  unfolding delete get
  length-delete k v [] d h = cc
  length-delete k v ((j, w) ∷ m) d h =
      ground (arith, length-delete k v m d.1, delete_absent k m, str_eq_iff j k)
