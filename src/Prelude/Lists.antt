-- ===== src/Prelude/Lists.antt =====
-- Lists measured by native numbers, and membership tests over texts.
use Prim.Native.Nat.{ℕ, zero, suc, ◌+◌}
use Prim.Native.String.{String}
use mathlib.Core.Path.{◌≡◌, refl}
use mathlib.Core.Bool.{Bool, true, false, ◌&&◌, ◌||◌}
use mathlib.Core.List.{List, [], ◌∷◌, ◌++◌}
use native.Mathlib.Omega.{arith}
use text.Mathlib.Text.{◌==◌}
use text.Mathlib.TextEquality.{eq_iff}

module _ {ℓ} {A : Type ℓ} where
  abbrev pub length : List A → ℕ
  length [] = 0
  length (x ∷ xs) = suc (length xs)

  pub length-append : (xs ys : List A) → length (xs ++ ys) ≡ length xs + length ys
  length-append [] ys = omega arith
  length-append (x ∷ xs) ys = omega (arith, length-append xs ys)

  -- `xs[i]`, with a value for an index past the end.
  abbrev pub get_or : List A → ℕ → A → A
  get_or [] i d = d
  get_or (x ∷ xs) zero d = x
  get_or (x ∷ xs) (suc i) d = get_or xs i d

  abbrev pub All {κ} : (A → Type κ) → List A → Type κ
  All P [] = Unit
  All P (x ∷ xs) = P x × All P xs

  abbrev pub all : (A → Bool) → List A → Bool
  all p [] = true
  all p (x ∷ xs) = p x && all p xs

-- `contains` of a slice of texts.
unfoldable pub contains : List String → String → Bool
contains [] s = false
contains (x ∷ xs) s = x == s || contains xs s

-- Every text of the first list is in the second.
abbrev pub is_subset : List String → List String → Bool
is_subset xs ys = all (λ x. contains ys x) xs

contains-cons :
    (y x : String) (ys : List String) → contains ys x ≡ true → contains (y ∷ ys) x ≡ true
unfolding contains
contains-cons y x ys h = ground arith

is_subset-cons :
    (y : String) (xs ys : List String) → is_subset xs ys ≡ true → is_subset xs (y ∷ ys) ≡ true
is_subset-cons y [] ys h = refl
is_subset-cons y (x ∷ xs) ys h = ground (arith, contains-cons y x ys, is_subset-cons y xs ys)

pub is_subset_refl : (xs : List String) → is_subset xs xs ≡ true
unfolding contains
is_subset_refl [] = refl
is_subset_refl (x ∷ xs) = ground (arith, eq_iff x x, is_subset-cons x xs xs (is_subset_refl xs))
