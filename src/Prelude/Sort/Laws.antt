-- ===== src/Prelude/Sort/Laws.antt =====
-- What sorting, and removing repeated neighbours, does to a list of texts.
use Prim.Native.String.{String}
use mathlib.Core.Path.{◌≡◌, refl, ◌∙◌, ap, ap₂, subst}
use mathlib.Core.Logic.{◌≢◌, inl, inr}
use mathlib.Core.Bool.{true, false, ◌||◌}
use mathlib.Core.List.{List, [], ◌∷◌}
use native.Mathlib.Omega.{arith}
use text.Mathlib.Text.{◌==◌}
use text.Mathlib.TextEquality.{eq_iff, Char-path}
use rowdy.Prelude.Lists.{All, contains}
use rowdy.Prelude.Tests.{Bool-cases}
use rowdy.Prelude.Sort.{leb_text, insert, sort, dedup}

leb_total : (s t : String) → leb_text s t ≡ false → leb_text t s ≡ true
unfolding leb_text
leb_total String.[] t h = absurd (ground arith)
leb_total (String.◌∷◌ c s) String.[] h = refl
leb_total (String.◌∷◌ c s) (String.◌∷◌ d t) h = ground (arith, leb_total s t)

leb_trans : (r s t : String) → leb_text r s ≡ true → leb_text s t ≡ true → leb_text r t ≡ true
unfolding leb_text
leb_trans String.[] s t h g = refl
leb_trans (String.◌∷◌ b r) String.[] t h g = absurd (ground arith)
leb_trans (String.◌∷◌ b r) (String.◌∷◌ c s) String.[] h g = absurd (ground arith)
leb_trans (String.◌∷◌ b r) (String.◌∷◌ c s) (String.◌∷◌ d t) h g = ground (arith, leb_trans r s t)

leb_antisym : (s t : String) → leb_text s t ≡ true → leb_text t s ≡ true → s ≡ t
unfolding leb_text
leb_antisym String.[] String.[] h g = refl
leb_antisym String.[] (String.◌∷◌ d t) h g = absurd (ground arith)
leb_antisym (String.◌∷◌ c s) String.[] h g = absurd (ground arith)
leb_antisym (String.◌∷◌ c s) (String.◌∷◌ d t) h g =
    let same : c ≡ d = Char-path c d (ground arith) in
    ap₂ String.◌∷◌ same (leb_antisym s t (ground arith) (ground arith))

-- Every text of the list is at most the later ones.
abbrev pub IsSorted : List String → Type 0
IsSorted [] = Unit
IsSorted (x ∷ xs) = All (λ y. leb_text x y ≡ true) xs × IsSorted xs

-- No text of the list is there twice.
abbrev pub HasNoRepeats : List String → Type 0
HasNoRepeats [] = Unit
HasNoRepeats (x ∷ xs) = (contains xs x ≡ false) × HasNoRepeats xs

-- The text is at most every text of the list.
abbrev AtMost : String → List String → Type 0
AtMost x ys = All (λ y. leb_text x y ≡ true) ys

AtMost-trans : (x y : String) (ys : List String) → leb_text x y ≡ true → AtMost y ys → AtMost x ys
AtMost-trans x y [] h a = tt
AtMost-trans x y (z ∷ zs) h (b, a) = (leb_trans x y z h b, AtMost-trans x y zs h a)

AtMost-insert :
    (z x : String) (xs : List String) → leb_text z x ≡ true → AtMost z xs → AtMost z (insert x xs)
unfolding insert
AtMost-insert z x [] p a = (p, tt)
AtMost-insert z x (y ∷ ys) p (b, a) = elim (Bool-cases (leb_text x y)) [
  | inl le ↦ rw le (p, (b, a))
  | inr gt ↦ rw gt (b, AtMost-insert z x ys p a)
]

insert-IsSorted : (x : String) (xs : List String) → IsSorted xs → IsSorted (insert x xs)
unfolding insert
insert-IsSorted x [] s = (tt, tt)
insert-IsSorted x (y ∷ ys) (a, s) = elim (Bool-cases (leb_text x y)) [
  | inl le ↦ rw le ((le, AtMost-trans x y ys le a), (a, s))
  | inr gt ↦ rw gt (AtMost-insert y x ys (leb_total x y gt) a, insert-IsSorted x ys s)
]

pub sort-IsSorted : (xs : List String) → IsSorted (sort xs)
unfolding sort
sort-IsSorted [] = tt
sort-IsSorted (x ∷ xs) = insert-IsSorted x (sort xs) (sort-IsSorted xs)

contains-insert :
    (x : String) (xs : List String) (s : String) → contains (insert x xs) s ≡ contains (x ∷ xs) s
unfolding insert contains
contains-insert x [] s = refl
contains-insert x (y ∷ ys) s = ground (arith, contains-insert x ys s)

pub contains-sort : (xs : List String) (s : String) → contains (sort xs) s ≡ contains xs s
unfolding sort contains
contains-sort [] s = refl
contains-sort (x ∷ xs) s =
    contains-insert x (sort xs) s ∙ ap (λ b. (x == s) || b) (contains-sort xs s)

pub contains-dedup : (xs : List String) (s : String) → contains (dedup xs) s ≡ contains xs s
unfolding dedup contains
contains-dedup [] s = refl
contains-dedup (x ∷ []) s = refl
contains-dedup (x ∷ y ∷ r) s = ground (arith, contains-dedup (y ∷ r) s, eq_iff x y)

-- What is below another text is below what follows that one.
contains-none :
    (x y : String) (ys : List String)
    → x ≢ y
    → leb_text x y ≡ true
    → AtMost y ys
    → contains ys x ≡ false
unfolding contains
contains-none x y [] differs le a = refl
contains-none x y (z ∷ zs) differs le (b, a) = elim (Bool-cases (z == x)) [
  | inl same ↦
      let z_is_x : z ≡ x = ground (arith, eq_iff z x) in
      absurd (differs (leb_antisym x y le (subst (λ t. leb_text y t ≡ true) z_is_x b)))
  | inr other ↦ rw other (contains-none x y zs differs le a)
]

contains_above :
    (x y : String) (ys : List String)
    → x ≢ y
    → leb_text x y ≡ true
    → AtMost y ys
    → contains (y ∷ ys) x ≡ false
unfolding contains
contains_above x y ys differs le a = ground (arith, eq_iff y x, contains-none x y ys differs le a)

pub dedup-HasNoRepeats : (xs : List String) → IsSorted xs → HasNoRepeats (dedup xs)
unfolding dedup contains
dedup-HasNoRepeats [] s = tt
dedup-HasNoRepeats (x ∷ []) s = (refl, tt)
dedup-HasNoRepeats (x ∷ y ∷ r) ((le, _), s) = elim (Bool-cases (x == y)) [
  | inl same ↦ rw same (dedup-HasNoRepeats (y ∷ r) s)
  | inr differs ↦ rw differs (
    contains-dedup (y ∷ r) x ∙ contains_above x y r (λ e. ground (arith, eq_iff x y)) le s.0,
    dedup-HasNoRepeats (y ∷ r) s,
  )
]
