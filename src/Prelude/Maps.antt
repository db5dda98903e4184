-- ===== src/Prelude/Maps.antt =====
-- Maps with string keys (`HashMap<String, V>`, `serde_json::Map`) as association lists: `insert`
-- replaces the value of a key that is there, and `collect` inserts in order, so that the last
-- pair of a key counts.
use Prim.Native.String.{String}
use mathlib.Core.Path.{◌≡◌, refl}
use mathlib.Core.Option.{Option, none, some}
use mathlib.Core.List.{List, [], ◌∷◌}
use native.Mathlib.Omega.{arith}
use text.Mathlib.Text.{◌==◌}
use text.Mathlib.TextEquality.{eq_iff}
use rowdy.Prelude.Tests.{if◌then◌else◌}

abbrev pub Dict {ℓ} : Type ℓ → Type ℓ
Dict V = List (String × V)

module _ {ℓ} {V : Type ℓ} where
  unfoldable pub get : String → Dict V → Option V
  get name [] = none
  get name ((other, value) ∷ rest) = if other == name then some value else get name rest

  unfoldable pub insert : String → V → Dict V → Dict V
  insert name value [] = (name, value) ∷ []
  insert name value ((other, old) ∷ rest) =
      let kept = insert name value rest in
      if other == name then (name, value) ∷ rest else (other, old) ∷ kept

  -- An insertion changes the value of its own key only.
  pub get-insert :
      (name wanted : String) (value : V) (m : Dict V)
      → get wanted (insert name value m) ≡ (if name == wanted then some value else get wanted m)
  unfolding get insert
  get-insert name wanted value [] = refl
  get-insert name wanted value ((other, old) ∷ rest) = ground (
    arith,
    eq_iff name wanted,
    eq_iff other name,
    eq_iff other wanted,
    get-insert name wanted value rest,
  )

  unfoldable pub collect_into : Dict V → List (String × V) → Dict V
  collect_into m [] = m
  collect_into m ((k, v) ∷ ps) = collect_into (insert k v m) ps

  abbrev pub collect : List (String × V) → Dict V
  collect ps = collect_into [] ps
