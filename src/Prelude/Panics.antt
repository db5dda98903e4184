-- ===== src/Prelude/Panics.antt =====
-- Code that does not panic, one rule for each way to build it.
use mathlib.Core.Path.{◌≡◌, refl}
use mathlib.Core.Logic.{◌≢◌}
use mathlib.Core.Bool.{Bool, true, false}
use mathlib.Core.Option.{Option, some}
use native.Mathlib.Omega.{arith}
use rowdy.Prelude.Tests.{if◌then◌else◌}
use rowdy.Prelude.Results.{
  Result, ok, err, ◌>>=◌, Partial, raise, panic, lift, within, unwrap, map_err,
}

pub record NeverPanics {ℓ κ} {E : Type ℓ} {A : Type κ} (m : Partial E A) : Type (ℓ ⊔ κ) where
  pub calm : m ≢ err panic

module _ {ℓ κ} {E : Type ℓ} {A : Type κ} where
  pub NeverPanics-ok : (a : A) → NeverPanics {E = E} (ok a)
  NeverPanics-ok a = record { calm = λ h. cc }

  pub NeverPanics-raise : (e : E) → NeverPanics {A = A} (err (raise e))
  NeverPanics-raise e = record { calm = λ h. ground arith }

  pub NeverPanics-lift : (r : Result E A) → NeverPanics (lift r)
  NeverPanics-lift (ok a) = NeverPanics-ok a
  NeverPanics-lift (err e) = NeverPanics-raise e

  pub NeverPanics-unwrap : (o : Option A) {a : A} → o ≡ some a → NeverPanics (unwrap {E = E} o)
  NeverPanics-unwrap o h = record { calm = λ e. ground arith }

  pub NeverPanics-if :
      (b : Bool) (m n : Partial E A)
      → (b ≡ true → NeverPanics m)
      → (b ≡ false → NeverPanics n)
      → NeverPanics (if b then m else n)
  NeverPanics-if true m n hm hn = hm refl
  NeverPanics-if false m n hm hn = hn refl

module _ {ℓ κ μ} {E : Type ℓ} {A : Type κ} where
  -- The rest of a block may use what the first action came to.
  pub NeverPanics-bind :
      {B : Type μ} (m : Partial E A) (f : A → Partial E B)
      → NeverPanics m
      → ((a : A) → m ≡ ok a → NeverPanics (f a))
      → NeverPanics (m >>= f)
  NeverPanics-bind (ok a) f hm hf = hf a refl
  NeverPanics-bind (err (raise e)) f hm hf = NeverPanics-raise e
  NeverPanics-bind (err panic) f hm hf = absurd (hm.calm refl)

  pub NeverPanics-within :
      {F : Type μ} (f : E → F) (m : Partial E A) → NeverPanics m → NeverPanics (within f m)
  NeverPanics-within f (ok a) hm = NeverPanics-ok a
  NeverPanics-within f (err (raise e)) hm = NeverPanics-raise (f e)
  NeverPanics-within f (err panic) hm = absurd (hm.calm refl)

pub ruleset calm_rules = (
  NeverPanics-ok, NeverPanics-raise, NeverPanics-lift, NeverPanics-bind, NeverPanics-within,
  NeverPanics-if,
)

-- Code that comes to a value.
abbrev pub Answers {ℓ κ} : {E : Type ℓ} {A : Type κ} → Result E A → Type (ℓ ⊔ κ)
Answers {A} m = (a : A) × (m ≡ ok a)

module _ {ℓ κ μ} {E : Type ℓ} {A : Type κ} where
  pub Answers-bind :
      {B : Type μ} (m : Result E A) (f : A → Result E B)
      → Answers m
      → ((a : A) → m ≡ ok a → Answers (f a))
      → Answers (m >>= f)
  Answers-bind (ok a) f hm hf = hf a refl
  Answers-bind (err e) f (a, hm) hf = absurd (ground arith)

  pub Answers-map_err :
      {F : Type μ} (f : E → F) (m : Result E A) → Answers m → Answers (map_err f m)
  Answers-map_err f (ok a) (b, hm) = (a, refl)
  Answers-map_err f (err e) (b, hm) = absurd (ground arith)
