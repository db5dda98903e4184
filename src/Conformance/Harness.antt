-- ===== src/Conformance/Harness.antt =====
-- How a unit test of the source ends: it returns, or it panics.
use rowdy.Prelude.{Bool, true, false, Result, ok, err, ◌≡◌, refl, Partial, raise, panic, map_err}
use native.Mathlib.Decide.{ℕ_discrete}
use rowdy.Prelude.{List, String, Option, text_discrete}
use rowdy.Crates.{JsonValue}
use rowdy.Crates.Jwt.{SingleOrMultiple, StringOrUri, DateTime, SignatureAlgorithm}
use rowdy.Error.Token.{TokenError}
use rowdy.Error.Top.{Error}

-- A panic of `unwrap` or `not_err!` shows the error that it met, which is kept if it is one of this
-- program; an assertion has none.
pub data Panicked : Type 0 where
  on_token_error : TokenError → Panicked
  on_error : Error → Panicked
  on_assertion : Panicked
  elsewhere : Panicked

abbrev pub Test : Type 0 → Type 0
Test A = Result Panicked A

module _ {A : Type 0} where
  -- `unwrap` and `not_err!` of a result.
  abbrev pub unwrap_token : Result TokenError A → Test A
  unwrap_token r = map_err on_token_error r

  abbrev pub unwrap_error : Partial Error A → Test A
  unwrap_error (ok a) = ok a
  unwrap_error (err (raise e)) = err (on_error e)
  unwrap_error (err panic) = err elsewhere

  abbrev pub unwrap_partial : Partial TokenError A → Test A
  unwrap_partial (ok a) = ok a
  unwrap_partial (err (raise e)) = err (on_token_error e)
  unwrap_partial (err panic) = err elsewhere

abbrev pub assert : Bool → Test (Unit {0})
assert true = ok tt
assert false = err on_assertion

-- `assert_eq!`, with the decision of the equality.
abbrev pub assert_eq : {P : Type 0} → Dec P → Test (Unit {0})
assert_eq (yes _) = ok tt
assert_eq (no _) = err on_assertion

pub claims_discrete : Discrete JsonValue
claims_discrete = hlevel (ℕ_discrete, text_discrete)

pub audience_discrete : Discrete (Option SingleOrMultiple)
audience_discrete = hlevel (text_discrete)

pub uri_discrete : Discrete (Option StringOrUri)
uri_discrete = hlevel (text_discrete)

pub time_discrete : Discrete (Option DateTime)
time_discrete = hlevel (ℕ_discrete)

pub texts_discrete : Discrete (List String)
texts_discrete = hlevel (text_discrete)

pub algorithm_discrete : Discrete SignatureAlgorithm
algorithm_discrete = hlevel

pub assert_eq-yes : {P : Type 0} (d : Dec P) → P → assert_eq d ≡ ok tt
assert_eq-yes (yes _) p = refl
assert_eq-yes (no n) p = absurd (n p)
