-- ===== src/Auth/Header.antt =====
-- src/auth/mod.rs: `Authorization<S>` and its `FromRequest`.
use rowdy.Prelude.{String, Bool, true, false, Option, none, some, Result, ok, err, map_err, ◌==◌}
use rowdy.Crates.{ForeignError}
use rowdy.Error.Auth.{AuthError, hyper_error}

-- `hyper::header::Basic` and `Bearer`.
pub record Basic : Type 0 where
  pub username : String
  pub password : Option String

pub record Bearer : Type 0 where
  pub token : String

-- A `header::Scheme`: its name, its parser for the header's text, and its formatter.
pub record Scheme (S : Type 0) : Type 0 where
  pub scheme : Option String
  pub parse_header : String → Result ForeignError S
  pub format : S → String

-- The outcome of a request guard.
pub data RequestOutcome (A : Type 0) : Type 0 where
  success : A → RequestOutcome A
  forward : RequestOutcome A

module _ {S : Type 0} (s : Scheme S) where
  unfoldable pub new : String → Result AuthError S
  new header = map_err hyper_error (s.parse_header header)

  abbrev outcome : Result AuthError S → RequestOutcome S
  outcome (ok parsed) = success parsed
  outcome (err _) = forward

  -- The argument is the first `Authorization` header of the request.
  unfoldable pub from_request : Option String → RequestOutcome S
  unfolding new
  from_request none = forward
  from_request (some authorization) = outcome (new authorization)

  abbrev named : Option String → String → Bool
  named none name = false
  named (some n) name = n == name

  unfoldable pub is_basic : Bool
  is_basic = named s.scheme "Basic"

  unfoldable pub is_bearer : Bool
  is_bearer = named s.scheme "Bearer"

  unfoldable pub is_string : Bool
  is_string = elim s.scheme [ none ↦ true | some _ ↦ false ]

unfoldable pub username : Basic → String
username a = a.username

unfoldable pub password : Basic → Option String
password a = a.password

unfoldable pub token : Bearer → String
token a = a.token

unfoldable pub string : String → String
string a = a
