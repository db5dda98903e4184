-- ===== src/Error/Chain.antt =====
-- `error::Error::cause` of the three enums (src/auth/mod.rs, src/token.rs, src/lib.rs), over the
-- errors that a `&error::Error` can be here.
use rowdy.Prelude.{ℕ, zero, suc, Option, some, ◌≡◌, refl}
use mathlib.Core.Option
use rowdy.Crates.{ForeignError}
use rowdy.Error.Auth.{AuthError}
use rowdy.Error.Token.{TokenError}
use rowdy.Error.Top.{Error}

pub data AnyError : Type 0 where
  foreign : ForeignError → AnyError
  auth : AuthError → AnyError
  token : TokenError → AnyError
  top : Error → AnyError

unfoldable pub auth_cause : AuthError → Option AnyError
auth_cause (AuthError.hyper_error e) = some (foreign e)
auth_cause e = some (auth e)

unfoldable pub token_cause : TokenError → Option AnyError
token_cause (TokenError.jwt_error e) = some (foreign e.error)
token_cause (TokenError.io_error e) = some (foreign e)
token_cause (TokenError.token_serialization_error e) = some (foreign e)
token_cause e = some (token e)

unfoldable pub top_cause : Error → Option AnyError
top_cause (Error.auth e) = some (auth e)
top_cause (Error.cors e) = some (foreign e.error)
top_cause (Error.token e) = some (token e)
top_cause (Error.io_error e) = some (foreign e)
top_cause (Error.launch_error e) = some (foreign e)
top_cause e = some (top e)

-- The cause of a foreign error is its crate's.
module _ (foreign_cause : ForeignError → Option ForeignError) where
  unfoldable pub cause : AnyError → Option AnyError
  unfolding auth_cause token_cause top_cause
  cause (foreign e) = Option.map foreign (foreign_cause e)
  cause (auth e) = auth_cause e
  cause (token e) = token_cause e
  cause (top e) = top_cause e

  -- The error that a reader of the chain holds after a number of steps.
  unfoldable pub follow : ℕ → AnyError → Option AnyError
  follow zero e = some e
  follow (suc n) e = Option.bind (cause e) (follow n)

-- An error that stands for no error of another crate.
abbrev AuthWrapsNothing : AuthError → Type 0
AuthWrapsNothing (AuthError.hyper_error e) = ⊥
AuthWrapsNothing _ = Unit

abbrev TokenWrapsNothing : TokenError → Type 0
TokenWrapsNothing (TokenError.jwt_error e) = ⊥
TokenWrapsNothing (TokenError.io_error e) = ⊥
TokenWrapsNothing (TokenError.token_serialization_error e) = ⊥
TokenWrapsNothing _ = Unit

abbrev TopWrapsNothing : Error → Type 0
TopWrapsNothing (Error.cors e) = ⊥
TopWrapsNothing (Error.io_error e) = ⊥
TopWrapsNothing (Error.launch_error e) = ⊥
TopWrapsNothing (Error.auth e) = AuthWrapsNothing e
TopWrapsNothing (Error.token e) = TokenWrapsNothing e
TopWrapsNothing _ = Unit

abbrev pub WrapsNothing : AnyError → Type 0
WrapsNothing (foreign e) = ⊥
WrapsNothing (auth e) = AuthWrapsNothing e
WrapsNothing (token e) = TokenWrapsNothing e
WrapsNothing (top e) = TopWrapsNothing e

module _ (foreign_cause : ForeignError → Option ForeignError) where
  abbrev Continues : AnyError → Type 0
  Continues e = (e' : AnyError) × (cause foreign_cause e ≡ some e') × WrapsNothing e'

  auth-Continues : (e : AuthError) → AuthWrapsNothing e → Continues (auth e)
  unfolding cause
  auth-Continues (AuthError.hyper_error e) h = absurd h
  auth-Continues e h = (auth e, refl, h)

  token-Continues : (e : TokenError) → TokenWrapsNothing e → Continues (token e)
  unfolding cause
  token-Continues (TokenError.jwt_error e) h = absurd h
  token-Continues (TokenError.io_error e) h = absurd h
  token-Continues (TokenError.token_serialization_error e) h = absurd h
  token-Continues e h = (token e, refl, h)

  top-Continues : (e : Error) → TopWrapsNothing e → Continues (top e)
  unfolding cause
  top-Continues (Error.cors e) h = absurd h
  top-Continues (Error.io_error e) h = absurd h
  top-Continues (Error.launch_error e) h = absurd h
  top-Continues (Error.auth e) h = (auth e, refl, h)
  top-Continues (Error.token e) h = (token e, refl, h)
  top-Continues e h = (top e, refl, h)

  continues : (e : AnyError) → WrapsNothing e → Continues e
  continues (foreign e) h = absurd h
  continues (auth e) h = auth-Continues e h
  continues (token e) h = token-Continues e h
  continues (top e) h = top-Continues e h

  -- The chain of causes of an error that wraps no error of another crate has no end: after any
  -- number of steps there is still an error, and it too wraps nothing.
  pub follow_endless :
      (n : ℕ) (e : AnyError)
      → WrapsNothing e
      → (e' : AnyError) × (follow foreign_cause n e ≡ some e') × WrapsNothing e'
  unfolding follow Option.bind
  follow_endless zero e h = (e, refl, h)
  follow_endless (suc n) e h =
      let (next, step, free) = continues e h in
      let (last, rest, k) = follow_endless n next free in (last, rw step rest, k)
