-- ===== src/Routes/History.antt =====
-- The routes over time: which requests they answered with tokens, and what clients saw
-- (src/routes.rs).
pub mod Shown
pub mod Descent
use rowdy.Prelude.{String, List, [], ◌∷◌, ◌≡◌, ◌⊎◌, ok, some, true}
use rowdy.Crates.Jwt.{DateTime, encoded, encrypted}
use rowdy.Auth.Header.{Basic}
use rowdy.Token.Access.{Token}
use rowdy.Routes.{Server, AuthParam, token_getter, refresh_token}

-- A request that was answered with a token: when, by whom or with which text, for what, and the
-- token.
pub data Event : Type 0 where
  login : DateTime → Basic → AuthParam → Token → Event
  redemption : DateTime → String → AuthParam → Token → Event

abbrev pub given : Event → Token
given (login now user param t) = t
given (redemption now text param t) = t

-- A run of the server, the latest event first: one step for each route that gives out tokens.
-- The server's state is fixed when it starts, so that requests that were refused leave no trace.
pub data Run (s : Server) : List Event → Type 0 where
  start : Run s []
  logs_in :
      (es : List Event) (now : DateTime) (user : Basic) (param : AuthParam) (t : Token)
      → Run s es
      → token_getter s now user param ≡ ok t
      → Run s (login now user param t ∷ es)
  redeems :
      (es : List Event) (now : DateTime) (text : String) (param : AuthParam) (t : Token)
      → Run s es
      → refresh_token s now (record { token = text }) param ≡ ok t
      → Run s (redemption now text param t ∷ es)

-- A client reads the texts of an encoded token and of an encrypted refresh token.
abbrev pub Shows : Event → String → Type 0
Shows e text = ((given e).token ≡ encoded text) ⊎ ((given e).refresh_token ≡ some (encrypted text))

abbrev pub Shown : List Event → String → Type 0
Shown [] text = ⊥
Shown (e ∷ es) text = Shows e text ⊎ Shown es text

-- Whoever redeems a text has it from an earlier answer: texts are not forged.
abbrev pub Unforged : List Event → Type 0
Unforged [] = Unit
Unforged (login now user param t ∷ es) = Unforged es
Unforged (redemption now text param t ∷ es) = Shown es text × Unforged es

-- The event is in the list.
abbrev pub Happened : Event → List Event → Type 0
Happened e [] = ⊥
Happened e (e' ∷ es) = (e ≡ e') ⊎ Happened e es
