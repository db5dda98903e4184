-- ===== src/Routes/Endpoint.antt =====
-- The three routes of src/routes.rs at `/?<auth_param>` as one endpoint. Rocket parses the form,
-- runs the request guard, and tries the routes by rank; it is a parameter.
pub mod Laws
use rowdy.Prelude.{
  String, Option, none, some, Result, ok, err, Partial, raise, panic, List, [], ◌∷◌,
}
use rowdy.Crates.{ForeignError, Status, Response}
use rowdy.Crates.Jwt.{DateTime}
use rowdy.Error.Top
use rowdy.Error.Top.{Error}
use rowdy.Auth.Header.{Scheme, RequestOutcome, success, forward, from_request}
use rowdy.Token.Access
use rowdy.Token.Access.{Token}
use rowdy.Routes.{Server, AuthParam, token_getter, refresh_token, bad_request}

-- A request: its query string, and its first `Authorization` header.
pub record Request : Type 0 where
  pub query : String
  pub authorization : Option String

abbrev pub Reply : Type 0
Reply = Result Status Response

abbrev pub Handler : Type 0
Handler = Request → RequestOutcome Reply

-- What Rocket gives: the form that derives `FromForm`, serde_json's text of a token, the reply for
-- `()`, the responder of a `Result`, the handler that the attribute `#[get("/?<auth_param>")]` makes
-- of a function with a request guard or without one, and the choice among handlers.
pub record Framework : Type 1 where
  pub form : String → Option AuthParam
  pub to_json : Token → Result ForeignError String
  pub empty : Reply
  pub result : {A : Type 0} → (A → Reply) → (Error → Reply) → Partial Error A → Reply
  pub with_guard : {S : Type 0} → (Request → RequestOutcome S) → (S → AuthParam → Reply) → Handler
  pub without_guard : (AuthParam → Reply) → Handler
  pub dispatch : List Handler → Request → Option Reply

module _ (f : Framework) where
  unfoldable pub answer : {A : Type 0} → (A → Reply) → Partial Error A → Reply
  answer show r = f.result show Top.respond_to r

  module _ (s : Server) (now : DateTime) where
    unfoldable pub token_getter_route : Handler
    unfolding answer
    token_getter_route =
        f.with_guard (λ q. from_request s.basic q.authorization)
          (λ authorization param.
            answer (Access.respond_to f.to_json) (token_getter s now authorization param))

    unfoldable pub refresh_token_route : Handler
    unfolding answer
    refresh_token_route =
        f.with_guard (λ q. from_request s.bearer q.authorization)
          (λ authorization param.
            answer (Access.respond_to f.to_json) (refresh_token s now authorization param))

    unfoldable pub bad_request_route : Handler
    unfolding answer
    bad_request_route = f.without_guard (λ param. answer (λ _. f.empty) (bad_request s now param))

    -- The routes at the path, in the order of their ranks.
    abbrev pub handlers : List Handler
    handlers = token_getter_route ∷ refresh_token_route ∷ bad_request_route ∷ []

    unfoldable pub serve : Request → Option Reply
    serve q = f.dispatch handlers q
