-- ===== src/Routes/Endpoint/Laws.antt =====
-- What the endpoint answers to a request.
use mathlib.Core.Option
use rowdy.Prelude.{
  raise, String, Option, none, some, Result, ok, err, ◌≡◌, refl, ◌∙◌, ap, List, [], ◌∷◌,
  Result-cases, Option-cases, inl, inr,
}
use rowdy.Crates.{ForeignError}
use rowdy.Crates.Jwt.{DateTime}
use rowdy.Error.Top
use rowdy.Error.Top.{Error}
use rowdy.Error.Answers.{challenge}
use rowdy.Auth.Header.{RequestOutcome, Basic, Bearer, Scheme, success, forward, from_request}
use rowdy.Auth.Authenticator.{missing}
use rowdy.Token.Access
use rowdy.Routes.{Server, AuthParam, token_getter, refresh_token, bad_request}
use rowdy.Routes.Endpoint.{
  Framework, Handler, Request, Reply, answer, token_getter_route, refresh_token_route,
  bad_request_route, serve,
}

-- Rocket tries the handlers in order: the first that does not forward answers.
pub record TriesInOrder (f : Framework) : Type 0 where
  pub takes :
      (h : Handler) (hs : List Handler) (q : Request) (r : Reply)
      → h q ≡ success r
      → f.dispatch (h ∷ hs) q ≡ some r
  pub passes :
      (h : Handler) (hs : List Handler) (q : Request)
      → h q ≡ forward
      → f.dispatch (h ∷ hs) q ≡ f.dispatch hs q
  pub ends : (q : Request) → f.dispatch [] q ≡ none

-- A handler forwards where the form does not parse or its guard forwards, and answers otherwise; an
-- `Err` is answered by its own responder.
pub record CallsHandlers (f : Framework) : Type 1 where
  pub formless :
      {S : Type 0} (guard : Request → RequestOutcome S) (h : S → AuthParam → Reply) (q : Request)
      → f.form q.query ≡ none
      → f.with_guard guard h q ≡ forward
  pub refused :
      {S : Type 0} (guard : Request → RequestOutcome S) (h : S → AuthParam → Reply) (q : Request)
      → guard q ≡ forward
      → f.with_guard guard h q ≡ forward
  pub called :
      {S : Type 0} (guard : Request → RequestOutcome S) (h : S → AuthParam → Reply) (q : Request)
      (param : AuthParam) (a : S)
      → f.form q.query ≡ some param
      → guard q ≡ success a
      → f.with_guard guard h q ≡ success (h a param)
  pub formless_unguarded :
      (h : AuthParam → Reply) (q : Request) → f.form q.query ≡ none → f.without_guard h q ≡ forward
  pub called_unguarded :
      (h : AuthParam → Reply) (q : Request) (param : AuthParam)
      → f.form q.query ≡ some param
      → f.without_guard h q ≡ success (h param)
  pub raised :
      {A : Type 0} (show : A → Reply) (fail : Error → Reply) (e : Error)
      → f.result show fail (err (raise e)) ≡ fail e

-- What the `Authorization` header of a request holds.
pub data Credentials : Type 0 where
  basic : Basic → Credentials
  bearer : Bearer → Credentials
  neither : Credentials

abbrev pub second : Result ForeignError Bearer → Credentials
second (ok b) = bearer b
second (err e) = neither

abbrev pub first : Result ForeignError Basic → Result ForeignError Bearer → Credentials
first (ok a) r = basic a
first (err e) r = second r

module _ (s : Server) where
  -- A header is read as `Basic`, and if it is none as `Bearer`.
  abbrev pub credentials : Option String → Credentials
  credentials none = neither
  credentials (some header) = first (s.basic.parse_header header) (s.bearer.parse_header header)

module _ (f : Framework) (s : Server) (now : DateTime) where
  -- The reply to the parameters and the credentials of a request.
  abbrev pub respond : AuthParam → Credentials → Reply
  respond param (basic a) = answer f (Access.respond_to f.to_json) (token_getter s now a param)
  respond param (bearer b) = answer f (Access.respond_to f.to_json) (refresh_token s now b param)
  respond param neither = ok (challenge s.configuration.issuer)

  module _ (tries : TriesInOrder f) (calls : CallsHandlers f) where
    answer-bad_request :
        (param : AuthParam)
        → answer f (λ (_ : Unit {0}). f.empty) (bad_request s now param)
          ≡ ok (challenge s.configuration.issuer)
    unfolding answer bad_request missing Top.respond_to
    answer-bad_request param = calls.raised (λ _. f.empty) Top.respond_to _

    -- The form does not parse: every handler forwards.
    serve_formless : (q : Request) → f.form q.query ≡ none → serve f s now q ≡ none
    unfolding serve token_getter_route refresh_token_route bad_request_route
    serve_formless q h =
        tries.passes (token_getter_route f s now) _ q (calls.formless _ _ q h)
        ∙ tries.passes (refresh_token_route f s now) _ q (calls.formless _ _ q h)
        ∙ tries.passes (bad_request_route f s now) _ q (calls.formless_unguarded _ q h)
        ∙ tries.ends q

    serve_basic :
        (q : Request) (param : AuthParam) (a : Basic)
        → f.form q.query ≡ some param
        → from_request s.basic q.authorization ≡ success a
        → serve f s now q ≡ some (respond param (basic a))
    unfolding serve token_getter_route
    serve_basic q param a h g =
        tries.takes (token_getter_route f s now) _ q _ (calls.called _ _ q param a h g)

    serve_bearer :
        (q : Request) (param : AuthParam) (b : Bearer)
        → f.form q.query ≡ some param
        → from_request s.basic q.authorization ≡ forward
        → from_request s.bearer q.authorization ≡ success b
        → serve f s now q ≡ some (respond param (bearer b))
    unfolding serve token_getter_route refresh_token_route
    serve_bearer q param b h g k =
        tries.passes (token_getter_route f s now) _ q (calls.refused _ _ q g)
        ∙ tries.takes (refresh_token_route f s now) _ q _ (calls.called _ _ q param b h k)

    serve_neither :
        (q : Request) (param : AuthParam)
        → f.form q.query ≡ some param
        → from_request s.basic q.authorization ≡ forward
        → from_request s.bearer q.authorization ≡ forward
        → serve f s now q ≡ some (respond param neither)
    unfolding serve token_getter_route refresh_token_route bad_request_route
    serve_neither q param h g k =
        tries.passes (token_getter_route f s now) _ q (calls.refused _ _ q g)
        ∙ tries.passes (refresh_token_route f s now) _ q (calls.refused _ _ q k)
        ∙ tries.takes (bad_request_route f s now) _ q _
            (calls.called_unguarded _ q param h ∙ ap success (answer-bad_request param))

    from_request_ok :
        {S : Type 0} (x : Scheme S) (header : String) (a : S)
        → x.parse_header header ≡ ok a
        → from_request x (some header) ≡ success a
    unfolding from_request
    from_request_ok x header a h = rw h

    from_request_err :
        {S : Type 0} (x : Scheme S) (header : String) (e : _)
        → x.parse_header header ≡ err e
        → from_request x (some header) ≡ forward
    unfolding from_request
    from_request_err x header e h = rw h

    from_request_none : {S : Type 0} (x : Scheme S) → from_request x none ≡ forward
    unfolding from_request
    from_request_none x = refl

    serve-credentials :
        (query : String) (param : AuthParam) (header : Option String)
        → f.form query ≡ some param
        → serve f s now (record { query = query; authorization = header })
          ≡ some (respond param (credentials s header))
    serve-credentials query param none h =
        serve_neither _ param h (from_request_none s.basic) (from_request_none s.bearer)
    serve-credentials query param (some header) h =
        elim (Result-cases (s.basic.parse_header header)) [
          | inl (a, is_basic) ↦
              rw is_basic (serve_basic _ param a h (from_request_ok s.basic header a is_basic))
          | inr (e, no_basic) ↦ elim (Result-cases (s.bearer.parse_header header)) [
            | inl (b, is_bearer) ↦ rw no_basic (
                rw is_bearer (
                  serve_bearer _ param b h (from_request_err s.basic header e no_basic)
                    (from_request_ok s.bearer header b is_bearer)))
            | inr (e', no_bearer) ↦ rw no_basic (
                rw no_bearer (
                  serve_neither _ param h (from_request_err s.basic header e no_basic)
                    (from_request_err s.bearer header e' no_bearer)))
          ]
        ]

    -- Where Rocket tries the handlers in order and calls them as documented, a request with parameters is answered by its
    -- credentials: `Basic` ones by the first route, others that are `Bearer` by the second, and
    -- any other header, or none, by the challenge for the issuer. A request whose parameters do not
    -- parse is not answered here.
    pub serve-eq-respond :
        (q : Request)
        → serve f s now q
          ≡ Option.map (λ param. respond param (credentials s q.authorization)) (f.form q.query)
    serve-eq-respond q = elim (Option-cases (f.form q.query)) [
      | inl formless ↦ serve_formless q formless ∙ rw formless
      | inr (param, parsed) ↦ serve-credentials q.query param q.authorization parsed ∙ rw parsed
    ]
