-- ===== src/Routes/Session.antt =====
-- A whole session: a user asks for an offline token, and comes back with it.
use rowdy.Prelude.{
  String, ℕ, true, ◌+◌, ◌≤◌, ◌<◌, some, none, ok, ◌≡◌, ◌∙◌, ap, refl, sym, subst, inl, inr,
  unwrap_or, arith, Option-cases, Answers, ok_inj, false,
}
use rowdy.Crates.{JsonValue}
use rowdy.Crates.Jwt.{DateTime, Jwk, SignatureAlgorithm, encrypted}
use rowdy.Crates.Jwt.Laws.{Verifies, Decrypts, ChecksTimes, whole_seconds}
use rowdy.Auth.Header.{Basic, is_bearer}
use rowdy.Auth.Authenticator.{
  AuthenticationResult, IsWellBehaved, prepare_authentication_response,
  prepare_authentication_response_iff,
}
use rowdy.Token.Config.{RefreshTokenConfiguration}
use rowdy.Token.Verify.{verify_service}
use rowdy.Token.Keys.{keys}
use rowdy.Token.Keys.Laws.{keys-HasOneKey}
use rowdy.Token.Access.{Token}
use rowdy.Token.Access.Answers.{Locks, IsTimely}
use rowdy.Routes.{Server, AuthParam, token_getter, refresh_token}
use rowdy.Routes.Flow.{issue_refresh}
use rowdy.Routes.Redeem.{token_getter-eq-ok, token_getter-refresh_token, opens}
use rowdy.Routes.Answers.{SignsFor, token_getter-Answers, reissue-Answers}

module _ (s : Server) (good : IsWellBehaved s.authenticator)
    (signed : Verifies s.jwt s.keys.signing s.keys.signature_verification)
    (made : keys s.world s.configuration ≡ ok s.keys)
    (locks : (k : Jwk) (x : RefreshTokenConfiguration)
      → s.keys.encryption ≡ some k
      → s.configuration.refresh_token ≡ some x
      → Locks s.jwt k x × Decrypts s.jwt k k)
    (times : ChecksTimes s.jwt) (a : SignatureAlgorithm)
    (a_is : s.configuration.signature_algorithm ≡ some a) where
  -- A refresh token that the route gives out is a text.
  closed_text :
      (issued : DateTime) (user : Basic) (param : AuthParam) (t : Token) (r : _)
      (x : RefreshTokenConfiguration)
      → s.configuration.refresh_token ≡ some x
      → token_getter s issued user param ≡ ok t
      → t.refresh_token ≡ some r
      → (text : String) × (r ≡ encrypted text)
  closed_text issued user param t r x configured h has =
      let (k, lock, unlock) = keys-HasOneKey s.world s.configuration x s.keys configured made in
      let (result, prepared, given) = token_getter-eq-ok s issued user param t h in
      let (p, payload, served, r', locked, f) =
        issue_refresh s issued param result t r k lock given has in
      let (text, is_text, header, opened) =
        opens s good signed lock unlock (locks k x lock configured).1 times a a_is issued
          result.subject p r' r f locked in
      (text, is_text)

  -- With the keys of the configuration, refresh tokens and a signature algorithm configured, a
  -- first scheme that is not `Bearer`, a token crate that signs what is made for the user and
  -- encrypts what is encoded under the configured algorithms, reads both back and accepts times from the start of a token up to
  -- its expiry, and dates and random draws that are good at both times: a user of a well-behaved
  -- authenticator, with a refresh payload and a subject that parses, who asks for an offline
  -- token for a verified service, gets a token with an encrypted refresh token; and from then on
  -- until the configured duration has passed (in whole seconds) the second route, for the same
  -- service and without the offline parameter, answers that refresh token with a token.
  pub token_getter-refresh_token-Answers :
      (issued later : DateTime) (user : Basic) (param param' : AuthParam)
      (result : AuthenticationResult) (p : JsonValue) (x : RefreshTokenConfiguration) (lasts : ℕ)
      → IsTimely s.world s.configuration issued
      → IsTimely s.world s.configuration later
      → SignsFor s issued result
      → SignsFor s later (record result { refresh_payload = none })
      → is_bearer s.basic ≡ false
      → s.configuration.refresh_token ≡ some x
      → s.world.chrono_from_std x.expiry_duration ≡ ok lasts
      → s.authenticator.authenticate user true ≡ ok result
      → result.refresh_payload ≡ some p
      → Answers (s.jwt.parse result.subject)
      → param.offline_token ≡ some true
      → param'.offline_token ≡ none
      → param'.service ≡ param.service
      → verify_service s.jwt s.configuration param.service ≡ ok tt
      → issued ≤ later
      → later < whole_seconds (issued + lasts)
      → (t : Token) × (text : String) × (token_getter s issued user param ≡ ok t)
        × (t.refresh_token ≡ some (encrypted text))
        × Answers (refresh_token s later (record { token = text }) param')
  token_getter-refresh_token-Answers issued later user param param' result p x lasts timely timely'
        signs signs' scheme configured lasts_is authenticated payload parsed offline absent same
        served since before =
      let (k, lock, unlock) = keys-HasOneKey s.world s.configuration x s.keys configured made in
      let prepared : prepare_authentication_response s.authenticator user
            (unwrap_or param.offline_token false)
          ≡ ok result =
        rw offline (
          (prepare_authentication_response_iff s.authenticator user true result).1
            (authenticated, inl refl)) in
      let (t, granted, has) =
        token_getter-Answers s made signed (λ k' x' h g. (locks k' x' h g).0) issued timely user
          param result signs scheme prepared served parsed in
      elim (Option-cases t.refresh_token) [
        | inl without ↦ absurd (ground arith)
        | inr (r, had) ↦
            let (text, is_text) = closed_text issued user param t r x configured granted had in
            let (result', authenticated', same_answer) =
              token_getter-refresh_token s good signed lock unlock (locks k x lock configured).1
                times a a_is issued later user param param' t text x lasts granted
                (had ∙ ap some is_text) configured lasts_is same absent since before in
            let who = ok_inj (sym authenticated ∙ authenticated') in
            let (t', again) =
              reissue-Answers s made signed (λ k' x' h g. (locks k' x' h g).0) later timely' param'
                (record result' { refresh_payload = none })
                (subst (λ y. SignsFor s later (record y { refresh_payload = none })) who signs')
                (rw same served) (subst (λ y. Answers (s.jwt.parse y.subject)) who parsed) in
            (t, text, granted, had ∙ ap some is_text, (t', same_answer ∙ again))
      ]
