-- ===== src/Routes/Redeem.antt =====
-- The two routes together: `refresh_token` on a refresh token of `token_getter`.
use rowdy.Prelude.{
  String, ℕ, Bool, true, false, ◌+◌, ◌≤◌, ◌<◌, some, none, ok, ◌≡◌, refl, ap, arith, >>=-eq-ok,
  unwrap_or, lift, subst, sym, ◌∙◌, some_inj, ok_inj,
}
use rowdy.Crates.{JsonValue}
use rowdy.Crates.Jwt.{
  SignatureAlgorithm, DateTime, Jwk, encrypted, decrypted, decoded, JweHeader, JwsHeader, ClaimsSet,
}
use rowdy.Crates.Jwt.Laws.{Verifies, Decrypts, ChecksTimes, whole_seconds, wire}
use rowdy.Auth.Header
use rowdy.Auth.Header.{Basic, Bearer}
use rowdy.Auth.Authenticator.{
  AuthenticationResult, IsWellBehaved, prepare_refresh_response, prepare_refresh_response_iff,
  prepare_authentication_response, prepare_authentication_response_iff,
}
use rowdy.Token.Config
use rowdy.Token.Config.{Configuration, RefreshTokenConfiguration, refresh_token_enabled}
use rowdy.Token.Make.{make_header}
use rowdy.Token.Refresh.{RefreshToken, encrypt, decrypt, validate, payload}
use rowdy.Token.Refresh.Opens.{decrypt-encrypt}
use rowdy.Token.Refresh.Valid.{validate_iff, wire-IsAcceptable}
use rowdy.Token.Access.{Token}
use rowdy.Token.Access.Shape.{IsRefreshFor, jwe_header}
use rowdy.Routes.{Server, AuthParam, token_getter, refresh_token, issue, reissue, verify}
use rowdy.Routes.Flow.{issue_refresh}

-- Nothing asks for an offline token where the parameter is absent.
verify_absent :
    (s : Server) (param : AuthParam) → param.offline_token ≡ none → verify s.bearer param ≡ ok tt
unfolding verify
verify_absent s param absent = ground arith

-- The route where every step of it succeeds.
refresh_token_passes :
    (s : Server) (now : DateTime) (text : String) (param : AuthParam)
    (x : RefreshTokenConfiguration) (unlock : Jwk) (a : SignatureAlgorithm) (d : RefreshToken)
    (p : JsonValue) (r : AuthenticationResult)
    → s.configuration.refresh_token ≡ some x
    → s.keys.decryption ≡ some unlock
    → s.configuration.signature_algorithm ≡ some a
    → param.offline_token ≡ none
    → decrypt s.jwt
        (encrypted text)
        s.keys.signature_verification
        unlock
        a
        x.cek_algorithm
        x.enc_algorithm
      ≡ ok d
    → validate s.jwt d param.service s.configuration none now ≡ ok tt
    → payload s.jwt d ≡ ok p
    → prepare_refresh_response s.authenticator p ≡ ok r
    → refresh_token s now (record { token = text }) param ≡ reissue s now param r
unfolding refresh_token refresh_token_enabled Config.refresh_token Header.token
refresh_token_passes s now text param x unlock a d p r on key algorithm absent opened valid paid
      answered =
    simp (on, key, algorithm, verify_absent s param absent, opened, valid, paid, answered)

pub token_getter-eq-ok :
    (s : Server) (issued : DateTime) (user : Basic) (param : AuthParam) (t : Token)
    → token_getter s issued user param ≡ ok t
    → (result : AuthenticationResult) × (prepare_authentication_response s.authenticator user
          (unwrap_or param.offline_token false)
        ≡ ok result)
      × (issue s issued param result ≡ ok t)
unfolding token_getter
token_getter-eq-ok s issued user param t h =
    let (_, verified, h1) = >>=-eq-ok (lift (verify s.basic param)) _ h in
    let (result, prepared, h2) =
      >>=-eq-ok
        (prepare_authentication_response s.authenticator user (unwrap_or param.offline_token false))
        _ h1 in
    (result, prepared, h2)

-- A result with a refresh payload was asked for one.
pub asked :
    (s : Server) (user : Basic) (b : Bool) (result : AuthenticationResult) (p : JsonValue)
    → prepare_authentication_response s.authenticator user b ≡ ok result
    → result.refresh_payload ≡ some p
    → s.authenticator.authenticate user true ≡ ok result
asked s user true result p h has =
    ((prepare_authentication_response_iff s.authenticator user true result).0 h).0
asked s user false result p h has =
    absurd
      (ground (arith, (prepare_authentication_response_iff s.authenticator user false result).0 h))

module _ (s : Server) (good : IsWellBehaved s.authenticator)
    (signed : Verifies s.jwt s.keys.signing s.keys.signature_verification) {lock unlock : Jwk}
    (lock_is : s.keys.encryption ≡ some lock) (unlock_is : s.keys.decryption ≡ some unlock)
    (sealed : Decrypts s.jwt lock unlock) (times : ChecksTimes s.jwt) (a : SignatureAlgorithm)
    (a_is : s.configuration.signature_algorithm ≡ some a) where
  -- What encrypts to `r` opens again to its payload, in the header's algorithms.
  pub opens :
      (issued : DateTime) (subject : String) (p : JsonValue) (r' r : RefreshToken)
      (f : IsRefreshFor s.jwt s.world s.configuration subject issued p r')
      → encrypt s.jwt r' s.keys.signing lock ≡ ok r
      → (text : String) × (r ≡ encrypted text)
        × (h : JweHeader) × (decrypt s.jwt
              (encrypted text)
              s.keys.signature_verification
              unlock
              a
              f.refresh.cek_algorithm
              f.refresh.enc_algorithm
            ≡ ok (
                decrypted h (
                  decoded
                    (make_header s.jwt s.world s.configuration.signature_algorithm)
                    (wire f.claims))))
  unfolding make_header
  opens issued subject p r' r f locked =
      let locked' = subst (λ x. encrypt s.jwt x s.keys.signing lock ≡ ok r) f.token_is locked in
      let (text, is_text, h, opened) =
        decrypt-encrypt s.jwt signed sealed (jwe_header f.refresh)
          (make_header s.jwt s.world s.configuration.signature_algorithm) f.claims r locked' in
      (
        text,
        is_text,
        h,
        subst
            (λ x.
              decrypt s.jwt (encrypted text) s.keys.signature_verification unlock
                (unwrap_or x SignatureAlgorithm.none) f.refresh.cek_algorithm
                f.refresh.enc_algorithm
              ≡ ok (
                  decrypted h (
                    decoded (make_header s.jwt s.world s.configuration.signature_algorithm)
                      (wire f.claims))))
            a_is opened,
      )

  pays :
      (h : JweHeader) (g : JwsHeader) (c : ClaimsSet) {p : JsonValue}
      → c.private_claims ≡ p
      → payload s.jwt (decrypted h (decoded g (wire c))) ≡ ok p
  unfolding payload
  pays h g c e = ap ok e

  -- The second route accepts a refresh token that the first gave out, from its issue on until its
  -- configured duration has passed (in whole seconds), for the same service and without the
  -- offline parameter: it goes on to make a token for the result of the first authentication,
  -- which had asked for a refresh token. The authenticator is well behaved, a signature algorithm
  -- and both keys for refresh tokens are set, what is signed and encrypted with the server's keys
  -- is read back, and the token crate accepts times from the start of a token up to its expiry.
  pub token_getter-refresh_token :
      (issued later : DateTime) (user : Basic) (param param' : AuthParam) (t : Token)
      (text : String) (refresh : RefreshTokenConfiguration) (lasts : ℕ)
      → token_getter s issued user param ≡ ok t
      → t.refresh_token ≡ some (encrypted text)
      → s.configuration.refresh_token ≡ some refresh
      → s.world.chrono_from_std refresh.expiry_duration ≡ ok lasts
      → param'.service ≡ param.service
      → param'.offline_token ≡ none
      → issued ≤ later
      → later < whole_seconds (issued + lasts)
      → (result : AuthenticationResult) × (s.authenticator.authenticate user true ≡ ok result)
        × (refresh_token s later (record { token = text }) param'
            ≡ reissue s later param' (record result { refresh_payload = none }))
  token_getter-refresh_token issued later user param param' t text refresh lasts h has refresh_is
        lasts_is same absent since before =
      let (result, prepared, made) = token_getter-eq-ok s issued user param t h in
      let (p, given, served, r', locked, f) =
        issue_refresh s issued param result t (encrypted text) lock lock_is made has in
      let (text', is_text, h', opened') =
        opens issued result.subject p r' (encrypted text) f locked in
      let opened =
        subst
          (λ x.
            decrypt s.jwt x s.keys.signature_verification unlock a f.refresh.cek_algorithm
              f.refresh.enc_algorithm
            ≡ ok (
                decrypted h' (
                  decoded (make_header s.jwt s.world s.configuration.signature_algorithm)
                    (wire f.claims))))
          (sym is_text) opened' in
      let authenticated = asked s user _ result p prepared given in
      let refresh_same : f.refresh ≡ refresh = some_inj (sym f.refresh_is ∙ refresh_is) in
      let lasts_same : f.stamp.lasts ≡ lasts = ok_inj (
        sym f.stamp.lasts_from
        ∙ ap (λ x. s.world.chrono_from_std x.expiry_duration) refresh_same
        ∙ lasts_is) in
      (
        result,
        authenticated,
        refresh_token_passes s later text param' f.refresh unlock a
            (decrypted h' (
              decoded (make_header s.jwt s.world s.configuration.signature_algorithm)
                (wire f.claims)))
            p (record result { refresh_payload = none }) f.refresh_is unlock_is a_is absent opened
            ((validate_iff s.jwt h' _ (wire f.claims) param'.service s.configuration none later).1 (
              wire-IsAcceptable s.jwt s.world result.subject issued later _ s.configuration
                param'.service _ f.claims times f.stamp (rw same served) since
                (subst (λ n. later < whole_seconds (issued + n)) (sym lasts_same) before)))
            (pays h' _ f.claims f.payload_is)
            ((prepare_refresh_response_iff s.authenticator p _).1
              (good.renews user result p authenticated given, refl)),
      )
