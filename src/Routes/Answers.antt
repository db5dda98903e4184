-- ===== src/Routes/Answers.antt =====
-- When the two routes come to a token.
use rowdy.Token.Access.Shape.{jwe_header}
use rowdy.Prelude.{
  true, false, ◌&&◌, some, none, ok, ◌≡◌, ◌∙◌, ap, refl, arith, sym, is_some, unwrap_or, inl, inr,
  Option-cases, Answers, Bool-cases,
}
use rowdy.Crates.{JsonValue}
use rowdy.Crates.Jwt.Laws.{Verifies}
use rowdy.Crates.Jwt.{DateTime, Jwk, JwsHeader, ClaimsSet, decrypted, decoded}
use rowdy.Auth.Header.{Basic, is_bearer}
use rowdy.Auth.Authenticator.{AuthenticationResult, prepare_authentication_response}
use rowdy.Token.Config.{RefreshTokenConfiguration, refresh_token_enabled}
use rowdy.Token.Verify.{verify_service}
use rowdy.Token.Keys.{keys}
use rowdy.Token.Keys.Laws.{keys-HasOneKey}
use rowdy.Token.Access.{
  Token, with_configuration_and_time, encode, encrypt_refresh_token, has_refresh_token,
}
use rowdy.Token.Access.Shape.{with_configuration_and_time_shape, with_configuration_and_time-IsMade}
use rowdy.Token.Access.Answers.{
  Signs, Locks, IsTimely, with_configuration_and_time-Answers, encode-Answers,
  encrypt_refresh_token-Answers,
}
use rowdy.Routes.{Server, AuthParam, token_getter, issue, reissue, verify, encrypt_if_enabled}
use rowdy.Routes.Flow.{encode-refresh_token, enabled}

-- The token crate signs what the routes make for a result.
pub record SignsFor (s : Server) (now : DateTime) (result : AuthenticationResult) : Type 0 where
  pub access :
      Signs s.jwt s.world s.configuration s.keys.signing result.subject now
        s.configuration.expiry_duration result.private_claims
  pub refresh :
      (x : RefreshTokenConfiguration) (p : JsonValue)
      → s.configuration.refresh_token ≡ some x
      → result.refresh_payload ≡ some p
      → Signs s.jwt s.world s.configuration s.keys.signing result.subject now x.expiry_duration p

module _ (s : Server) (made : keys s.world s.configuration ≡ ok s.keys)
    (verifies : Verifies s.jwt s.keys.signing s.keys.signature_verification)
    (locks : (k : Jwk) (x : RefreshTokenConfiguration)
      → s.keys.encryption ≡ some k
      → s.configuration.refresh_token ≡ some x
      → Locks s.jwt k x)
    (now : DateTime) (timely : IsTimely s.world s.configuration now) where
  -- The three steps of `issue`.
  issue_by :
      (param : AuthParam) (result : AuthenticationResult) (t0 t1 t : Token)
      → with_configuration_and_time s.jwt s.world s.configuration result.subject param.service
          result.private_claims result.refresh_payload now
        ≡ ok t0
      → encode s.jwt t0 s.keys.signing ≡ ok t1
      → encrypt_if_enabled s now t1 (refresh_token_enabled s.configuration && has_refresh_token t1)
        ≡ ok t
      → issue s now param result ≡ ok t
  unfolding issue
  issue_by param result t0 t1 t h g k = rw h (rw g k)

  encrypt_if_enabled-none :
      (t : Token)
      → t.refresh_token ≡ none
      → encrypt_if_enabled s now t (refresh_token_enabled s.configuration && has_refresh_token t)
        ≡ ok t
  unfolding encrypt_if_enabled has_refresh_token
  encrypt_if_enabled-none t without = elim (Bool-cases (refresh_token_enabled s.configuration)) [
    | inl on ↦ rw on (rw without refl)
    | inr off ↦ rw off refl
  ]

  encrypt_if_enabled-true :
      (t t' : Token) (k : Jwk)
      → s.keys.encryption ≡ some k
      → encrypt_refresh_token s.jwt t s.keys.signing k ≡ ok t'
      → encrypt_if_enabled s now t true ≡ ok t'
  unfolding encrypt_if_enabled
  encrypt_if_enabled-true t t' k lock closed = rw lock (rw closed refl)

  encrypt_if_enabled-Answers :
      (t : Token) (x : RefreshTokenConfiguration) (g : JwsHeader) (c : ClaimsSet)
      → s.configuration.refresh_token ≡ some x
      → t.refresh_token ≡ some (decrypted (jwe_header x) (decoded g c))
      → Answers (s.jwt.into_encoded (decoded g c) s.keys.signing)
      → (t' : Token) × (encrypt_if_enabled s now t
            (refresh_token_enabled s.configuration && has_refresh_token t)
          ≡ ok t')
        × (is_some t'.refresh_token ≡ true)
  encrypt_if_enabled-Answers t x g c configured has signs =
      let (k, lock, unlock) = keys-HasOneKey s.world s.configuration x s.keys configured made in
      let (t', closed, still) =
        encrypt_refresh_token-Answers s.jwt t x g c s.keys.signing s.keys.signature_verification k
          verifies (locks k x lock configured) has signs in
      let on = enabled s.configuration t (λ _ _. (x, configured)) (ap is_some has) in
      (t', ap (encrypt_if_enabled s now t) on ∙ encrypt_if_enabled-true t t' k lock closed, still)

  issue-Answers :
      (param : AuthParam) (result : AuthenticationResult)
      → SignsFor s now result
      → verify_service s.jwt s.configuration param.service ≡ ok tt
      → Answers (s.jwt.parse result.subject)
      → (t : Token) × (issue s now param result ≡ ok t)
        × (is_some t.refresh_token
            ≡ (is_some s.configuration.refresh_token && is_some result.refresh_payload))
  issue-Answers param result signs served parsed =
      let (t0, is_t0, has) =
        with_configuration_and_time-Answers s.jwt s.world s.configuration result.subject
          param.service result.private_claims result.refresh_payload now served parsed timely in
      let (is_made, refreshes) =
        with_configuration_and_time_shape s.jwt s.world s.configuration result.subject param.service
          result.private_claims result.refresh_payload now t0 is_t0 in
      let (t1, coded) =
        encode-Answers s.jwt t0 _ is_made.claims s.keys.signing is_made.token_is
          (signs.access is_made.claims is_made.stamp is_made.private_is) in
      let keep = encode-refresh_token s.jwt t0 t1 s.keys.signing coded in
      elim (Option-cases t0.refresh_token) [
        | inl without ↦ (
          t1,
          issue_by param result t0 t1 t1 is_t0 coded (encrypt_if_enabled-none t1 (keep ∙ without)),
          ap is_some keep ∙ has,
        )
        | inr (r, had) ↦
            let (p, payload, f) = refreshes r had in
            let (t, closed, still) =
              encrypt_if_enabled-Answers t1 f.refresh _ f.claims f.refresh_is
                (keep ∙ had ∙ ap some f.token_is)
                (signs.refresh f.refresh p f.refresh_is payload f.claims f.stamp f.payload_is) in
            (
              t,
              issue_by param result t0 t1 t is_t0 coded closed,
              still ∙ sym (ap is_some had) ∙ has,
            )
      ]

  verify_basic : (param : AuthParam) → is_bearer s.basic ≡ false → verify s.basic param ≡ ok tt
  unfolding verify
  verify_basic param h = ground arith

  -- With the keys of the configuration, a first scheme that is not `Bearer`, a token crate that
  -- signs what is made for the user, verifies what it signed and encrypts what is encoded under the
  -- configured algorithms, dates
  -- that fit and random draws that are UUIDs: a user for whom the prepared response of the
  -- authenticator is a result, who asks for a verified service and has a subject that parses,
  -- gets a token; and it has a refresh token exactly if one is configured and the result has a
  -- payload for it.
  pub token_getter-Answers :
      (user : Basic) (param : AuthParam) (result : AuthenticationResult)
      → SignsFor s now result
      → is_bearer s.basic ≡ false
      → prepare_authentication_response s.authenticator user (unwrap_or param.offline_token false)
        ≡ ok result
      → verify_service s.jwt s.configuration param.service ≡ ok tt
      → Answers (s.jwt.parse result.subject)
      → (t : Token) × (token_getter s now user param ≡ ok t)
        × (is_some t.refresh_token
            ≡ (is_some s.configuration.refresh_token && is_some result.refresh_payload))
  unfolding token_getter
  token_getter-Answers user param result signs scheme prepared served parsed =
      let (t, issued, has) = issue-Answers param result signs served parsed in
      rw (verify_basic param scheme) (rw prepared (t, issued, has))

  -- The last part of the second route.
  pub reissue-Answers :
      (param : AuthParam) (result : AuthenticationResult)
      → SignsFor s now result
      → verify_service s.jwt s.configuration param.service ≡ ok tt
      → Answers (s.jwt.parse result.subject)
      → Answers (reissue s now param result)
  unfolding reissue
  reissue-Answers param result signs served parsed =
      let (t0, is_t0, has) =
        with_configuration_and_time-Answers s.jwt s.world s.configuration result.subject
          param.service result.private_claims none now served parsed timely in
      let is_made =
        with_configuration_and_time-IsMade s.jwt s.world s.configuration result.subject
          param.service result.private_claims none now t0 is_t0 in
      let (t1, coded) =
        encode-Answers s.jwt t0 _ is_made.claims s.keys.signing is_made.token_is
          (signs.access is_made.claims is_made.stamp is_made.private_is) in
      rw is_t0 (rw coded (t1, refl))
