-- ===== src/Routes/Granted.antt =====
-- What the routes give out, and to whom (src/routes.rs).
use rowdy.Prelude.{
  String, Bool, true, false, none, ok, ◌≡◌, ◌∙◌, ap, arith, >>=-eq-ok, map_err-eq-ok, unwrap, ok_or,
  lift, unwrap_or,
}
use rowdy.Crates.Jwt.{DateTime, ClaimsSet, encoded, decoded}
use rowdy.Crates.Jwt.Laws.{Verifies, wire}
use rowdy.Error.Token.{no_refresh_token}
use rowdy.Auth.Header.{Basic}
use rowdy.Auth.Authenticator.{AuthenticationResult, prepare_authentication_response_iff}
use rowdy.Token.Verify.{verify_service}
use rowdy.Token.Make.{make_header}
use rowdy.Token.Make.Shape.{IsStamped}
use rowdy.Token.Refresh.{encrypt}
use rowdy.Token.Access.{Token, encrypt_refresh_token}
use rowdy.Token.Access.Encoded.{encode-reads}
use rowdy.Token.Access.Shape.{with_configuration_and_time-IsMade}
use rowdy.Routes.{Server, AuthParam, token_getter, issue, reissue, encrypt_if_enabled}
use rowdy.Routes.Redeem.{token_getter-eq-ok}

-- The service was verified, and the token's text reads back, with the key for verification, to
-- claims for the authentication result, from `now` for the configured duration.
pub record IsIssuedFor (s : Server) (now : DateTime) (result : AuthenticationResult)
    (param : AuthParam) (t : Token) : Type 0 where
  pub served : verify_service s.jwt s.configuration param.service ≡ ok tt
  pub claims : ClaimsSet
  pub private_is : claims.private_claims ≡ result.private_claims
  pub stamp :
      IsStamped s.jwt s.world result.subject now s.configuration.expiry_duration
        s.configuration.issuer s.configuration.audience claims.registered
  pub text : String
  pub token_is : t.token ≡ encoded text
  pub reads :
      s.jwt.into_decoded
        (encoded text)
        s.keys.signature_verification
        (make_header s.jwt s.world s.configuration.signature_algorithm).algorithm
      ≡ ok (decoded (make_header s.jwt s.world s.configuration.signature_algorithm) (wire claims))
  pub expires_in_is : t.expires_in ≡ s.configuration.expiry_duration
  pub issued_at_is : t.issued_at ≡ now

-- The user was authenticated, and the token is issued for what the authenticator answered.
pub record IsGranted (s : Server) (now : DateTime) (user : Basic) (param : AuthParam) (t : Token)
    : Type 0 where
  pub result : AuthenticationResult
  pub authenticated :
      s.authenticator.authenticate user (unwrap_or param.offline_token false) ≡ ok result
  pub issued : IsIssuedFor s now result param t

-- The parts of a token that a step of the route leaves alone.
record IsBeside (t t' : Token) : Type 0 where
  pub token_same : t'.token ≡ t.token
  pub expires_in_same : t'.expires_in ≡ t.expires_in
  pub issued_at_same : t'.issued_at ≡ t.issued_at

module _ (s : Server) (now : DateTime) where
  encrypt_if_enabled-IsBeside :
      (t t' : Token) (b : Bool) → encrypt_if_enabled s now t b ≡ ok t' → IsBeside t t'
  unfolding encrypt_if_enabled encrypt_refresh_token
  encrypt_if_enabled-IsBeside t t' false h = record {
    token_same = ground arith;
    expires_in_same = ground arith;
    issued_at_same = ground arith;
  }
  encrypt_if_enabled-IsBeside t t' true h =
      let (key, locked, h1) = >>=-eq-ok (unwrap s.keys.encryption) _ h in
      let (r, had, h2) =
        >>=-eq-ok (lift (ok_or no_refresh_token t.refresh_token)) _ (map_err-eq-ok _ _ h1) in
      let (r', sealed, h3) = >>=-eq-ok (encrypt s.jwt r s.keys.signing key) _ h2 in
      record {
        token_same = ground arith;
        expires_in_same = ground arith;
        issued_at_same = ground arith;
      }

  module _ (signed : Verifies s.jwt s.keys.signing s.keys.signature_verification) where
    pub reissue-IsIssuedFor :
        (param : AuthParam) (result : AuthenticationResult) (t : Token)
        → reissue s now param result ≡ ok t
        → IsIssuedFor s now result param t
    unfolding reissue
    reissue-IsIssuedFor param result t h =
        let (t0, made, coded) = >>=-eq-ok _ _ h in
        let is_made =
          with_configuration_and_time-IsMade s.jwt s.world s.configuration result.subject
            param.service result.private_claims none now t0 made in
        let (text, same, reads) =
          encode-reads s.jwt signed t0 t _ is_made.claims is_made.token_is
            (map_err-eq-ok _ _ (map_err-eq-ok _ _ coded)) in
        record {
          served = is_made.served;
          claims = is_made.claims;
          private_is = is_made.private_is;
          stamp = is_made.stamp;
          text = text;
          token_is = ap (λ x. x.token) same;
          reads = reads;
          expires_in_is = ap (λ x. x.expires_in) same ∙ is_made.expires_in_is;
          issued_at_is = ap (λ x. x.issued_at) same ∙ is_made.issued_at_is;
        }

    issue-IsIssuedFor :
        (param : AuthParam) (result : AuthenticationResult) (t : Token)
        → issue s now param result ≡ ok t
        → IsIssuedFor s now result param t
    unfolding issue
    issue-IsIssuedFor param result t h =
        let (t0, made, h1) = >>=-eq-ok _ _ h in
        let (t1, coded, h2) = >>=-eq-ok _ _ h1 in
        let is_made =
          with_configuration_and_time-IsMade s.jwt s.world s.configuration result.subject
            param.service result.private_claims result.refresh_payload now t0 made in
        let (text, same, reads) =
          encode-reads s.jwt signed t0 t1 _ is_made.claims is_made.token_is
            (map_err-eq-ok _ _ (map_err-eq-ok _ _ coded)) in
        let beside = encrypt_if_enabled-IsBeside t1 t _ h2 in
        record {
          served = is_made.served;
          claims = is_made.claims;
          private_is = is_made.private_is;
          stamp = is_made.stamp;
          text = text;
          token_is = beside.token_same ∙ ap (λ x. x.token) same;
          reads = reads;
          expires_in_is =
              beside.expires_in_same ∙ ap (λ x. x.expires_in) same ∙ is_made.expires_in_is;
          issued_at_is = beside.issued_at_same ∙ ap (λ x. x.issued_at) same ∙ is_made.issued_at_is;
        }

    -- Where what is signed with the signing key verifies with the other: a token is given out only
    -- to a user whom the authenticator accepts, for a service that is verified, and its text reads
    -- back to claims with the configured issuer and audience, the user's subject and private
    -- claims, and an expiry the configured duration after now.
    pub token_getter-IsGranted :
        (user : Basic) (param : AuthParam) (t : Token)
        → token_getter s now user param ≡ ok t
        → IsGranted s now user param t
    token_getter-IsGranted user param t h =
        let (result, prepared, made) = token_getter-eq-ok s now user param t h in
        record {
          result = result;
          authenticated =
              ((prepare_authentication_response_iff s.authenticator user
                  (unwrap_or param.offline_token false) result).0
                prepared).0;
          issued = issue-IsIssuedFor param result t made;
        }
