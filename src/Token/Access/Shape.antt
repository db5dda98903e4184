-- ===== src/Token/Access/Shape.antt =====
-- What a token that `Token::with_configuration_and_time` returned looks like.
use rowdy.Prelude.{String, Option, some, none, ok, ◌≡◌, refl, arith, >>=-eq-ok, map_err-eq-ok}
use rowdy.Crates.{JsonValue}
use rowdy.Crates.Jwt.{Jwt, ClaimsSet, Jws, decoded, decrypted, DateTime, JweHeader, JwsHeader}
use rowdy.Crates.World.{World}
use rowdy.Token.Config.{Configuration, RefreshTokenConfiguration}
use rowdy.Token.Make.{make_header}
use rowdy.Token.Make.Shape.{IsStamped, make_token_shape}
use rowdy.Token.Verify.{verify_service}
use rowdy.Token.Refresh.{RefreshToken, new_decrypted}
use rowdy.Token.Access.{Token, with_configuration_and_time, new_refresh_token, issued_at_of}

-- The header of a refresh token's JWE.
abbrev pub jwe_header : RefreshTokenConfiguration → JweHeader
jwe_header refresh = record {
  cek_algorithm = refresh.cek_algorithm;
  enc_algorithm = refresh.enc_algorithm;
  media_type = some "JOSE";
  content_type = some "JOSE";
}

-- A decrypted refresh token for a payload: its claims have the subject, issuer and audience of
-- the access token and the refresh token's own duration.
pub record IsRefreshFor (j : Jwt) (w : World) (config : Configuration) (subject : String)
    (now : DateTime) (payload : JsonValue) (r : RefreshToken) : Type 0 where
  pub refresh : RefreshTokenConfiguration
  pub refresh_is : config.refresh_token ≡ some refresh
  pub claims : ClaimsSet
  pub token_is :
      r
      ≡ decrypted (jwe_header refresh) (decoded (make_header j w config.signature_algorithm) claims)
  pub payload_is : claims.private_claims ≡ payload
  pub stamp :
      IsStamped j w subject now refresh.expiry_duration config.issuer config.audience
        claims.registered

-- What `with_configuration_and_time` answers.
pub record IsMade (j : Jwt) (w : World) (config : Configuration) (subject service : String)
    (private_claims : JsonValue) (now : DateTime) (t : Token) : Type 0 where
  pub served : verify_service j config service ≡ ok tt
  pub claims : ClaimsSet
  pub token_is : t.token ≡ decoded (make_header j w config.signature_algorithm) claims
  pub private_is : claims.private_claims ≡ private_claims
  pub stamp :
      IsStamped j w subject now config.expiry_duration config.issuer config.audience
        claims.registered
  pub expires_in_is : t.expires_in ≡ config.expiry_duration
  pub issued_at_is : t.issued_at ≡ now

module _ (j : Jwt) (w : World) where
  new_refresh_token-some :
      (config : Configuration) (subject : String) (o : Option RefreshTokenConfiguration)
      (p : Option JsonValue) (now : DateTime) (r : RefreshToken)
      → config.refresh_token ≡ o
      → new_refresh_token j w config subject o p now ≡ ok (some r)
      → (payload : JsonValue) × (p ≡ some payload) × IsRefreshFor j w config subject now payload r
  unfolding new_refresh_token new_decrypted
  new_refresh_token-some config subject none p now r _ h = absurd (ground arith)
  new_refresh_token-some config subject (some x) none now r _ h = absurd (ground arith)
  new_refresh_token-some config subject (some x) (some payload) now r refresh h =
      let (token, new, h1) = >>=-eq-ok _ _ h in
      let (jws, made, h2) = >>=-eq-ok _ _ new in
      let (c, shape, private, stamp) = make_token_shape j w _ _ _ _ _ _ _ _ jws made in
      (
        payload,
        refl,
        record {
          refresh = x;
          refresh_is = refresh;
          claims = c;
          token_is = ground arith;
          payload_is = private;
          stamp = stamp;
        },
      )

  issued_at_of-eq :
      (t : Jws) (c : ClaimsSet) (now : DateTime) (h : JwsHeader) {d : DateTime}
      → t ≡ decoded h c
      → c.registered.issued_at ≡ some now
      → issued_at_of j w t ≡ ok d
      → d ≡ now
  unfolding issued_at_of
  issued_at_of-eq t c now h p q r = ground arith

  pub with_configuration_and_time_shape :
      (config : Configuration) (subject service : String) (private_claims : JsonValue)
      (payload : Option JsonValue) (now : DateTime) (t : Token)
      → with_configuration_and_time j w config subject service private_claims payload now ≡ ok t
      → IsMade j w config subject service private_claims now t
        × ((r : RefreshToken)
            → t.refresh_token ≡ some r
            → (p : JsonValue) × (payload ≡ some p) × IsRefreshFor j w config subject now p r)
  unfolding with_configuration_and_time
  with_configuration_and_time_shape config subject service private_claims payload now t h =
      let (_, served, h1) = >>=-eq-ok _ _ h in
      let (access, made, h2) = >>=-eq-ok _ _ h1 in
      let (refresh, made_refresh, h3) =
        >>=-eq-ok (new_refresh_token j w config subject config.refresh_token payload now) _ h2 in
      let (issued, issued_is, h4) = >>=-eq-ok (issued_at_of j w access) _ h3 in
      let (c, shape, private, stamp) = make_token_shape j w _ _ _ _ _ _ _ _ access made in
      (
        record {
          served = map_err-eq-ok _ _ (map_err-eq-ok _ _ served);
          claims = c;
          token_is = ground arith;
          private_is = private;
          stamp = stamp;
          expires_in_is = ground arith;
          issued_at_is =
              ground (arith, issued_at_of-eq access c now _ shape stamp.issued_at_is issued_is);
        },
        λ r has. new_refresh_token-some config subject _ payload now r refl (ground arith),
      )

  -- A token that is made was asked for by a service that is verified; it is decoded, has the
  -- configured algorithm in its header and the private claims given, is stamped from `now` for the
  -- configured duration, and states that duration and time outside too.
  pub with_configuration_and_time-IsMade :
      (config : Configuration) (subject service : String) (private_claims : JsonValue)
      (payload : Option JsonValue) (now : DateTime) (t : Token)
      → with_configuration_and_time j w config subject service private_claims payload now ≡ ok t
      → IsMade j w config subject service private_claims now t
  with_configuration_and_time-IsMade config subject service private_claims payload now t h =
      (with_configuration_and_time_shape config subject service private_claims payload now t h).0

  -- A token that is made has a refresh token only where one is configured and a payload was given,
  -- and then it is a decrypted one for that payload, with the algorithms and the duration
  -- configured for it.
  pub with_configuration_and_time-IsRefreshFor :
      (config : Configuration) (subject service : String) (private_claims : JsonValue)
      (payload : Option JsonValue) (now : DateTime) (t : Token) (r : RefreshToken)
      → with_configuration_and_time j w config subject service private_claims payload now ≡ ok t
      → t.refresh_token ≡ some r
      → (p : JsonValue) × (payload ≡ some p) × IsRefreshFor j w config subject now p r
  with_configuration_and_time-IsRefreshFor config subject service private_claims payload now t r h =
      (with_configuration_and_time_shape config subject service private_claims payload now t h).1 r
