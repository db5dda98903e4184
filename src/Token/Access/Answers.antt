-- ===== src/Token/Access/Answers.antt =====
-- When a token is made, encoded, and its refresh token encrypted (src/token.rs).
use rowdy.Token.Access.Shape.{jwe_header}
use rowdy.Prelude.{String, ℕ, true, ◌&&◌, Option, some, none, ok, ◌≡◌, refl, is_some, Answers}
use rowdy.Crates.{JsonValue}
use rowdy.Crates.Jwt.{
  Jwt, Jws, JwsHeader, JwsSecret, Jwk, ClaimsSet, decoded, encoded, decrypted, DateTime,
}
use rowdy.Crates.World.{World, Duration}
use rowdy.Crates.Jwt.Laws.{Verifies}
use rowdy.Token.Config.{Configuration, RefreshTokenConfiguration}
use rowdy.Token.Make.{make_header}
use rowdy.Token.Make.Shape.{make_token_shape, IsStamped}
use rowdy.Token.Make.Answers.{Draws, Lasts, make_token-Answers}
use rowdy.Token.Verify.{verify_service}
use rowdy.Token.Refresh.{RefreshToken, new_decrypted, encrypt, is_encrypted}
use rowdy.Token.Access.{
  Token, with_configuration_and_time, new_refresh_token, issued_at_of, encode, encode_jws,
  encrypt_refresh_token,
}

-- The token crate signs the claims that are made for a subject, a duration and private claims.
abbrev pub Signs :
    (j : Jwt) (w : World) (config : Configuration) (k : JwsSecret) (subject : String)
    (now : DateTime) (duration : Duration) (private_claims : JsonValue)
    → Type 0
Signs j w config k subject now duration private_claims =
    (c : ClaimsSet)
    → IsStamped j w subject now duration config.issuer config.audience c.registered
    → c.private_claims ≡ private_claims
    → Answers (j.into_encoded (decoded (make_header j w config.signature_algorithm) c) k)

-- It encrypts every encoded token with a key, under the algorithms of a configuration.
pub record Locks (j : Jwt) (k : Jwk) (x : RefreshTokenConfiguration) : Type 0 where
  pub locks :
      (text : String) → Answers (j.into_encrypted (decrypted (jwe_header x) (encoded text)) k)

abbrev pub LastsRefresh : World → DateTime → Option RefreshTokenConfiguration → Type 0
LastsRefresh w now none = Unit
LastsRefresh w now (some refresh) = Lasts w now refresh.expiry_duration

-- The durations of a configuration end by the last date, and a request gets its UUIDs.
pub record IsTimely (w : World) (config : Configuration) (now : DateTime) : Type 0 where
  pub draws : (draw : ℕ) → Draws w draw
  pub access : Lasts w now config.expiry_duration
  pub refresh : LastsRefresh w now config.refresh_token

module _ (j : Jwt) (w : World) where
  new_refresh_token-Answers :
      (config : Configuration) (subject : String) (refresh : Option RefreshTokenConfiguration)
      (payload : Option JsonValue) (now : DateTime)
      → ((draw : ℕ) → Draws w draw)
      → Answers (j.parse subject)
      → LastsRefresh w now refresh
      → (r : Option RefreshToken) × (new_refresh_token j w config subject refresh payload now
          ≡ ok r)
        × (is_some r ≡ (is_some refresh && is_some payload))
  unfolding new_refresh_token new_decrypted
  new_refresh_token-Answers config subject none payload now draws parsed lasts = (none, refl, refl)
  new_refresh_token-Answers config subject (some x) none now draws parsed lasts = (none, refl, refl)
  new_refresh_token-Answers config subject (some x) (some p) now draws parsed lasts =
      let (t, made) =
        make_token-Answers j w subject config.issuer config.audience x.expiry_duration p
          config.signature_algorithm now 1 parsed lasts (draws 1) in
      rw made (_, refl, refl)

  issued_at_of-some :
      (t : Jws) (h : JwsHeader) (c : ClaimsSet) (now : DateTime)
      → t ≡ decoded h c
      → c.registered.issued_at ≡ some now
      → issued_at_of j w t ≡ ok now
  unfolding issued_at_of
  issued_at_of-some t h c now is issued = rw is (rw issued refl)

  pub with_configuration_and_time-Answers :
      (config : Configuration) (subject service : String) (private_claims : JsonValue)
      (payload : Option JsonValue) (now : DateTime)
      → verify_service j config service ≡ ok tt
      → Answers (j.parse subject)
      → IsTimely w config now
      → (t : Token) × (with_configuration_and_time j w config subject service private_claims payload
            now
          ≡ ok t)
        × (is_some t.refresh_token ≡ (is_some config.refresh_token && is_some payload))
  unfolding with_configuration_and_time
  with_configuration_and_time-Answers config subject service private_claims payload now served
        parsed timely =
      let (access, made) =
        make_token-Answers j w subject config.issuer config.audience config.expiry_duration
          private_claims config.signature_algorithm now 0 parsed timely.access (timely.draws 0) in
      let (r, renewed, has) =
        new_refresh_token-Answers config subject config.refresh_token payload now timely.draws
          parsed timely.refresh in
      let (c, shape, private, stamp) = make_token_shape j w _ _ _ _ _ _ _ _ access made in
      let issued = issued_at_of-some access _ c now shape stamp.issued_at_is in
      rw served (rw made (rw renewed (rw issued (_, refl, has))))

module _ (j : Jwt) where
  pub encode-Answers :
      (t : Token) (h : JwsHeader) (c : ClaimsSet) (k : JwsSecret)
      → t.token ≡ decoded h c
      → Answers (j.into_encoded (decoded h c) k)
      → Answers (encode j t k)
  unfolding encode encode_jws
  encode-Answers t h c k is (x, signed) = rw is (rw signed (_, refl))

  pub encrypt_refresh_token-Answers :
      (t : Token) (x : RefreshTokenConfiguration) (g : JwsHeader) (c : ClaimsSet)
      (k check : JwsSecret) (lock : Jwk)
      → Verifies j k check
      → Locks j lock x
      → t.refresh_token ≡ some (decrypted (jwe_header x) (decoded g c))
      → Answers (j.into_encoded (decoded g c) k)
      → (t' : Token) × (encrypt_refresh_token j t k lock ≡ ok t')
        × (is_some t'.refresh_token ≡ true)
  unfolding encrypt_refresh_token encrypt is_encrypted
  encrypt_refresh_token-Answers t x g c k check lock verifies locking has (r, signed) =
      let (text, is_text, back) = verifies.signs g c r signed in
      let (y, locked) = locking.locks text in
      rw has (rw signed (rw is_text (rw locked (_, refl, refl))))
