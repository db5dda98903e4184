-- ===== src/Token/Access/Calm.antt =====
-- Panics in making a token from the configuration (src/token.rs).
use rowdy.Prelude.{
  String, Option, none, some, ◌≡◌, arith, lift, map_err, ok_or, NeverPanics, NeverPanics-bind,
  NeverPanics-lift, NeverPanics-ok,
}
use rowdy.Crates.{JsonValue}
use rowdy.Crates.Jwt.{Jwt, JwsSecret, Jwk, Jws, decoded, ClaimsSet, DateTime}
use rowdy.Crates.World.{World}
use rowdy.Error.Token.{no_refresh_token}
use rowdy.Error.Top.{Error}
use rowdy.Token.Config.{Configuration, RefreshTokenConfiguration}
use rowdy.Token.Make.{make_token}
use rowdy.Token.Make.Shape.{make_token_shape}
use rowdy.Token.Make.Bounds.{Fits, NeverPanics-make_token}
use rowdy.Token.Verify.{verify_service}
use rowdy.Token.Refresh.{new_decrypted, encrypt}
use rowdy.Token.Refresh.Calm.{NeverPanics-encrypt}
use rowdy.Token.Access.{
  Token, with_configuration_and_time, new_refresh_token, issued_at_of, encrypt_refresh_token,
}

abbrev pub FitsRefresh : World → DateTime → Option RefreshTokenConfiguration → Type 0
FitsRefresh w now none = Unit
FitsRefresh w now (some refresh) = Fits w now refresh.expiry_duration

-- The tokens that a configuration makes now expire by the last date.
pub record HasRoom (w : World) (config : Configuration) (now : DateTime) : Type 0 where
  pub access : Fits w now config.expiry_duration
  pub refresh : FitsRefresh w now config.refresh_token

module _ (j : Jwt) (w : World) where
  NeverPanics-new_refresh_token :
      (config : Configuration) (subject : String) (refresh : Option RefreshTokenConfiguration)
      (payload : Option JsonValue) (now : DateTime)
      → FitsRefresh w now refresh
      → NeverPanics (new_refresh_token j w config subject refresh payload now)
  unfolding new_refresh_token new_decrypted
  NeverPanics-new_refresh_token config subject none payload now fits = NeverPanics-ok none
  NeverPanics-new_refresh_token config subject (some refresh) none now fits = NeverPanics-ok none
  NeverPanics-new_refresh_token config subject (some refresh) (some payload) now fits =
      NeverPanics-bind _ _
        (NeverPanics-bind _ _
          (NeverPanics-make_token j w subject config.issuer config.audience refresh.expiry_duration
            payload config.signature_algorithm now 1 fits)
          (λ token _. NeverPanics-ok _))
        (λ token _. NeverPanics-ok _)

  NeverPanics-issued_at_of :
      (t : Jws) (c : ClaimsSet) (now : DateTime) (h : _)
      → t ≡ decoded h c
      → c.registered.issued_at ≡ some now
      → NeverPanics (issued_at_of j w t)
  unfolding issued_at_of
  NeverPanics-issued_at_of t c now h is_decoded issued = record { calm = λ q. ground arith }

  pub NeverPanics-with_configuration_and_time :
      (config : Configuration) (subject service : String) (private_claims : JsonValue)
      (payload : Option JsonValue) (now : DateTime)
      → HasRoom w config now
      → NeverPanics
          (with_configuration_and_time j w config subject service private_claims payload now)
  unfolding with_configuration_and_time
  NeverPanics-with_configuration_and_time config subject service private_claims payload now room =
      NeverPanics-bind (lift (map_err Error.token (verify_service j config service))) _
        (NeverPanics-lift _)
        (λ _ _.
          NeverPanics-bind
            (make_token j w subject config.issuer config.audience config.expiry_duration
              private_claims config.signature_algorithm now 0)
            _
            (NeverPanics-make_token j w subject config.issuer config.audience config.expiry_duration
              private_claims config.signature_algorithm now 0 room.access)
            (λ access made.
              let (c, shape, private, stamp) = make_token_shape j w _ _ _ _ _ _ _ _ access made in
              NeverPanics-bind
                (new_refresh_token j w config subject config.refresh_token payload now) _
                (NeverPanics-new_refresh_token config subject config.refresh_token payload now
                  room.refresh)
                (λ refresh _.
                  NeverPanics-bind (issued_at_of j w access) _
                    (NeverPanics-issued_at_of access c now _ shape stamp.issued_at_is)
                    (λ issued _. NeverPanics-ok _))))

  pub NeverPanics-encrypt_refresh_token :
      (t : Token) (secret : JwsSecret) (key : Jwk)
      → NeverPanics (encrypt_refresh_token j t secret key)
  unfolding encrypt_refresh_token
  NeverPanics-encrypt_refresh_token t secret key =
      NeverPanics-bind (lift (ok_or no_refresh_token t.refresh_token)) _ (NeverPanics-lift _)
        (λ refresh _.
          NeverPanics-bind (encrypt j refresh secret key) _
            (NeverPanics-encrypt j refresh secret key) (λ _ _. NeverPanics-ok _))
