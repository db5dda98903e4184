-- ===== src/Tests/History.antt =====
-- A run of the sample server: a login, and the refresh token of it redeemed.
use rowdy.Prelude.{ok, ◌≡◌, contains, some, none, [], ◌∷◌, inl, inr, refl, true, List}
use rowdy.Crates.Jwt.{SignatureAlgorithm}
use rowdy.Routes.History.{Event, login, redemption, Run, start, logs_in, redeems}
use rowdy.Routes.History.Descent.{AllDescend, Run-AllDescend}
use rowdy.Auth.Header
use rowdy.Auth.Header.{is_bearer}
use rowdy.Auth.Authenticator.{prepare_refresh_response}
use rowdy.Token.Config
use rowdy.Token.Config.{refresh_token_enabled}
use rowdy.Token.Make.{make_token, make_header}
use rowdy.Token.Verify.{verify_service, verify_issuer, verify_audience}
use rowdy.Token.Refresh.{
  new_encrypted, new_decrypted, decrypt, validate, or_default, payload, claims_set,
}
use rowdy.Token.Access.{with_configuration_and_time, encode}
use rowdy.Routes.{refresh_token, redeem, reissue, verify}
use rowdy.Tests.Wire.{
  sign_sample, read_same, in_time, unseal, jwt-Verifies, jwt-Decrypts, jwt-ChecksTimes,
  jwt-RefusesLate, jwt-TellsApart, jwt-Seals,
}
use rowdy.Tests.Sample.{
  server, anyone-IsWellBehaved, user, asking, issued_token, plain_token, token_getter_signed,
  signing_key, lock,
}

abbrev hs256 : SignatureAlgorithm
hs256 = SignatureAlgorithm.hs256

-- The refresh token of `token_getter_signed` is redeemed.
redeemed :
    refresh_token
      (server SignatureAlgorithm.hs256 (some SignatureAlgorithm.hs256))
      0
      (record { token = "sealed" })
      (asking none)
    ≡ ok plain_token
unfolding refresh_token refresh_token_enabled Config.refresh_token verify is_bearer redeem
    new_encrypted decrypt validate or_default verify_service verify_issuer verify_audience contains
    payload in_time claims_set prepare_refresh_response reissue with_configuration_and_time
    make_token make_header encode new_decrypted unseal Header.token
redeemed = simp (read_same SignatureAlgorithm.hs256, sign_sample SignatureAlgorithm.hs256)

abbrev events : List Event
events =
    redemption 0 "sealed" (asking none) plain_token
    ∷ login 0 user (asking (some true)) issued_token
    ∷ []

session : Run (server hs256 (some hs256)) events
session =
    redeems (login 0 user (asking (some true)) issued_token ∷ []) 0 "sealed" (asking none)
      plain_token (logs_in [] 0 user (asking (some true)) issued_token start token_getter_signed)
      redeemed

Run-AllDescend_example : AllDescend (server hs256 (some hs256)) events
Run-AllDescend_example =
    Run-AllDescend (server hs256 (some hs256)) anyone-IsWellBehaved
      (jwt-Verifies hs256 signing_key signing_key) refl refl (jwt-Decrypts hs256 lock lock)
      (jwt-ChecksTimes hs256) hs256 refl (jwt-RefusesLate hs256) (jwt-TellsApart hs256)
      (jwt-Seals hs256) session (inl (inr refl), tt)
