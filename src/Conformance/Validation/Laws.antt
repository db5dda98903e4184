-- ===== src/Conformance/Validation/Laws.antt =====
-- How the tests of validation in src/token.rs end.
use rowdy.Prelude.{true, none, some, ok, err, ◌≡◌, ◌+◌, ◌≤◌, ◌<◌, refl, contains}
use rowdy.Crates.{validation_error}
use rowdy.Crates.Jwt.{Jwt, DateTime}
use rowdy.Crates.Jwt.Laws.{ChecksTimes}
use rowdy.Crates.World.{World}
use rowdy.Error.Token.{jwt_error, invalid_issuer, invalid_audience, invalid_service}
use rowdy.Token.Verify.{verify_service, verify_issuer, verify_audience}
use rowdy.Token.Refresh.{validate, claims_set, default_options, or_default}
use rowdy.Conformance.Harness.{on_token_error}
use rowdy.Conformance.Fixtures.{
  Normalises, Serves, claims_value, make_config-value, make_refresh_token-value,
}
use rowdy.Conformance.Validation.{
  refresh_token_validates_correctly, refresh_token_validates_missing_issuer,
  refresh_token_validates_missing_audience, refresh_token_validates_invalid_service,
  refresh_token_validates_mismatch_service_and_audience, refresh_token_validates_invalid_audience,
  refresh_token_validates_invalid_issuer, refresh_token_validates_missing_issued_at,
  refresh_token_validates_missing_not_before, refresh_token_validates_missing_expiry, RequiresTimes,
}

module _ (j : Jwt) (w : World) (issued now : DateTime) (urls : Normalises j)
    (s : Serves w issued) where
  -- The test passes while the token is valid.
  refresh_token_validates_correctly-passes :
      ChecksTimes j
      → issued ≤ now
      → now < issued + 120000000000
      → refresh_token_validates_correctly j w issued now ≡ ok tt
  unfolding refresh_token_validates_correctly validate claims_set verify_service verify_audience
      verify_issuer contains or_default
  refresh_token_validates_correctly-passes times since before =
      let timed =
        times.accepts (claims_value issued (w.urn s.uuid)) (some (default_options j)) issued issued
          (issued + 120000000000) now refl refl refl since since before in
      simp (
        make_config-value j urls true,
        make_refresh_token-value j urls w issued s,
        urls.example_path,
        timed,
      )

  missing_issuer-panics :
      refresh_token_validates_missing_issuer j w issued now ≡ err (on_token_error invalid_issuer)
  unfolding refresh_token_validates_missing_issuer validate claims_set verify_service
      verify_audience verify_issuer contains or_default
  missing_issuer-panics =
      simp (
        make_config-value j urls true,
        make_refresh_token-value j urls w issued s,
        urls.example_path,
      )

  missing_audience-panics :
      refresh_token_validates_missing_audience j w issued now
      ≡ err (on_token_error invalid_audience)
  unfolding refresh_token_validates_missing_audience validate claims_set verify_service
      verify_audience verify_issuer contains or_default
  missing_audience-panics =
      simp (
        make_config-value j urls true,
        make_refresh_token-value j urls w issued s,
        urls.example_path,
      )

  invalid_service-panics :
      refresh_token_validates_invalid_service j w issued now ≡ err (on_token_error invalid_service)
  unfolding refresh_token_validates_invalid_service validate claims_set verify_service
      verify_audience verify_issuer contains or_default
  invalid_service-panics = simp (
    make_config-value j urls true,
    make_refresh_token-value j urls w issued s,
    urls.example_path,
    urls.invalid,
  )

  mismatch_service_and_audience-panics :
      refresh_token_validates_mismatch_service_and_audience j w issued now
      ≡ err (on_token_error invalid_audience)
  unfolding refresh_token_validates_mismatch_service_and_audience validate claims_set verify_service
      verify_audience verify_issuer contains or_default
  mismatch_service_and_audience-panics = simp (
    make_config-value j urls true,
    make_refresh_token-value j urls w issued s,
    urls.example_path,
    urls.invalid,
  )

  invalid_audience-panics :
      refresh_token_validates_invalid_audience j w issued now
      ≡ err (on_token_error invalid_audience)
  unfolding refresh_token_validates_invalid_audience validate claims_set verify_service
      verify_audience verify_issuer contains or_default
  invalid_audience-panics = simp (
    make_config-value j urls true,
    make_refresh_token-value j urls w issued s,
    urls.example_path,
    urls.invalid,
  )

  invalid_issuer-panics :
      refresh_token_validates_invalid_issuer j w issued now ≡ err (on_token_error invalid_issuer)
  unfolding refresh_token_validates_invalid_issuer validate claims_set verify_service
      verify_audience verify_issuer contains or_default
  invalid_issuer-panics = simp (
    make_config-value j urls true,
    make_refresh_token-value j urls w issued s,
    urls.example_path,
    urls.invalid,
  )

  missing_issued_at-panics :
      (required : RequiresTimes j)
      → refresh_token_validates_missing_issued_at j w issued now
        ≡ err (
            on_token_error
              (jwt_error (record { variant = validation_error; error = required.missing "iat" })))
  unfolding refresh_token_validates_missing_issued_at validate claims_set verify_service
      verify_audience verify_issuer contains or_default
  missing_issued_at-panics required =
      let refused =
        required.iat (record (claims_value issued (w.urn s.uuid)) { issued_at = none }) now refl in
      simp (
        make_config-value j urls true,
        make_refresh_token-value j urls w issued s,
        urls.example_path,
        refused,
      )

  missing_not_before-panics :
      (required : RequiresTimes j)
      → refresh_token_validates_missing_not_before j w issued now
        ≡ err (
            on_token_error
              (jwt_error (record { variant = validation_error; error = required.missing "nbf" })))
  unfolding refresh_token_validates_missing_not_before validate claims_set verify_service
      verify_audience verify_issuer contains or_default
  missing_not_before-panics required =
      let refused =
        required.nbf (record (claims_value issued (w.urn s.uuid)) { not_before = none }) now issued
          refl refl in
      simp (
        make_config-value j urls true,
        make_refresh_token-value j urls w issued s,
        urls.example_path,
        refused,
      )

  missing_expiry-panics :
      (required : RequiresTimes j)
      → refresh_token_validates_missing_expiry j w issued now
        ≡ err (
            on_token_error
              (jwt_error (record { variant = validation_error; error = required.missing "exp" })))
  unfolding refresh_token_validates_missing_expiry validate claims_set verify_service
      verify_audience verify_issuer contains or_default
  missing_expiry-panics required =
      let refused =
        required.exp (record (claims_value issued (w.urn s.uuid)) { expiry = none }) now issued
          issued refl refl refl in
      simp (
        make_config-value j urls true,
        make_refresh_token-value j urls w issued s,
        urls.example_path,
        refused,
      )
