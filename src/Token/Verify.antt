-- ===== src/Token/Verify.antt =====
-- src/token.rs: `verify_service`, `verify_issuer` and `verify_audience`, and what they decide.
use rowdy.Prelude.{
  String, ◌≡◌, ◌↔◌, Result, ok, err, ◌>>=◌, map_err, contains, is_subset, is_subset_refl, ◌==◌,
  eq_iff, if◌then◌else◌, not, true, arith,
}
use rowdy.Crates.Jwt.{Jwt, StringOrUri, SingleOrMultiple, iter}
use rowdy.Error.Token.{TokenError, jwt_error, invalid_service, invalid_issuer, invalid_audience}
use rowdy.Token.Config.{Configuration}

module _ (j : Jwt) where
  unfoldable pub verify_service : Configuration → String → Result TokenError (Unit {0})
  verify_service config service = do
    parsed ← map_err jwt_error (j.parse service)
    if not (contains (iter config.audience) parsed) then err invalid_service else ok tt

unfoldable pub verify_issuer : Configuration → StringOrUri → Result TokenError (Unit {0})
verify_issuer config issuer = if issuer == config.issuer then ok tt else err invalid_issuer

-- The two `HashSet`s are their lists: `is_subset` does not see order or repetition.
unfoldable pub verify_audience : Configuration → SingleOrMultiple → Result TokenError (Unit {0})
verify_audience config audience =
    if is_subset (iter audience) (iter config.audience) then ok tt else err invalid_audience

-- A service is verified exactly when it parses to a text of the configured audience.
pub verify_service_iff :
    (j : Jwt) (config : Configuration) (service : String)
    → (verify_service j config service ≡ ok tt)
      ↔ ((s : StringOrUri) × (j.parse service ≡ ok s) × (contains (iter config.audience) s ≡ true))
unfolding verify_service
verify_service_iff j config service = (from, to)
  where
    from :
        verify_service j config service ≡ ok tt
        → (s : StringOrUri) × (j.parse service ≡ ok s) × (contains (iter config.audience) s ≡ true)
    from h = ground arith

    to :
        (s : StringOrUri) × (j.parse service ≡ ok s) × (contains (iter config.audience) s ≡ true)
        → verify_service j config service ≡ ok tt
    to (s, p, c) = rw (p, c)

-- The whole configured audience passes: the subset that is asked for need not be strict.
pub verify_audience_whole :
    (config : Configuration) → verify_audience config config.audience ≡ ok tt
unfolding verify_audience
verify_audience_whole config = rw (is_subset_refl (iter config.audience))

pub verify_issuer_self : (config : Configuration) → verify_issuer config config.issuer ≡ ok tt
unfolding verify_issuer
verify_issuer_self config = ground (arith, eq_iff config.issuer config.issuer)
