-- ===== src/Token/Make.antt =====
-- src/token.rs: `make_uuid`, `make_header`, `make_registered_claims` and `make_token`.
pub mod Shape
pub mod Bounds
pub mod Answers
use rowdy.Prelude.{
  String, ℕ, ◌+◌, Option, some, Result, ok, err, ◌>>=◌, map_err, ok_or, unwrap_or, Partial, lift,
  panic, leb, if◌then◌else◌,
}
use rowdy.Crates.{JsonValue}
use rowdy.Crates.Jwt.{
  Jwt, StringOrUri, SingleOrMultiple, SignatureAlgorithm, RegisteredClaims, JwsHeader, Jws, decoded,
  DateTime,
}
use rowdy.Crates.World.{World, Duration}
use rowdy.Error.Token.{TokenError}
use rowdy.Error.Top.{Error}

module _ (j : Jwt) (w : World) where
  make_uuid : ℕ → Result TokenError String
  make_uuid draw = do
    bytes ← ok_or (TokenError.generic_error "Unable to generate UUID") (w.fill draw 16)
    uuid ← map_err (λ e. TokenError.generic_error e.description) (w.uuid_from_bytes bytes)
    ok (w.urn uuid)

  unfoldable pub make_header : Option SignatureAlgorithm → JwsHeader
  make_header signature_algorithm = record {
    algorithm = unwrap_or signature_algorithm SignatureAlgorithm.none;
  }

  -- `now + expiry_duration` panics past the last date.
  expires : DateTime → ℕ → Partial Error DateTime
  expires now duration = if leb (now + duration) w.last_date then ok (now + duration) else err panic

  make_registered_claims :
      String
      → DateTime
      → Duration
      → StringOrUri
      → SingleOrMultiple
      → ℕ
      → Partial Error RegisteredClaims
  unfolding make_uuid expires
  make_registered_claims subject now expiry_duration issuer audience draw = do
    duration ←
        lift (map_err (λ e. Error.generic_error e.display) (w.chrono_from_std expiry_duration))
    parsed ← lift (map_err (λ e. Error.token (TokenError.jwt_error e)) (j.parse subject))
    expiry ← expires now duration
    id ← lift (map_err Error.token (make_uuid draw))
    ok (record {
      issuer = some issuer;
      subject = some parsed;
      audience = some audience;
      issued_at = some now;
      not_before = some now;
      expiry = some expiry;
      id = some id;
    })

  unfoldable pub make_token :
      String
      → StringOrUri
      → SingleOrMultiple
      → Duration
      → JsonValue
      → Option SignatureAlgorithm
      → DateTime
      → ℕ
      → Partial Error Jws
  unfolding make_header make_registered_claims
  make_token subject issuer audience expiry_duration private_claims signature_algorithm now draw =
      do
        let header = make_header signature_algorithm
        registered ← make_registered_claims subject now expiry_duration issuer audience draw
        ok (decoded header (record { registered = registered; private_claims = private_claims }))
