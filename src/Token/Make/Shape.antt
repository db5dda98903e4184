-- ===== src/Token/Make/Shape.antt =====
-- What a token that `make_token` returned looks like.
use rowdy.Prelude.{
  String, ℕ, ◌+◌, ◌≤◌, Option, some, ok, ◌≡◌, refl, arith, >>=-eq-ok, map_err-eq-ok, lift, map_err,
}
use rowdy.Crates.{JsonValue}
use rowdy.Crates.Jwt.{
  Jwt, StringOrUri, SingleOrMultiple, SignatureAlgorithm, RegisteredClaims, ClaimsSet, Jws, decoded,
  DateTime,
}
use rowdy.Crates.World.{World, Duration}
use rowdy.Error.Top.{Error}
use rowdy.Token.Make.{make_token, make_header, make_registered_claims, expires, make_uuid}

-- The registered claims of a token: whose it is, for whom, from `now` for a duration of `d`.
pub record IsStamped (j : Jwt) (w : World) (subject : String) (now : DateTime) (duration : Duration)
    (issuer : StringOrUri) (audience : SingleOrMultiple) (c : RegisteredClaims) : Type 0 where
  pub lasts : ℕ
  pub lasts_from : w.chrono_from_std duration ≡ ok lasts
  pub issuer_is : c.issuer ≡ some issuer
  pub audience_is : c.audience ≡ some audience
  pub subject_text : StringOrUri
  pub subject_parsed : j.parse subject ≡ ok subject_text
  pub subject_is : c.subject ≡ some subject_text
  pub issued_at_is : c.issued_at ≡ some now
  pub not_before_is : c.not_before ≡ some now
  pub expiry_is : c.expiry ≡ some (now + lasts)
  pub dated : now + lasts ≤ w.last_date
  pub id_text : String
  pub id_is : c.id ≡ some id_text

module _ (j : Jwt) (w : World) where
  expires-eq-ok : (now d e : ℕ) → expires j w now d ≡ ok e → (e ≡ now + d) × (now + d ≤ w.last_date)
  unfolding expires
  expires-eq-ok now d e h = ground arith

  make_registered_claims-IsStamped :
      (subject : String) (now : DateTime) (duration : Duration) (issuer : StringOrUri)
      (audience : SingleOrMultiple) (draw : ℕ) (c : RegisteredClaims)
      → make_registered_claims j w subject now duration issuer audience draw ≡ ok c
      → IsStamped j w subject now duration issuer audience c
  unfolding make_registered_claims
  make_registered_claims-IsStamped subject now duration issuer audience draw c h =
      let (d, lasting, h1) = >>=-eq-ok _ _ h in
      let (parsed, parses, h2) = >>=-eq-ok _ _ h1 in
      let (e, expiring, h3) = >>=-eq-ok _ _ h2 in
      let (id, drawn, h4) = >>=-eq-ok (lift (map_err Error.token (make_uuid j w draw))) _ h3 in
      let (e_is, dated) = expires-eq-ok now d e expiring in
      record {
        lasts = d;
        lasts_from = map_err-eq-ok _ _ (map_err-eq-ok _ _ lasting);
        issuer_is = ground arith;
        audience_is = ground arith;
        subject_text = parsed;
        subject_parsed = map_err-eq-ok _ _ (map_err-eq-ok _ _ parses);
        subject_is = ground arith;
        issued_at_is = ground arith;
        not_before_is = ground arith;
        expiry_is = ground arith;
        dated = dated;
        id_text = id;
        id_is = ground arith;
      }

  -- A token that is made is decoded, has the configured algorithm (or `none`) in its header, the
  -- private claims that were given, and registered claims from `now` on for the duration.
  pub make_token_shape :
      (subject : String) (issuer : StringOrUri) (audience : SingleOrMultiple) (duration : Duration)
      (private_claims : JsonValue) (algorithm : Option SignatureAlgorithm) (now : DateTime)
      (draw : ℕ) (t : Jws)
      → make_token j w subject issuer audience duration private_claims algorithm now draw ≡ ok t
      → (c : ClaimsSet) × (t ≡ decoded (make_header j w algorithm) c)
        × (c.private_claims ≡ private_claims)
        × IsStamped j w subject now duration issuer audience c.registered
  unfolding make_token
  make_token_shape subject issuer audience duration private_claims algorithm now draw t h =
      let (c, made, h1) = >>=-eq-ok _ _ h in
      (
        record { registered = c; private_claims = private_claims },
        ground arith,
        refl,
        make_registered_claims-IsStamped subject now duration issuer audience draw c made,
      )
