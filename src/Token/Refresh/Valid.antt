-- ===== src/Token/Refresh/Valid.antt =====
-- What `RefreshToken::validate` accepts.
use rowdy.Prelude.{
  String, ◌+◌, ◌≤◌, ◌<◌, Option, some, ok, err, ◌≡◌, ◌↔◌, refl, ap, arith, >>=-eq-ok, map_err-eq-ok,
  true, false, contains, Bool, if◌then◌else◌, ok_or-eq-ok, ◌∙◌, is_subset, eq_iff, eq_refl,
  is_subset_refl,
}
use mathlib.Core.Option
use rowdy.Crates.Jwt.{
  Jwt, StringOrUri, SingleOrMultiple, iter, ClaimsSet, RegisteredClaims, decoded, JwsHeader,
  JweHeader, decrypted, DateTime, TemporalValidationOptions,
}
use rowdy.Crates.Jwt.Laws.{ChecksTimes, wire, whole_seconds}
use rowdy.Crates.World.{World, Duration}
use rowdy.Token.Config.{Configuration}
use rowdy.Token.Make.Shape.{IsStamped}
use rowdy.Token.Verify.{verify_service, verify_service_iff, verify_issuer, verify_audience}
use rowdy.Token.Refresh.{validate, claims_set, audience_contains, or_default}

-- The conditions under which the claims of a refresh token stand for a service.
pub record IsAcceptable (j : Jwt) (config : Configuration) (service : String)
    (options : Option TemporalValidationOptions) (now : DateTime) (c : RegisteredClaims)
    : Type 0 where
  pub service_text : StringOrUri
  pub service_parsed : j.parse service ≡ ok service_text
  pub service_allowed : contains (iter config.audience) service_text ≡ true
  pub audience : SingleOrMultiple
  pub audience_is : c.audience ≡ some audience
  pub audience_has : contains (iter audience) service_text ≡ true
  pub audience_allowed : is_subset (iter audience) (iter config.audience) ≡ true
  pub issuer_is : c.issuer ≡ some config.issuer
  pub in_time : j.validate_times c options now ≡ ok tt

-- `if b then ok tt else err e` answers for `b`.
guarded {ℓ} :
    {E : Type ℓ} (b : Bool) (e : E) → (if b then ok tt else err e) ≡ ok (tt {0}) → b ≡ true
guarded true e h = refl
guarded false e h = ground arith

module _ (j : Jwt) where
  audience_contains-eq-ok :
      (a : SingleOrMultiple) (service : String) {s : StringOrUri}
      → j.parse service ≡ ok s
      → audience_contains j a service ≡ ok tt
      → contains (iter a) s ≡ true
  unfolding audience_contains
  audience_contains-eq-ok a service p h = guarded _ _ (rw p at h)

  -- With the default options in place of none, a decrypted token whose claims are `c` validates
  -- exactly if the service is parsed to a text of the configured audience and of the token's,
  -- the token's audience is within the configured one, the issuer is the configured one, and the
  -- times are valid.
  pub validate_iff :
      (h : JweHeader) (g : JwsHeader) (c : ClaimsSet) (service : String) (config : Configuration)
      (options : Option TemporalValidationOptions) (now : DateTime)
      → (validate j (decrypted h (decoded g c)) service config options now ≡ ok tt)
        ↔ IsAcceptable j config service (or_default j options) now c.registered
  unfolding validate claims_set verify_audience verify_issuer
  validate_iff h g c service config options now = (from, to)
    where
      from :
          validate j (decrypted h (decoded g c)) service config options now ≡ ok tt
          → IsAcceptable j config service (or_default j options) now c.registered
      from e =
          let (i, issued, e1) = >>=-eq-ok _ _ e in
          let (a, audience, e2) = >>=-eq-ok _ _ e1 in
          let (_, served, e3) = >>=-eq-ok _ _ e2 in
          let (_, heard, e4) = >>=-eq-ok _ _ e3 in
          let (_, allowed, e5) = >>=-eq-ok _ _ e4 in
          let (_, named, timed) = >>=-eq-ok _ _ e5 in
          let (s, parsed, listed) = (verify_service_iff j config service).0 served in
          record {
            service_text = s;
            service_parsed = parsed;
            service_allowed = listed;
            audience = a;
            audience_is = ok_or-eq-ok _ _ audience;
            audience_has = audience_contains-eq-ok a service parsed heard;
            audience_allowed = guarded _ _ allowed;
            issuer_is =
                ok_or-eq-ok _ _ issued ∙ ap some ((eq_iff i config.issuer).0 (guarded _ _ named));
            in_time = map_err-eq-ok _ _ timed;
          }

      to :
          IsAcceptable j config service (or_default j options) now c.registered
          → validate j (decrypted h (decoded g c)) service config options now ≡ ok tt
      to a = simp (
        a.issuer_is,
        a.audience_is,
        (verify_service_iff j config service).1
            (a.service_text, a.service_parsed, a.service_allowed),
        audience_contains,
        a.service_parsed,
        a.audience_has,
        a.audience_allowed,
        eq_refl config.issuer,
        a.in_time,
      )

  -- Claims stamped from the configuration are acceptable once they were written and read back:
  -- for a service that the configuration allows, from the time of issue on and before the expiry
  -- in whole seconds.
  pub wire-IsAcceptable :
      (w : World) (subject : String) (issued now : DateTime) (duration : Duration)
      (config : Configuration) (service : String) (options : Option TemporalValidationOptions)
      (c : ClaimsSet)
      → ChecksTimes j
      → (stamp : IsStamped j w subject issued duration config.issuer config.audience c.registered)
      → verify_service j config service ≡ ok tt
      → issued ≤ now
      → now < whole_seconds (issued + stamp.lasts)
      → IsAcceptable j config service options now (wire c).registered
  wire-IsAcceptable w subject issued now duration config service options c times stamp served since
        before =
      let (s, parsed, listed) = (verify_service_iff j config service).0 served in
      record {
        service_text = s;
        service_parsed = parsed;
        service_allowed = listed;
        audience = config.audience;
        audience_is = stamp.audience_is;
        audience_has = listed;
        audience_allowed = is_subset_refl (iter config.audience);
        issuer_is = stamp.issuer_is;
        in_time =
            times.accepts (wire c).registered options (whole_seconds issued) (whole_seconds issued)
              (whole_seconds (issued + stamp.lasts)) now
              (ap (Option.map whole_seconds) stamp.issued_at_is)
              (ap (Option.map whole_seconds) stamp.not_before_is)
              (ap (Option.map whole_seconds) stamp.expiry_is) (omega arith) (omega arith) before;
      }
