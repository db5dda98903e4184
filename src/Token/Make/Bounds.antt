-- ===== src/Token/Make/Bounds.antt =====
-- The overflow of the date of expiry in `make_token` (src/token.rs).
use rowdy.Prelude.{
  String, ℕ, ◌+◌, ◌≤◌, ◌<◌, Option, Result, ok, err, ◌≡◌, ◌↔◌, arith, subst, panic, Result-cases,
  inl, inr, NeverPanics,
}
use rowdy.Crates.{JsonValue, ForeignError}
use rowdy.Crates.Jwt.{Jwt, StringOrUri, SingleOrMultiple, SignatureAlgorithm, DateTime}
use rowdy.Crates.World.{World, Duration}
use rowdy.Token.Make.{make_token}

-- A duration that is converted ends by the last date.
abbrev pub Ends : ℕ → DateTime → Result ForeignError ℕ → Type 0
Ends last now (ok d) = now + d ≤ last
Ends last now (err e) = Unit

abbrev pub Fits : World → DateTime → Duration → Type 0
Fits w now duration = Ends w.last_date now (w.chrono_from_std duration)

module _ (j : Jwt) (w : World) where
  -- The three steps on the way to an overflow.
  pub record Overflows (subject : String) (now : DateTime) (duration : Duration) : Type 0 where
    pub lasts : ℕ
    pub lasts_from : w.chrono_from_std duration ≡ ok lasts
    pub subject_text : StringOrUri
    pub subject_parsed : j.parse subject ≡ ok subject_text
    pub too_late : w.last_date < now + lasts

  -- A token is made with a panic exactly where the duration and the subject are converted, and the
  -- expiry is past the last date.
  pub make_token_panics_iff :
      (subject : String) (issuer : StringOrUri) (audience : SingleOrMultiple) (duration : Duration)
      (private_claims : JsonValue) (algorithm : Option SignatureAlgorithm) (now : DateTime)
      (draw : ℕ)
      → (make_token j w subject issuer audience duration private_claims algorithm now draw
          ≡ err panic)
        ↔ Overflows subject now duration
  unfolding make_token
  make_token_panics_iff subject issuer audience duration private_claims algorithm now draw =
      (from, to)
    where
      from :
          make_token j w subject issuer audience duration private_claims algorithm now draw
            ≡ err panic
          → Overflows subject now duration
      from h = elim (Result-cases (w.chrono_from_std duration)) [
        | inr (e, no_duration) ↦ absurd (ground arith)
        | inl (d, lasts) ↦ elim (Result-cases (j.parse subject)) [
          | inr (e, no_subject) ↦ absurd (ground arith)
          | inl (s, parsed) ↦ record {
            lasts = d;
            lasts_from = lasts;
            subject_text = s;
            subject_parsed = parsed;
            too_late = ground arith;
          }
        ]
      ]

      to :
          Overflows subject now duration
          → make_token j w subject issuer audience duration private_claims algorithm now draw
            ≡ err panic
      to o = rw o.lasts_from (rw o.subject_parsed (ground (arith, o.too_late)))

  pub NeverPanics-make_token :
      (subject : String) (issuer : StringOrUri) (audience : SingleOrMultiple) (duration : Duration)
      (private_claims : JsonValue) (algorithm : Option SignatureAlgorithm) (now : DateTime)
      (draw : ℕ)
      → Fits w now duration
      → NeverPanics
          (make_token j w subject issuer audience duration private_claims algorithm now draw)
  NeverPanics-make_token subject issuer audience duration private_claims algorithm now draw fits =
      record {
        calm = λ h.
            let o =
              (make_token_panics_iff subject issuer audience duration private_claims algorithm now
                  draw).0
                h in
            omega (arith, o.too_late, subst (Ends w.last_date now) o.lasts_from fits);
      }
