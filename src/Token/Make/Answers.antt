-- ===== src/Token/Make/Answers.antt =====
-- When `make_token` makes a token (src/token.rs).
use rowdy.Prelude.{String, ℕ, ◌+◌, ◌≤◌, List, Option, some, ok, ◌≡◌, refl, arith, Answers}
use rowdy.Crates.{JsonValue}
use rowdy.Crates.Jwt.{Jwt, StringOrUri, SingleOrMultiple, SignatureAlgorithm, DateTime}
use rowdy.Crates.World.{World, Duration}
use rowdy.Token.Make.{make_token, make_registered_claims, expires, make_uuid}

-- The draw of random bytes becomes a UUID.
pub record Draws (w : World) (draw : ℕ) : Type 0 where
  pub bytes : List ℕ
  pub filled : w.fill draw 16 ≡ some bytes
  pub uuid : List ℕ
  pub read : w.uuid_from_bytes bytes ≡ ok uuid

-- The duration is converted, and ends by the last date.
pub record Lasts (w : World) (now : DateTime) (duration : Duration) : Type 0 where
  pub lasts : ℕ
  pub lasts_from : w.chrono_from_std duration ≡ ok lasts
  pub dated : now + lasts ≤ w.last_date

module _ (j : Jwt) (w : World) where
  make_uuid-Answers : (draw : ℕ) → Draws w draw → Answers (make_uuid j w draw)
  unfolding make_uuid
  make_uuid-Answers draw d = (w.urn d.uuid, rw d.filled (rw d.read refl))

  expires-Answers : (now d : ℕ) → now + d ≤ w.last_date → Answers (expires j w now d)
  unfolding expires
  expires-Answers now d h = (now + d, ground arith)

  pub make_token-Answers :
      (subject : String) (issuer : StringOrUri) (audience : SingleOrMultiple) (duration : Duration)
      (private_claims : JsonValue) (algorithm : Option SignatureAlgorithm) (now : DateTime)
      (draw : ℕ)
      → Answers (j.parse subject)
      → Lasts w now duration
      → Draws w draw
      → Answers (make_token j w subject issuer audience duration private_claims algorithm now draw)
  unfolding make_token make_registered_claims
  make_token-Answers subject issuer audience duration private_claims algorithm now draw
        (text, parsed) lasts draws =
      let (expiry, expiring) = expires-Answers now lasts.lasts lasts.dated in
      let (id, drawn) = make_uuid-Answers draw draws in
      rw lasts.lasts_from (rw parsed (rw expiring (rw drawn (_, refl))))
