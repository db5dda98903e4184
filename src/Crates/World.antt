-- ===== src/Crates/World.antt =====
-- What a run reads of the operating system and of the small crates.
use rowdy.Prelude.{String, ℕ, List, Option, Result}
use rowdy.Crates.Errors.{ForeignError, JwtError}
use rowdy.Crates.Jwt.{JwsSecret}

-- `Duration` of the standard library.
pub record Duration : Type 0 where
  pub secs : ℕ
  pub nanos : ℕ

-- `fill draw n` is the draw of that number within a request, `n` bytes or a failure. A
-- `chrono::Duration` is its nanoseconds, and `last_date` the last `DateTime<Utc>`.
pub record World : Type 0 where
  pub fill : ℕ → ℕ → Option (List ℕ)
  pub uuid_from_bytes : List ℕ → Result ForeignError (List ℕ)
  pub urn : List ℕ → String
  pub last_date : ℕ
  pub chrono_from_std : Duration → Result ForeignError ℕ
  pub read_file : String → Result ForeignError (List ℕ)
  pub rsa_keypair_from_file : String → Result JwtError JwsSecret
  pub public_key_from_file : String → Result JwtError JwsSecret
