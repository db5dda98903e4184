-- ===== src/Conformance/Fixtures.antt =====
-- The fixtures of the tests of src/token.rs, over a token crate and a world.
use rowdy.Prelude.{
  ℕ, zero, suc, ◌+◌, ◌≤◌, String, Bool, true, false, Option, none, some, ok, ◌>>=◌, map_err, List,
  [], leb, arith, ◌∷◌, ◌≡◌,
}
use rowdy.Crates.{JsonValue, object, end, string, json_insert}
use rowdy.Crates.Jwt.{
  Jwt, StringOrUri, single, DateTime, RegisteredClaims, SignatureAlgorithm, decoded, decrypted,
  JweHeader,
}
use rowdy.Crates.World.{World, Duration}
use rowdy.Token.Config.{Configuration, RefreshTokenConfiguration, byte_sequence, bytes, text, these}
use rowdy.Token.Make.{make_token, make_header}
use rowdy.Token.Refresh.{RefreshToken, new_decrypted}
use rowdy.Conformance.Harness.{Test, elsewhere, unwrap_error}

abbrev zeros : ℕ → List ℕ
zeros zero = []
zeros (suc n) = 0 ∷ zeros n

-- `[0; 256 / 8]`.
abbrev pub key_bytes : List ℕ
key_bytes = zeros 32

abbrev pub two_minutes : Duration
two_minutes = record { secs = 120; nanos = 0 }

unfoldable pub refresh_token_payload : JsonValue
refresh_token_payload = object (json_insert "test" (string "foobar") end)

abbrev pub refresh_configuration : Bool → Option RefreshTokenConfiguration
refresh_configuration true = some (record {
  cek_algorithm = "A256GCMKW";
  enc_algorithm = "A256GCM";
  key = byte_sequence (bytes key_bytes);
  expiry_duration = record { secs = 86400; nanos = 0 };
})
refresh_configuration false = none

module _ (j : Jwt) where
  -- `FromStr::from_str(text).unwrap()`.
  abbrev pub from_str : String → Test StringOrUri
  from_str s = map_err (λ e. elsewhere) (j.parse s)

  unfoldable pub make_config : Bool → Test Configuration
  make_config refresh_token = do
    issuer ← from_str "https://www.acme.com"
    audience ← from_str "https://www.example.com/"
    ok (record {
      issuer = issuer;
      allowed_origins = these ("https://www.example.com" ∷ []);
      audience = single audience;
      signature_algorithm = some SignatureAlgorithm.hs512;
      secret = byte_sequence (text "secret");
      expiry_duration = two_minutes;
      refresh_token = refresh_configuration refresh_token;
    })

  -- The clock reads `issued`.
  unfoldable pub make_refresh_token : World → DateTime → Test RefreshToken
  make_refresh_token w issued = do
    issuer ← from_str "https://www.acme.com"
    audience ← from_str "https://www.example.com"
    unwrap_error (
        new_decrypted j w "foobar" issuer (single audience) two_minutes refresh_token_payload
          (some j.default_algorithm) "A256GCMKW" "A256GCM" issued 0)

  -- What the tests rely on of the parser: a URL without a path gets the path `/`.
  pub record Normalises : Type 0 where
    pub acme : j.parse "https://www.acme.com" ≡ ok "https://www.acme.com/"
    pub example : j.parse "https://www.example.com" ≡ ok "https://www.example.com/"
    pub example_path : j.parse "https://www.example.com/" ≡ ok "https://www.example.com/"
    pub invalid : j.parse "https://www.invalid.com/" ≡ ok "https://www.invalid.com/"
    pub subject : j.parse "foobar" ≡ ok "foobar"

-- A world in which a token of two minutes can be made at a time.
pub record Serves (w : World) (issued : DateTime) : Type 0 where
  pub random : List ℕ
  pub filled : w.fill 0 16 ≡ some random
  pub uuid : List ℕ
  pub uuid_is : w.uuid_from_bytes random ≡ ok uuid
  pub lasts : w.chrono_from_std two_minutes ≡ ok 120000000000
  pub dated : issued + 120000000000 ≤ w.last_date

-- What the two fixtures come to.
abbrev pub config_value : Bool → Configuration
config_value refresh_token = record {
  issuer = "https://www.acme.com/";
  allowed_origins = these ("https://www.example.com" ∷ []);
  audience = single "https://www.example.com/";
  signature_algorithm = some SignatureAlgorithm.hs512;
  secret = byte_sequence (text "secret");
  expiry_duration = two_minutes;
  refresh_token = refresh_configuration refresh_token;
}

abbrev pub claims_value : DateTime → String → RegisteredClaims
claims_value issued id = record {
  issuer = some "https://www.acme.com/";
  subject = some "foobar";
  audience = some (single "https://www.example.com/");
  issued_at = some issued;
  not_before = some issued;
  expiry = some (issued + 120000000000);
  id = some id;
}

abbrev pub refresh_header : JweHeader
refresh_header = record {
  cek_algorithm = "A256GCMKW";
  enc_algorithm = "A256GCM";
  media_type = some "JOSE";
  content_type = some "JOSE";
}

abbrev pub refresh_value : SignatureAlgorithm → RegisteredClaims → RefreshToken
refresh_value a c = decrypted refresh_header (
    decoded (record { algorithm = a })
      (record { registered = c; private_claims = refresh_token_payload }))

module _ (j : Jwt) (urls : Normalises j) where
  pub make_config-value : (b : Bool) → make_config j b ≡ ok (config_value b)
  unfolding make_config
  make_config-value b = simp (urls.acme, urls.example_path)

  pub make_refresh_token-value :
      (w : World) (issued : DateTime) (s : Serves w issued)
      → make_refresh_token j w issued
        ≡ ok (refresh_value j.default_algorithm (claims_value issued (w.urn s.uuid)))
  unfolding make_refresh_token new_decrypted make_token make_header
  make_refresh_token-value w issued s =
      let dated : leb (issued + 120000000000) w.last_date ≡ true = ground (arith, s.dated) in
      simp (urls.acme, urls.example, urls.subject, s.lasts, s.filled, s.uuid_is, dated)
