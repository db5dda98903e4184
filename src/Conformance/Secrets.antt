-- ===== src/Conformance/Secrets.antt =====
-- The tests of `Secret` in src/token.rs.
use rowdy.Prelude.{Bool, true, false, ok, List, ℕ, ◌>>=◌, ◌>>◌, ◌≡◌}
use rowdy.Crates.Jwt.{JwsSecret}
use rowdy.Crates.World.{World}
use rowdy.Token.Config.{Secret, no_secret, byte_sequence, rsa_key_pair, text}
use rowdy.Token.Keys.{for_signing, for_verification}
use rowdy.Conformance.Harness.{Test, unwrap_token, assert}

-- `assert_matches_non_debug!`, by the variants.
is_none : JwsSecret → Bool
is_none JwsSecret.no_secret = true
is_none _ = false

is_bytes : JwsSecret → Bool
is_bytes (JwsSecret.bytes _) = true
is_bytes _ = false

is_rsa_key_pair : JwsSecret → Bool
is_rsa_key_pair (JwsSecret.rsa_key_pair _) = true
is_rsa_key_pair _ = false

is_public_key : JwsSecret → Bool
is_public_key (JwsSecret.public_key _) = true
is_public_key _ = false

abbrev key_word : Secret
key_word = byte_sequence (text "secret")

abbrev rsa : Secret
rsa = rsa_key_pair "test/fixtures/rsa_private_key.der" "test/fixtures/rsa_public_key.der"

module _ (w : World) where
  secrets_are_transformed_for_signing_correctly : Test (Unit {0})
  unfolding is_none is_bytes is_rsa_key_pair
  secrets_are_transformed_for_signing_correctly = do
    none ← unwrap_token (for_signing w no_secret)
    assert (is_none none)
    string ← unwrap_token (for_signing w key_word)
    assert (is_bytes string)
    pair ← unwrap_token (for_signing w rsa)
    assert (is_rsa_key_pair pair)

  secrets_are_transformed_for_verification_correctly : Test (Unit {0})
  unfolding is_none is_bytes is_public_key
  secrets_are_transformed_for_verification_correctly = do
    none ← unwrap_token (for_verification w no_secret)
    assert (is_none none)
    string ← unwrap_token (for_verification w key_word)
    assert (is_bytes string)
    key ← unwrap_token (for_verification w rsa)
    assert (is_public_key key)

  -- The fixtures are read as the two halves of a key pair.
  record HasFixtures : Type 0 where
    private_key : List ℕ
    private_is :
        w.rsa_keypair_from_file "test/fixtures/rsa_private_key.der"
        ≡ ok (JwsSecret.rsa_key_pair private_key)
    public_key : List ℕ
    public_is :
        w.public_key_from_file "test/fixtures/rsa_public_key.der"
        ≡ ok (JwsSecret.public_key public_key)

  module _ (files : HasFixtures) where
    secrets_are_transformed_for_signing_correctly-passes :
        secrets_are_transformed_for_signing_correctly ≡ ok tt
    unfolding secrets_are_transformed_for_signing_correctly for_signing
    secrets_are_transformed_for_signing_correctly-passes = simp (files.private_is)

    secrets_are_transformed_for_verification_correctly-passes :
        secrets_are_transformed_for_verification_correctly ≡ ok tt
    unfolding secrets_are_transformed_for_verification_correctly for_verification
    secrets_are_transformed_for_verification_correctly-passes = simp (files.public_is)
