-- ===== src/Token/Keys/Laws.antt =====
-- The keys of `Configuration::keys` (src/token.rs) among themselves.
use rowdy.Prelude.{
  none, some, ok, ◌≡◌, arith, >>=-eq-ok, lift, Option-cases, inl, inr, NeverPanics, NeverPanics-ok,
  NeverPanics-lift, NeverPanics-bind, NeverPanics-unwrap, unwrap, Bool, true, false, refl,
}
use rowdy.Crates.Jwt.{Jwk}
use rowdy.Crates.World.{World}
use rowdy.Token.Config
use rowdy.Token.Config.{Configuration, RefreshTokenConfiguration, Secret, refresh_token_enabled}
use rowdy.Token.Keys.{
  Keys, keys, encryption_keys, for_encryption, for_decryption, for_signing, for_verification,
}

-- Both halves of a key pair for refresh tokens.
abbrev pub HasOneKey : Keys → Type 0
HasOneKey k = (key : Jwk) × (k.encryption ≡ some key) × (k.decryption ≡ some key)

module _ (w : World) where
  -- Where refresh tokens are configured, keys that are made have an encryption key, and the
  -- decryption key is the same one.
  pub keys-HasOneKey :
      (config : Configuration) (refresh : RefreshTokenConfiguration) (k : Keys)
      → config.refresh_token ≡ some refresh
      → keys w config ≡ ok k
      → HasOneKey k
  unfolding keys encryption_keys Config.refresh_token for_decryption refresh_token_enabled
  keys-HasOneKey config refresh k on h =
      let (pair, both, h1) =
        >>=-eq-ok (encryption_keys w config (refresh_token_enabled config)) _ h in
      let (signing, s, h2) = >>=-eq-ok (lift (for_signing w config.secret)) _ h1 in
      let (verification, v, h3) = >>=-eq-ok (lift (for_verification w config.secret)) _ h2 in
      let (x, e, h4) = >>=-eq-ok (lift (for_encryption w refresh.key)) _ (rw on at both) in
      (x, ground arith, ground arith)

NeverPanics-encryption_keys :
    (w : World) (config : Configuration) (b : Bool)
    → (b ≡ true → (x : RefreshTokenConfiguration) × (config.refresh_token ≡ some x))
    → NeverPanics (encryption_keys w config b)
unfolding encryption_keys Config.refresh_token
NeverPanics-encryption_keys w config false on = NeverPanics-ok (none, none)
NeverPanics-encryption_keys w config true on =
    let (x, has) = on refl in
    NeverPanics-bind (unwrap config.refresh_token) _ (NeverPanics-unwrap config.refresh_token has)
      (λ r _. NeverPanics-bind (lift (for_encryption w r.key)) _ (NeverPanics-lift _) (λ e _.
        NeverPanics-bind (lift (for_decryption w r.key)) _ (NeverPanics-lift _)
          (λ d _. NeverPanics-ok _)))

is_some-true :
    (config : Configuration)
    → refresh_token_enabled config ≡ true
    → (x : RefreshTokenConfiguration) × (config.refresh_token ≡ some x)
unfolding refresh_token_enabled
is_some-true config h = elim (Option-cases config.refresh_token) [
  | inl off ↦ absurd (ground arith)
  | inr found ↦ found
]

-- The keys are made without a panic: the refresh token configuration is looked at only where there
-- is one.
pub NeverPanics-keys : (w : World) (config : Configuration) → NeverPanics (keys w config)
unfolding keys
NeverPanics-keys w config =
    NeverPanics-bind (encryption_keys w config (refresh_token_enabled config)) _
      (NeverPanics-encryption_keys w config (refresh_token_enabled config) (is_some-true config))
      (λ pair _.
        NeverPanics-bind (lift (for_signing w config.secret)) _ (NeverPanics-lift _) (λ k _.
          NeverPanics-bind (lift (for_verification w config.secret)) _ (NeverPanics-lift _)
            (λ v _. NeverPanics-ok _)))
