-- ===== src/Routes/Algorithm.antt =====
-- Refresh tokens where no signature algorithm is configured.
use rowdy.Prelude.{
  String, none, some, ok, ◌≡◌, ◌≢◌, subst, unwrap_or, >>=-eq-ok, map_err-eq-ok, lift,
}
use rowdy.Crates.Jwt.{SignatureAlgorithm, DateTime, Jwk, encrypted}
use rowdy.Crates.Jwt.Laws.{Verifies, Decrypts, ChecksAlgorithm}
use rowdy.Auth.Header
use rowdy.Auth.Header.{Basic, Bearer}
use rowdy.Token.Config
use rowdy.Token.Config.{Configuration, RefreshTokenConfiguration, refresh_token_enabled}
use rowdy.Token.Make.{make_header}
use rowdy.Token.Refresh.{RefreshToken, encrypt, decrypt}
use rowdy.Token.Refresh.Opens.{decrypt-refuses}
use rowdy.Token.Access.{Token}
use rowdy.Token.Access.Shape.{jwe_header}
use rowdy.Routes.{Server, AuthParam, token_getter, refresh_token, verify}
use rowdy.Routes.Flow.{issue_refresh}
use rowdy.Routes.Redeem.{token_getter-eq-ok}

-- A token that the refresh route makes comes from a token that was decrypted.
refresh_token-decrypts :
    (s : Server) (now : DateTime) (text : String) (param : AuthParam) (t : Token)
    (x : RefreshTokenConfiguration) (unlock : Jwk)
    → s.configuration.refresh_token ≡ some x
    → s.keys.decryption ≡ some unlock
    → refresh_token s now (record { token = text }) param ≡ ok t
    → (d : RefreshToken) × (decrypt s.jwt
          (encrypted text)
          s.keys.signature_verification
          unlock
          (unwrap_or s.configuration.signature_algorithm s.jwt.default_algorithm)
          x.cek_algorithm
          x.enc_algorithm
        ≡ ok d)
unfolding refresh_token refresh_token_enabled Config.refresh_token Header.token
refresh_token-decrypts s now text param t x unlock on key h =
    let (_, verified, h1) = >>=-eq-ok (lift (verify s.bearer param)) _ (rw (on, key) at h) in
    let (d, opened, h2) = >>=-eq-ok _ _ h1 in (d, map_err-eq-ok _ _ opened)

module _ (s : Server) (signed : Verifies s.jwt s.keys.signing s.keys.signature_verification)
    (checked : ChecksAlgorithm s.jwt s.keys.signing s.keys.signature_verification)
    {lock unlock : Jwk} (lock_is : s.keys.encryption ≡ some lock)
    (unlock_is : s.keys.decryption ≡ some unlock) (sealed : Decrypts s.jwt lock unlock)
    (unset : s.configuration.signature_algorithm ≡ none)
    (differs : s.jwt.default_algorithm ≢ SignatureAlgorithm.none) where
  -- Where no signature algorithm is configured, so that tokens are signed with `none`, and the
  -- token crate's default algorithm is another, a refresh token that the first route gives out is
  -- never accepted by the second, at any time and with any parameters. Both keys for refresh
  -- tokens are set, and what is signed and encrypted with the server's keys is read back, under
  -- the algorithm of its header only.
  pub refresh_token-unsigned :
      (issued : DateTime) (user : Basic) (param : AuthParam) (t : Token) (text : String)
      (later : DateTime) (param' : AuthParam) (t' : Token)
      → token_getter s issued user param ≡ ok t
      → t.refresh_token ≡ some (encrypted text)
      → refresh_token s later (record { token = text }) param' ≢ ok t'
  unfolding make_header
  refresh_token-unsigned issued user param t text later param' t' h has e =
      let (result, prepared, made) = token_getter-eq-ok s issued user param t h in
      let (p, given, served, r', locked, f) =
        issue_refresh s issued param result t (encrypted text) lock lock_is made has in
      let locked' =
        subst (λ x. encrypt s.jwt x s.keys.signing lock ≡ ok (encrypted text)) f.token_is locked in
      let (text', is_text, never) =
        decrypt-refuses s.jwt signed sealed checked (jwe_header f.refresh)
          (make_header s.jwt s.world s.configuration.signature_algorithm) f.claims (encrypted text)
          (unwrap_or s.configuration.signature_algorithm s.jwt.default_algorithm) locked'
          (rw unset differs) in
      let (d, opened) =
        refresh_token-decrypts s later text param' t' f.refresh unlock f.refresh_is unlock_is e in
      never d (
        subst
          (λ x.
            decrypt s.jwt x s.keys.signature_verification unlock
              (unwrap_or s.configuration.signature_algorithm s.jwt.default_algorithm)
              f.refresh.cek_algorithm f.refresh.enc_algorithm
            ≡ ok d)
          is_text opened)
