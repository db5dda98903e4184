-- ===== src/Token/Refresh/Closed.antt =====
-- The form of what `RefreshToken::encrypt` gives (src/token.rs).
use rowdy.Prelude.{Option, none, some, ok, ◌≡◌, arith, >>=-eq-ok, map_err-eq-ok}
use rowdy.Crates.Jwt.{Jwt, JwsSecret, Jwk, encrypted, decrypted}
use rowdy.Crates.Jwt.Laws.{Seals}
use rowdy.Token.Refresh.{RefreshToken, encrypt, from_jwt}

abbrev pub IsClosed : Option RefreshToken → Type 0
IsClosed none = Unit
IsClosed (some (encrypted text)) = Unit
IsClosed (some (decrypted h p)) = ⊥

pub encrypt-IsClosed :
    (j : Jwt)
    → Seals j
    → (r r' : RefreshToken) (k : JwsSecret) (key : Jwk) → encrypt j r k key ≡ ok r'
    → IsClosed (some r')
unfolding encrypt
encrypt-IsClosed j seals (encrypted text) r' k key h = absurd (ground arith)
encrypt-IsClosed j seals (decrypted g p) r' k key h =
    let (jws, signing, locking) = >>=-eq-ok (from_jwt j (j.into_encoded p k)) _ h in
    let (text, is_text) =
      seals.encrypts (decrypted g jws) r' key (map_err-eq-ok _ _ (map_err-eq-ok _ _ locking)) in
    rw is_text tt
