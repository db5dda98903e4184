-- ===== src/Token/Access/Sealed.antt =====
-- Tokens as a client may see them: encoded, with an encrypted refresh token or none (src/token.rs).
use rowdy.Prelude.{
  String, some, ok, Result, ◌≡◌, refl, lift, ok_or, arith, >>=-eq-ok, map_err-eq-ok, [], ◌∷◌,
}
use rowdy.Crates.{ForeignError, ok_status}
use rowdy.Crates.Jwt.{Jwt, Jws, JwsSecret, Jwk, encoded, decoded}
use rowdy.Crates.Jwt.Laws.{Seals}
use rowdy.Error.Token.{no_refresh_token}
use rowdy.Token.Refresh.{encrypt}
use rowdy.Token.Refresh.Closed.{IsClosed, encrypt-IsClosed}
use rowdy.Token.Access.{Token, encode, encode_jws, encrypt_refresh_token, respond_to}

abbrev pub IsSigned : Jws → Type 0
IsSigned (encoded text) = Unit
IsSigned (decoded h c) = ⊥

pub record IsSealed (t : Token) : Type 0 where
  pub signed : IsSigned t.token
  pub closed : IsClosed t.refresh_token

module _ (j : Jwt) (seals : Seals j) where
  encode_jws-IsSigned : (y x : Jws) (k : JwsSecret) → encode_jws j y k ≡ ok x → IsSigned x
  unfolding encode_jws
  encode_jws-IsSigned (encoded s) x k e = absurd (ground arith)
  encode_jws-IsSigned (decoded g c) x k e =
      let (text, is_text) = seals.encodes (decoded g c) x k (map_err-eq-ok _ _ e) in rw is_text tt

  pub encode-IsSigned : (t t' : Token) (k : JwsSecret) → encode j t k ≡ ok t' → IsSigned t'.token
  unfolding encode
  encode-IsSigned t t' k h =
      let (x, coding, made) = >>=-eq-ok (encode_jws j t.token k) _ h in
      let same : t'.token ≡ x = ground arith in rw same (encode_jws-IsSigned t.token x k coding)

  pub encrypt_refresh_token-IsSealed :
      (t t' : Token) (k : JwsSecret) (key : Jwk)
      → IsSigned t.token
      → encrypt_refresh_token j t k key ≡ ok t'
      → IsSealed t'
  unfolding encrypt_refresh_token
  encrypt_refresh_token-IsSealed t t' k key signed h =
      let (r, had, h1) = >>=-eq-ok (lift (ok_or no_refresh_token t.refresh_token)) _ h in
      let (r', locked, made) = >>=-eq-ok (encrypt j r k key) _ h1 in
      let same : t'.token ≡ t.token = ground arith in
      let closed : t'.refresh_token ≡ some r' = ground arith in
      record {
        signed = rw same signed;
        closed = rw closed (encrypt-IsClosed j seals r r' k key locked);
      }

-- A sealed token is answered with status 200 and its JSON text, if it has one.
pub IsSealed-respond_to :
    (to_json : Token → Result ForeignError String) (t : Token) (json : String)
    → IsSealed t
    → to_json t ≡ ok json
    → respond_to to_json t
      ≡ ok (record {
        status = ok_status;
        headers = ("Content-Type", "application/json") ∷ [];
        body = some json;
      })
unfolding respond_to
IsSealed-respond_to to_json t json sealed h = signed_answer t.token sealed.signed refl
  where
    signed_answer :
        (x : Jws)
        → IsSigned x
        → t.token ≡ x
        → respond_to to_json t
          ≡ ok (record {
            status = ok_status;
            headers = ("Content-Type", "application/json") ∷ [];
            body = some json;
          })
    signed_answer (encoded text) signed same = rw h (ground arith)
    signed_answer (decoded g c) signed same = absurd signed
