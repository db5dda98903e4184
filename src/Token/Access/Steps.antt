-- ===== src/Token/Access/Steps.antt =====
-- The life of a `Token`: its four operations as steps (src/token.rs), in any order.
use mathlib.Core.Option
use rowdy.Prelude.{
  String, ℕ, Option, none, some, ok, ◌≡◌, ◌⊎◌, inl, inr, refl, sym, ap, ◌∙◌, subst, arith,
  >>=-eq-ok, map_err-eq-ok, is_some, lift, ok_or, ok_or-eq-ok,
}
use rowdy.Crates.Jwt.{
  Jwt, JwsSecret, Jwk, Jws, JwsHeader, ClaimsSet, decoded, encoded, SignatureAlgorithm,
  KeyManagementAlgorithm, ContentEncryptionAlgorithm,
}
use rowdy.Crates.Jwt.Laws.{Verifies, ChecksAlgorithm, wire, whole_seconds}
use rowdy.Error.Token.{no_refresh_token}
use rowdy.Token.Refresh.{encrypt, decrypt}
use rowdy.Token.Access.{
  Token, encode, decode, encode_jws, decode_jws, encrypt_refresh_token, decrypt_refresh_token,
}

SignatureAlgorithm-discrete : Discrete SignatureAlgorithm
SignatureAlgorithm-discrete = hlevel

module _ (j : Jwt) (sign check : JwsSecret) (lock unlock : Jwk) where
  pub data Step (t t' : Token) : Type 0 where
    encodes : encode j t sign ≡ ok t' → Step t t'
    decodes : (a : SignatureAlgorithm) → decode j t check a ≡ ok t' → Step t t'
    encrypts : encrypt_refresh_token j t sign lock ≡ ok t' → Step t t'
    decrypts :
        (a : SignatureAlgorithm) (cek : KeyManagementAlgorithm) (enc : ContentEncryptionAlgorithm)
        → decrypt_refresh_token j t check unlock a cek enc ≡ ok t'
        → Step t t'

  pub data Steps (t : Token) : Token → Type 0 where
    here : Steps t t
    next : {u v : Token} → Steps t u → Step u v → Steps t v

  -- Claims as they were, or once written and read back.
  abbrev pub Reads : ClaimsSet → ClaimsSet → Type 0
  Reads c c' = (c' ≡ c) ⊎ (c' ≡ wire c)

  -- A JWS that stands for a header and claims: open, or signed from them.
  pub data Carries (h : JwsHeader) (c : ClaimsSet) (x : Jws) : Type 0 where
    open_claims : (c' : ClaimsSet) → Reads c c' → x ≡ decoded h c' → Carries h c x
    signed_claims :
        (c' : ClaimsSet) (text : String)
        → Reads c c'
        → x ≡ encoded text
        → j.into_encoded (decoded h c') sign ≡ ok (encoded text)
        → Carries h c x

  -- What a token keeps of the one that it comes from.
  pub record Keeps (h : JwsHeader) (c : ClaimsSet) (t t' : Token) : Type 0 where
    pub carries : Carries h c t'.token
    pub expires_in_same : t'.expires_in ≡ t.expires_in
    pub issued_at_same : t'.issued_at ≡ t.issued_at
    pub refresh_same : is_some t'.refresh_token ≡ is_some t.refresh_token

  whole_seconds_twice : (n : ℕ) → whole_seconds (whole_seconds n) ≡ whole_seconds n
  whole_seconds_twice n = omega arith

  whole_option :
      (o : Option ℕ)
      → Option.map whole_seconds (Option.map whole_seconds o) ≡ Option.map whole_seconds o
  whole_option none = refl
  whole_option (some n) = ap some (whole_seconds_twice n)

  wire-wire : (c : ClaimsSet) → wire (wire c) ≡ wire c
  wire-wire c = rw (
    whole_option c.registered.issued_at,
    whole_option c.registered.not_before,
    whole_option c.registered.expiry,
  )

  Reads-wire : (c c' : ClaimsSet) → Reads c c' → Reads c (wire c')
  Reads-wire c c' (inl e) = inr (ap wire e)
  Reads-wire c c' (inr e) = inr (ap wire e ∙ wire-wire c)

  module _ (verifies : Verifies j sign check) (checked : ChecksAlgorithm j sign check) where
    encode_jws-Carries :
        (h : JwsHeader) (c : ClaimsSet) (x x' : Jws)
        → Carries h c x
        → encode_jws j x sign ≡ ok x'
        → Carries h c x'
    unfolding encode_jws
    encode_jws-Carries h c x x' (open_claims c' reads is) e =
        let e' = map_err-eq-ok _ _ (subst (λ y. encode_jws j y sign ≡ ok x') is e) in
        let (text, is_text, back) = verifies.signs h c' x' e' in
        signed_claims c' text reads is_text (e' ∙ ap ok is_text)
    encode_jws-Carries h c x x' (signed_claims c' text reads is made) e = absurd (ground arith)

    decoded_as :
        (h : JwsHeader) (c c' : ClaimsSet) (text : String) (a : SignatureAlgorithm) (x' : Jws)
        → Reads c c'
        → j.into_encoded (decoded h c') sign ≡ ok (encoded text)
        → j.into_decoded (encoded text) check a ≡ ok x'
        → Dec (a ≡ h.algorithm)
        → Carries h c x'
    decoded_as h c c' text a x' reads made e (no differs) =
        absurd (ground (arith, checked.refuses h c' text a made differs))
    decoded_as h c c' text a x' reads made e (yes same) =
        let (text', is_text, back) = verifies.signs h c' (encoded text) made in
        open_claims (wire c') (Reads-wire c c' reads) (ground arith)

    decode_jws-Carries :
        (h : JwsHeader) (c : ClaimsSet) (a : SignatureAlgorithm) (x x' : Jws)
        → Carries h c x
        → decode_jws j x check a ≡ ok x'
        → Carries h c x'
    unfolding decode_jws
    decode_jws-Carries h c a x x' (open_claims c' reads is) e = absurd (ground arith)
    decode_jws-Carries h c a x x' (signed_claims c' text reads is made) e =
        decoded_as h c c' text a x' reads made
          (map_err-eq-ok _ _ (subst (λ y. decode_jws j y check a ≡ ok x') is e))
          (SignatureAlgorithm-discrete a h.algorithm)

    -- One operation.
    Step-Keeps :
        (h : JwsHeader) (c : ClaimsSet) (t u v : Token) → Keeps h c t u → Step u v → Keeps h c t v
    unfolding encode decode encrypt_refresh_token decrypt_refresh_token
    Step-Keeps h c t u v k (encodes e) =
        let (x, coding, made) = >>=-eq-ok (encode_jws j u.token sign) _ e in
        let is_x : v.token ≡ x = ground arith in
        record {
          carries =
              subst (Carries h c) (sym is_x) (encode_jws-Carries h c u.token x k.carries coding);
          expires_in_same = ground arith;
          issued_at_same = ground arith;
          refresh_same = ground arith;
        }
    Step-Keeps h c t u v k (decodes a e) =
        let (x, coding, made) = >>=-eq-ok (decode_jws j u.token check a) _ e in
        let is_x : v.token ≡ x = ground arith in
        record {
          carries =
              subst (Carries h c) (sym is_x) (decode_jws-Carries h c a u.token x k.carries coding);
          expires_in_same = ground arith;
          issued_at_same = ground arith;
          refresh_same = ground arith;
        }
    Step-Keeps h c t u v k (encrypts e) =
        let (r, had, e1) = >>=-eq-ok (lift (ok_or no_refresh_token u.refresh_token)) _ e in
        let (r', locked, made) = >>=-eq-ok (encrypt j r sign lock) _ e1 in
        let has = ok_or-eq-ok _ _ (map_err-eq-ok _ _ had) in
        let is_same : v.token ≡ u.token = ground arith in
        record {
          carries = subst (Carries h c) (sym is_same) k.carries;
          expires_in_same = ground arith;
          issued_at_same = ground arith;
          refresh_same = ground arith;
        }
    Step-Keeps h c t u v k (decrypts a cek enc e) =
        let (r, had, e1) = >>=-eq-ok (lift (ok_or no_refresh_token u.refresh_token)) _ e in
        let (r', opened, made) = >>=-eq-ok (decrypt j r check unlock a cek enc) _ e1 in
        let has = ok_or-eq-ok _ _ (map_err-eq-ok _ _ had) in
        let is_same : v.token ≡ u.token = ground arith in
        record {
          carries = subst (Carries h c) (sym is_same) k.carries;
          expires_in_same = ground arith;
          issued_at_same = ground arith;
          refresh_same = ground arith;
        }

    -- Where what is signed with one secret verifies with the other, under the algorithm of its
    -- header only: whatever operations a decoded token goes through, in any order, it stands for
    -- the same header and the same claims (with their times in whole seconds once it was read
    -- back), open or signed, and it keeps its duration, its time of issue and whether it has a
    -- refresh token.
    pub Steps-Keeps :
        (h : JwsHeader) (c : ClaimsSet) (t u : Token)
        → t.token ≡ decoded h c
        → Steps t u
        → Keeps h c t u
    Steps-Keeps h c t _ is here = record {
      carries = open_claims c (inl refl) is;
      expires_in_same = refl;
      issued_at_same = refl;
      refresh_same = refl;
    }
    Steps-Keeps h c t v is (next {u} path step) =
        Step-Keeps h c t u v (Steps-Keeps h c t u is path) step
