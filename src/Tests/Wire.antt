-- ===== src/Tests/Wire.antt =====
-- A small token crate that signs one token, and the laws that it has.
use native.Mathlib.Decide.{ℕ_discrete}
use rowdy.Prelude.{
  text_discrete, String, false, Option, none, some, Result, ok, err, ◌≡◌, ◌≢◌, sym, refl, arith,
  is_ok, ◌==◌, eq_iff, ◌&&◌, leb, ltb, if◌then◌else◌, ap, subst, ◌≤◌,
}
use rowdy.Crates.{null, JwtError, validation_error, ForeignError}
use rowdy.Crates.Jwt.{
  Jwt, JwsSecret, Jwk, Jws, Jwe, decoded, encoded, decrypted, encrypted, JwsHeader, JweHeader,
  ClaimsSet, SignatureAlgorithm, single, DateTime,
}
use rowdy.Crates.Jwt.Laws.{
  wire, Verifies, ChecksAlgorithm, Decrypts, ChecksTimes, OpensJwe, Seals, RefusesLate, TellsApart,
}

pub Jws_discrete : Discrete Jws
Jws_discrete = hlevel (ℕ_discrete, text_discrete)

SignatureAlgorithm_discrete : Discrete SignatureAlgorithm
SignatureAlgorithm_discrete = hlevel

abbrev pub failed : ForeignError
failed = record { description = "failed"; display = "failed" }

abbrev pub refused : JwtError
refused = record { variant = validation_error; error = failed }

abbrev pub sample_header : SignatureAlgorithm → JwsHeader
sample_header a = record { algorithm = a }

-- An hour from the epoch on.
abbrev pub sample_claims : ClaimsSet
sample_claims = record {
  registered = record {
    issuer = some "https://rowdy.example";
    subject = some "alice";
    audience = some (single "https://service.example");
    issued_at = some 0;
    not_before = some 0;
    expiry = some 3600000000000;
    id = some "urn:uuid:0";
  };
  private_claims = null;
}

abbrev sign_if : {P : Type 0} → Dec P → Result JwtError Jws
sign_if (yes _) = ok (encoded "signed")
sign_if (no _) = err refused

pub sign : SignatureAlgorithm → Jws → Result JwtError Jws
sign a x = sign_if (Jws_discrete x (decoded (sample_header a) sample_claims))

abbrev read_if : {P : Type 0} → SignatureAlgorithm → Dec P → Result JwtError Jws
read_if a (yes _) = ok (decoded (sample_header a) (wire sample_claims))
read_if a (no _) = err refused

pub read : SignatureAlgorithm → Jws → SignatureAlgorithm → Result JwtError Jws
read a (encoded t) b =
    if t == "signed" then read_if a (SignatureAlgorithm_discrete a b) else err refused
read a (decoded h c) b = err refused

unfoldable pub seal : Jwe → Result JwtError Jwe
seal (decrypted h (encoded t)) = if t == "signed" then ok (encrypted "sealed") else err refused
seal _ = err refused

abbrev pub sample_jwe_header : JweHeader
sample_jwe_header = record {
  cek_algorithm = "A256GCMKW";
  enc_algorithm = "A256GCM";
  media_type = none;
  content_type = none;
}

unfoldable pub unseal : Jwe → Result JwtError Jwe
unseal (encrypted t) =
    if t == "sealed" then ok (decrypted sample_jwe_header (encoded "signed")) else err refused
unseal (decrypted h x) = err refused

unfoldable pub in_time :
    Option DateTime → Option DateTime → Option DateTime → DateTime → Result ForeignError (Unit {0})
in_time (some i) (some n) (some e) now =
    if leb i now && (leb n now && ltb now e) then ok tt else err failed
in_time _ _ _ now = err failed

abbrev pub jwt : SignatureAlgorithm → Jwt
jwt a = record {
  parse = λ t. ok t;
  default_algorithm = SignatureAlgorithm.hs256;
  into_encoded = λ x k. sign a x;
  into_decoded = λ x k b. read a x b;
  into_encrypted = λ x k. seal x;
  into_decrypted = λ x k b c. unseal x;
  validate_times = λ c o now. in_time c.issued_at c.not_before c.expiry now;
  unsupported = refused;
}

sign_if_signed : {P : Type 0} (d : Dec P) (r : Jws) → sign_if d ≡ ok r → P × (r ≡ encoded "signed")
sign_if_signed (yes p) r h = (p, ground arith)
sign_if_signed (no n) r h = absurd (ground arith)

sign_signed :
    (a : SignatureAlgorithm) (x r : Jws)
    → sign a x ≡ ok r
    → (x ≡ decoded (sample_header a) sample_claims) × (r ≡ encoded "signed")
unfolding sign
sign_signed a x r h = sign_if_signed (Jws_discrete x (decoded (sample_header a) sample_claims)) r h

sign_if_sample : {P : Type 0} (d : Dec P) → P → sign_if d ≡ ok (encoded "signed")
sign_if_sample (yes _) p = refl
sign_if_sample (no n) p = absurd (n p)

pub sign_sample :
    (a : SignatureAlgorithm)
    → sign a (decoded (sample_header a) sample_claims) ≡ ok (encoded "signed")
unfolding sign
sign_sample a =
    sign_if_sample
      (Jws_discrete (decoded (sample_header a) sample_claims)
        (decoded (sample_header a) sample_claims))
      refl

read_if_same :
    {P : Type 0} (a : SignatureAlgorithm) (d : Dec P)
    → P
    → read_if a d ≡ ok (decoded (sample_header a) (wire sample_claims))
read_if_same a (yes _) p = refl
read_if_same a (no n) p = absurd (n p)

read_if_other :
    {P : Type 0} (a : SignatureAlgorithm) (d : Dec P) → ¬ P → is_ok (read_if a d) ≡ false
read_if_other a (yes p) n = absurd (n p)
read_if_other a (no _) n = refl

pub read_same :
    (a : SignatureAlgorithm)
    → read a (encoded "signed") a ≡ ok (decoded (sample_header a) (wire sample_claims))
unfolding read
read_same a = read_if_same a (SignatureAlgorithm_discrete a a) refl

read_other : (a b : SignatureAlgorithm) → b ≢ a → is_ok (read a (encoded "signed") b) ≡ false
unfolding read
read_other a b differs = read_if_other a (SignatureAlgorithm_discrete a b) (λ e. differs (sym e))

pub jwt-Verifies : (a : SignatureAlgorithm) (k l : JwsSecret) → Verifies (jwt a) k l
jwt-Verifies a k l = record {
  signs = λ h c r e.
      let (same, is_text) = sign_signed a (decoded h c) r e in
      let header : h ≡ sample_header a = ground arith in
      let claims : c ≡ sample_claims = ground arith in
      ("signed", is_text, rw header (rw claims (read_same a)));
}

pub jwt-ChecksAlgorithm : (a : SignatureAlgorithm) (k l : JwsSecret) → ChecksAlgorithm (jwt a) k l
jwt-ChecksAlgorithm a k l = record {
  refuses = λ h c t b e differs.
      let (same, is_text) = sign_signed a (decoded h c) (encoded t) e in
      let header : h ≡ sample_header a = ground arith in
      let text : t ≡ "signed" = ground arith in rw text (read_other a b (rw header at differs));
}

seal_sealed :
    (x r : Jwe)
    → seal x ≡ ok r
    → (r ≡ encrypted "sealed") × (h : JweHeader) × (x ≡ decrypted h (encoded "signed"))
unfolding seal
seal_sealed (decrypted h (encoded t)) r e = (ground arith, h, ground (arith, eq_iff t "signed"))
seal_sealed (decrypted h (decoded g c)) r e = absurd (ground arith)
seal_sealed (encrypted t) r e = absurd (ground arith)

pub jwt-Decrypts : (a : SignatureAlgorithm) (k l : Jwk) → Decrypts (jwt a) k l
unfolding unseal
jwt-Decrypts a k l = record {
  opens = λ h p r e.
      let (is_text, h', same) = seal_sealed (decrypted h p) r e in
      let inner : p ≡ encoded "signed" = ground arith in
      (
        "sealed",
        is_text,
        sample_jwe_header,
        ap (λ x. ok (decrypted sample_jwe_header x)) (rw inner),
      );
}

pub jwt-ChecksTimes : (a : SignatureAlgorithm) → ChecksTimes (jwt a)
unfolding in_time
jwt-ChecksTimes a = record {
  accepts = λ c o i n e now is_i is_n is_e h1 h2 h3. rw is_i (rw is_n (rw is_e (ground arith)));
}

unseal_opens : (x r : Jwe) → unseal x ≡ ok r → (h : JweHeader) × (p : Jws) × (r ≡ decrypted h p)
unfolding unseal
unseal_opens (encrypted t) r e = (sample_jwe_header, encoded "signed", ground arith)
unseal_opens (decrypted h p) r e = absurd (ground arith)

pub jwt-OpensJwe : (a : SignatureAlgorithm) → OpensJwe (jwt a)
jwt-OpensJwe a = record { opened = λ x r k b c e. unseal_opens x r e }

pub jwt-Seals : (a : SignatureAlgorithm) → Seals (jwt a)
jwt-Seals a = record {
  encodes = λ x r k e. ("signed", (sign_signed a x r e).1);
  encrypts = λ x r k e. ("sealed", (seal_sealed x r e).0);
}

in_time_le :
    (i n e : Option DateTime) (now last : DateTime)
    → e ≡ some last
    → in_time i n e now ≡ ok tt
    → now ≤ last
unfolding in_time
in_time_le i n none now last h1 h2 = absurd (ground arith)
in_time_le none n (some e) now last h1 h2 = absurd (ground arith)
in_time_le (some i) none (some e) now last h1 h2 = absurd (ground arith)
in_time_le (some i) (some n) (some e) now last h1 h2 = ground arith

pub jwt-RefusesLate : (a : SignatureAlgorithm) → RefusesLate (jwt a)
unfolding in_time
jwt-RefusesLate a = record {
  late = λ c o e now is_e h. in_time_le c.issued_at c.not_before c.expiry now e is_e h;
}

read_signed :
    (a b : SignatureAlgorithm) (t : String) (r : Jws) → read a (encoded t) b ≡ ok r → t ≡ "signed"
unfolding read
read_signed a b t r h = ground (arith, eq_iff t "signed")

unseal_signed : (x : Jwe) → unseal (encrypted "signed") ≢ ok x
unfolding unseal
unseal_signed x h = ground arith

pub jwt-TellsApart : (a : SignatureAlgorithm) → TellsApart (jwt a)
jwt-TellsApart a = record {
  apart = λ t check b r unlock cek enc x h opened.
      unseal_signed x (subst (λ y. unseal (encrypted y) ≡ ok x) (read_signed a b t r h) opened);
}
