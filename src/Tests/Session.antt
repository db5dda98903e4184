-- ===== src/Tests/Session.antt =====
-- A token crate that signs the sample claims under any id, and a whole session over it.
use rowdy.Token.Config.{RefreshTokenConfiguration}
use rowdy.Prelude.{
  String, Option, true, none, some, Result, ok, err, ◌≡◌, ◌∙◌, ap, refl, arith, subst, sym, false,
  contains, Answers, [], is_some, ◌&&◌,
}
use rowdy.Crates.{JsonValue, null, JwtError}
use rowdy.Crates.Jwt.{
  Jwt, JwsSecret, Jwk, Jws, Jwe, decoded, encoded, decrypted, encrypted, JweHeader, ClaimsSet,
  SignatureAlgorithm,
}
use rowdy.Crates.Jwt.Laws.{wire, Verifies, Decrypts}
use rowdy.Auth.Header.{is_bearer}
use rowdy.Auth.Authenticator.{prepare_authentication_response}
use rowdy.Token.Config
use rowdy.Token.Config.{refresh_token_enabled, as_bytes, into_bytes}
use rowdy.Token.Keys.{keys, for_signing, for_verification, for_encryption, for_decryption}
use rowdy.Token.Make.{make_header}
use rowdy.Token.Verify.{verify_service}
use rowdy.Token.Access.{Token}
use rowdy.Token.Access.Answers.{Locks, IsTimely, Signs}
use rowdy.Routes.{Server, token_getter, refresh_token}
use rowdy.Routes.Answers.{SignsFor, token_getter-Answers}
use rowdy.Routes.Session.{token_getter-refresh_token-Answers}
use rowdy.Tests.Wire.{
  jwt, Jws_discrete, sample_header, sample_claims, sample_jwe_header, refused, jwt-ChecksTimes,
}
use rowdy.Tests.Sample.{
  world, configuration, server, sample_keys, anyone, anyone-IsWellBehaved, alice, user, asking,
  refresh_configuration,
}

abbrev hs256 : SignatureAlgorithm
hs256 = SignatureAlgorithm.hs256

abbrev claims_of : String → ClaimsSet
claims_of i = record sample_claims { registered = record sample_claims.registered { id = some i } }

abbrev sign_under : {P : Type 0} → String → Dec P → Result JwtError Jws
sign_under i (yes _) = ok (encoded i)
sign_under i (no _) = err refused

sign_with : Jws → Option String → Result JwtError Jws
sign_with x none = err refused
sign_with x (some i) = sign_under i (Jws_discrete x (decoded (sample_header hs256) (claims_of i)))

-- The text of a token is its id.
sign : Jws → Result JwtError Jws
unfolding sign_with
sign (decoded h c) = sign_with (decoded h c) c.registered.id
sign (encoded t) = err refused

abbrev read : Jws → Result JwtError Jws
read (encoded t) = ok (decoded (sample_header hs256) (wire (claims_of t)))
read (decoded h c) = err refused

abbrev seal : Jwe → Result JwtError Jwe
seal (decrypted h (encoded t)) = ok (encrypted t)
seal _ = err refused

abbrev unseal : Jwe → Result JwtError Jwe
unseal (encrypted t) = ok (decrypted sample_jwe_header (encoded t))
unseal _ = err refused

abbrev crate : Jwt
crate = record (jwt hs256) {
  into_encoded = λ x k. sign x;
  into_decoded = λ x k a. read x;
  into_encrypted = λ x k. seal x;
  into_decrypted = λ x k a b. unseal x;
}

abbrev session_server : Server
session_server = record (server hs256 (some hs256)) { jwt = crate; keys = sample_keys }

session_keys : keys world (configuration (some hs256)) ≡ ok sample_keys
unfolding keys refresh_token_enabled for_signing for_verification for_encryption for_decryption
    as_bytes into_bytes Config.refresh_token
session_keys = refl

sign_under-eq-ok :
    {P : Type 0} (i : String) (d : Dec P) (r : Jws) → sign_under i d ≡ ok r → P × (r ≡ encoded i)
sign_under-eq-ok i (yes p) r h = (p, ground arith)
sign_under-eq-ok i (no n) r h = absurd (ground arith)

sign_under-yes : {P : Type 0} (i : String) (d : Dec P) → P → sign_under i d ≡ ok (encoded i)
sign_under-yes i (yes _) p = refl
sign_under-yes i (no n) p = absurd (n p)

sign_with-eq-ok :
    (x : Jws) (o : Option String) (r : Jws)
    → sign_with x o ≡ ok r
    → (i : String) × (x ≡ decoded (sample_header hs256) (claims_of i)) × (r ≡ encoded i)
unfolding sign_with
sign_with-eq-ok x none r h = absurd (ground arith)
sign_with-eq-ok x (some i) r h =
    let (same, is_text) =
      sign_under-eq-ok i (Jws_discrete x (decoded (sample_header hs256) (claims_of i))) r h in
    (i, same, is_text)

crate-Verifies : (k l : JwsSecret) → Verifies crate k l
unfolding sign
crate-Verifies k l = record {
  signs = λ h c r e.
      let (i, same, is_text) = sign_with-eq-ok (decoded h c) c.registered.id r e in
      let header : h ≡ sample_header hs256 = ground arith in
      let claims : c ≡ claims_of i = ground arith in (i, is_text, rw header (rw claims refl));
}

seal-eq-ok :
    (h : JweHeader) (p : Jws) (r : Jwe)
    → seal (decrypted h p) ≡ ok r
    → (t : String) × (r ≡ encrypted t) × (p ≡ encoded t)
seal-eq-ok h (encoded t) r e = (t, ground arith, refl)
seal-eq-ok h (decoded g c) r e = absurd (ground arith)

crate-Decrypts : (k l : Jwk) → Decrypts crate k l
crate-Decrypts k l = record {
  opens = λ h p r e.
      let (t, is_text, same) = seal-eq-ok h p r e in
      (t, is_text, sample_jwe_header, ap (λ x. ok (decrypted sample_jwe_header x)) (sym same));
}

crate-Locks : (k : Jwk) (x : RefreshTokenConfiguration) → Locks crate k x
crate-Locks k x = record { locks = λ t. (encrypted t, refl) }

timely : IsTimely world (configuration (some hs256)) 0
timely = record {
  draws = λ n. record { bytes = []; filled = refl; uuid = []; read = refl };
  access = record { lasts = 3600000000000; lasts_from = refl; dated = omega arith };
  refresh = record { lasts = 3600000000000; lasts_from = refl; dated = omega arith };
}

Signs-claims :
    Signs crate world
      (configuration (some hs256))
      sample_keys.signing
      "alice"
      0
      (record { secs = 3600; nanos = 0 })
      null
unfolding make_header sign sign_with
Signs-claims c stamp private =
    let who : stamp.subject_text ≡ "alice" = ground arith in
    let for_long : stamp.lasts ≡ 3600000000000 = ground arith in
    let same : c ≡ claims_of stamp.id_text =
      rw
        (
          stamp.id_is, stamp.expiry_is, stamp.not_before_is, stamp.issued_at_is, stamp.subject_is,
          stamp.audience_is, stamp.issuer_is, private, who, for_long,
        )
        refl in
    (
      encoded stamp.id_text,
      ap (sign_with (decoded (sample_header hs256) c)) stamp.id_is
          ∙ sign_under-yes stamp.id_text
              (Jws_discrete (decoded (sample_header hs256) c)
                (decoded (sample_header hs256) (claims_of stamp.id_text)))
              (ap (decoded (sample_header hs256)) same),
    )

Signs-refresh :
    (x : Config.RefreshTokenConfiguration) (p : JsonValue)
    → refresh_configuration ≡ x
    → null ≡ p
    → Signs crate world
        (configuration (some hs256))
        sample_keys.signing
        "alice"
        0
        x.expiry_duration
        p
Signs-refresh x p same_x same_p =
    subst
      (λ y.
        Signs crate world (configuration (some hs256)) sample_keys.signing "alice" 0
          y.expiry_duration p)
      same_x
      (subst
        (λ q.
          Signs crate world (configuration (some hs256)) sample_keys.signing "alice" 0
            (record { secs = 3600; nanos = 0 }) q)
        same_p Signs-claims)

signs_result : SignsFor session_server 0 (alice true)
signs_result = record {
  access = Signs-claims;
  refresh = λ x p is_x is_p. Signs-refresh x p (ground arith) (ground arith);
}

signs_again : SignsFor session_server 0 (record (alice true) { refresh_payload = none })
signs_again = record { access = Signs-claims; refresh = λ x p is_x is_p. absurd (ground arith) }

basic : is_bearer session_server.basic ≡ false
unfolding is_bearer
basic = refl

served : verify_service crate (configuration (some hs256)) "https://service.example" ≡ ok tt
unfolding verify_service contains
served = refl

token_getter-refresh_token-Answers_example :
    (t : Token) × (text : String) × (token_getter session_server 0 user (asking (some true)) ≡ ok t)
    × (t.refresh_token ≡ some (encrypted text))
    × Answers (refresh_token session_server 0 (record { token = text }) (asking none))
token_getter-refresh_token-Answers_example =
    token_getter-refresh_token-Answers session_server anyone-IsWellBehaved
      (crate-Verifies sample_keys.signing sample_keys.signature_verification) session_keys
      (λ k x h g. (crate-Locks k x, crate-Decrypts k k))
      (record { accepts = (jwt-ChecksTimes hs256).accepts }) hs256 refl 0 0 user
      (asking (some true)) (asking none) (alice true) null refresh_configuration 3600000000000
      timely timely signs_result signs_again basic refl refl refl refl ("alice", refl) refl refl
      refl served (omega arith) (omega arith)

prepared : prepare_authentication_response anyone user true ≡ ok (alice true)
unfolding prepare_authentication_response
prepared = refl

token_getter-Answers_example :
    (t : Token) × (token_getter session_server 0 user (asking (some true)) ≡ ok t)
    × (is_some t.refresh_token ≡ (true && true))
token_getter-Answers_example =
    token_getter-Answers session_server session_keys
      (crate-Verifies sample_keys.signing sample_keys.signature_verification)
      (λ k x h g. crate-Locks k x) 0 timely user (asking (some true)) (alice true) signs_result
      basic prepared served ("alice", refl)
