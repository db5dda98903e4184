-- ===== src/Error/Answers.antt =====
-- What a client gets for an error of the top level (`Responder`).
use Prim.Native.String.{◌++◌}
use rowdy.Prelude.{String, none, ok, err, [], ◌∷◌, ◌≡◌, ◌≢◌, ◌↔◌, refl, arith, ap, sym, ok_inj, ◌∙◌}
use rowdy.Crates.{
  JwtErrorVariant, other, validation_error, json_error, decode_base64, utf8,
  unspecified_cryptographic_error, unauthorized, forbidden, Response,
}
use rowdy.Error.Auth.{AuthError}
use rowdy.Error.Token
use rowdy.Error.Token.{TokenError}
use rowdy.Error.Top.{Error, respond_to}

abbrev pub IsCors : Error → Type 0
IsCors (Error.cors e) = Unit
IsCors _ = ⊥

-- The challenge for a realm.
abbrev pub challenge : String → Response
challenge realm = record {
  status = unauthorized;
  headers = ("WWW-Authenticate", "Basic realm=" ++ realm) ∷ [];
  body = none;
}

-- The errors that stand for credentials or a token that are no good.
abbrev pub IsRefusal : Error → Type 0
IsRefusal (Error.auth AuthError.authentication_failure) = Unit
IsRefusal (Error.token (TokenError.jwt_error e)) = e.variant ≢ other
IsRefusal _ = ⊥

jwt_status-unauthorized_iff :
    (v : JwtErrorVariant) → (Token.jwt_status v ≡ unauthorized) ↔ (v ≢ other)
unfolding Token.jwt_status
jwt_status-unauthorized_iff validation_error = (λ a. λ h. cc, λ b. refl)
jwt_status-unauthorized_iff json_error = (λ a. λ h. cc, λ b. refl)
jwt_status-unauthorized_iff decode_base64 = (λ a. λ h. cc, λ b. refl)
jwt_status-unauthorized_iff utf8 = (λ a. λ h. cc, λ b. refl)
jwt_status-unauthorized_iff unspecified_cryptographic_error = (λ a. λ h. cc, λ b. refl)
jwt_status-unauthorized_iff other = (λ a. absurd (ground arith), λ b. absurd (b refl))

realm_inj :
    (a b : String)
    → ◌≡◌ {A = Error}
        (Error.auth (AuthError.missing_authorization a))
        (Error.auth (AuthError.missing_authorization b))
    → a ≡ b
realm_inj a b h = ground arith

-- An error other than a CORS error is answered with a response of its own exactly if it is a missing
-- `Authorization`, and then with the challenge for its realm; and it is answered with a bare 401
-- exactly if it is a failed authentication, or an error of the token crate of a kind that the code
-- names.
pub respond_to-refused_iff :
    (e : Error)
    → ¬ IsCors e
    → ((r : Response)
        → (respond_to e ≡ ok r) ↔ (
            (realm : String) × (e ≡ Error.auth (AuthError.missing_authorization realm))
            × (r ≡ challenge realm)))
      × ((respond_to e ≡ err unauthorized) ↔ IsRefusal e)
unfolding respond_to
respond_to-refused_iff (Error.cors e) h = absurd (h tt)
respond_to-refused_iff (Error.auth (AuthError.missing_authorization realm)) h = (
  λ r. (
    λ a. (realm, refl, ok_inj (sym a)),
    λ (name, same, is). sym (ap ok (is ∙ ap challenge (realm_inj name realm (sym same)))),
  ),
  (λ a. absurd (ground arith), λ b. absurd b),
)
respond_to-refused_iff (Error.token (TokenError.jwt_error e)) h = (
  λ r. (λ a. absurd (ground arith), λ (realm, same, is). absurd (ground arith)),
  (
    λ a. (jwt_status-unauthorized_iff e.variant).0 (ground arith),
    λ b. ap err ((jwt_status-unauthorized_iff e.variant).1 b),
  ),
)
respond_to-refused_iff (Error.auth AuthError.authentication_failure) h = (
  λ r. (λ a. absurd (ground arith), λ (realm, same, is). absurd (ground arith)),
  (λ a. tt, λ b. refl),
)
respond_to-refused_iff (Error.auth e) h = (
  λ r. (λ a. absurd (ground arith), λ (realm, same, is). absurd (ground arith)),
  (λ a. absurd (ground arith), λ b. absurd b),
)
respond_to-refused_iff (Error.token e) h = (
  λ r. (λ a. absurd (ground arith), λ (realm, same, is). absurd (ground arith)),
  (λ a. absurd (ground arith), λ b. absurd b),
)
respond_to-refused_iff e h = (
  λ r. (λ a. absurd (ground arith), λ (realm, same, is). absurd (ground arith)),
  (λ a. absurd (ground arith), λ b. absurd b),
)

-- The token errors that stand for a claim out of scope.
abbrev pub IsScope : Error → Type 0
IsScope (Error.token TokenError.invalid_service) = Unit
IsScope (Error.token TokenError.invalid_issuer) = Unit
IsScope (Error.token TokenError.invalid_audience) = Unit
IsScope _ = ⊥

jwt-not-forbidden : (e : _) → respond_to (Error.token (TokenError.jwt_error e)) ≢ err forbidden
unfolding respond_to
jwt-not-forbidden e h = ground arith

-- An error other than a CORS error is answered 403 exactly if it is an invalid service, issuer or
-- audience of a token.
pub respond_to-forbidden_iff : (e : Error) → ¬ IsCors e → (respond_to e ≡ err forbidden) ↔ IsScope e
unfolding respond_to
respond_to-forbidden_iff (Error.cors e) h = absurd (h tt)
respond_to-forbidden_iff (Error.token TokenError.invalid_service) h = (λ p. tt, λ q. refl)
respond_to-forbidden_iff (Error.token TokenError.invalid_issuer) h = (λ p. tt, λ q. refl)
respond_to-forbidden_iff (Error.token TokenError.invalid_audience) h = (λ p. tt, λ q. refl)
respond_to-forbidden_iff (Error.token (TokenError.jwt_error e)) h =
    (λ p. jwt-not-forbidden e p, λ q. absurd q)
respond_to-forbidden_iff (Error.token e) h = (λ p. cc, λ q. absurd q)
respond_to-forbidden_iff (Error.auth (AuthError.missing_authorization r)) h =
    (λ p. cc, λ q. absurd q)
respond_to-forbidden_iff (Error.auth AuthError.authentication_failure) h = (λ p. cc, λ q. absurd q)
respond_to-forbidden_iff (Error.auth e) h = (λ p. cc, λ q. absurd q)
respond_to-forbidden_iff e h = (λ p. cc, λ q. absurd q)
