-- ===== src/Auth/Authenticator.antt =====
-- src/auth/mod.rs: the `Authenticator` trait as an interface, and the responses that it prepares.
use rowdy.Prelude.{
  String, Bool, true, false, not, ◌&&◌, Option, none, some, Result, ok, err, ◌>>=◌, Partial, lift,
  is_some, if◌then◌else◌, ◌≡◌, ◌↔◌, ◌⊎◌, inl, inr, refl, arith, Result-cases,
}
use rowdy.Crates.{JsonValue}
use rowdy.Error.Auth.{generic_error, missing_authorization}
use rowdy.Error.Top.{Error, auth, unsupported_operation}

pub record AuthenticationResult : Type 0 where
  pub subject : String
  pub private_claims : JsonValue
  pub refresh_payload : Option JsonValue

-- The two methods that an identity provider implements, over the credentials of a scheme.
pub record Authenticator (S : Type 0) : Type 0 where
  pub authenticate : S → Bool → Partial Error AuthenticationResult
  pub authenticate_refresh_token : JsonValue → Partial Error AuthenticationResult

-- The trait's own `authenticate_refresh_token`, for a provider that has none.
unfoldable pub default_refresh : JsonValue → Partial Error AuthenticationResult
default_refresh payload = lift (err unsupported_operation)

abbrev pub misbehaving_authentication : Error
misbehaving_authentication = auth (
    generic_error
      "Misbehaving authenticator: refresh token payload was returned when it was not requested for")

abbrev pub misbehaving_refresh : Error
misbehaving_refresh = auth (
    generic_error
      "Misbehaving authenticator: refresh token payload was returned for a refresh operation")

module _ {S : Type 0} (a : Authenticator S) where
  unfoldable pub prepare_authentication_response : S → Bool → Partial Error AuthenticationResult
  prepare_authentication_response authorization request_refresh_token = do
    result ← a.authenticate authorization request_refresh_token
    if not request_refresh_token && is_some result.refresh_payload
        then lift (err misbehaving_authentication)
        else ok result

  unfoldable pub prepare_refresh_response : JsonValue → Partial Error AuthenticationResult
  prepare_refresh_response refresh_payload = do
    result ← a.authenticate_refresh_token refresh_payload
    if is_some result.refresh_payload then lift (err misbehaving_refresh) else ok result

unfoldable pub missing {ℓ} : {A : Type ℓ} → String → Result Error A
missing realm = err (auth (missing_authorization realm))

-- What the routes rely on: no refresh payload unless one was asked for, none for a refresh, and a
-- payload that was given out is good for another authentication of the same subject.
pub record IsWellBehaved {S : Type 0} (a : Authenticator S) : Type 0 where
  pub quiet :
      (s : S) (r : AuthenticationResult) → a.authenticate s false ≡ ok r → r.refresh_payload ≡ none
  pub quiet_refresh :
      (p : JsonValue) (r : AuthenticationResult)
      → a.authenticate_refresh_token p ≡ ok r
      → r.refresh_payload ≡ none
  pub renews :
      (s : S) (r : AuthenticationResult) (p : JsonValue)
      → a.authenticate s true ≡ ok r
      → r.refresh_payload ≡ some p
      → a.authenticate_refresh_token p ≡ ok (record r { refresh_payload = none })

-- A prepared response to an authentication is exactly a result of the authenticator that has a
-- refresh payload only if one was requested.
pub prepare_authentication_response_iff :
    {S : Type 0} (a : Authenticator S) (s : S) (refresh : Bool) (r : AuthenticationResult)
    → (prepare_authentication_response a s refresh ≡ ok r)
      ↔ ((a.authenticate s refresh ≡ ok r) × ((refresh ≡ true) ⊎ (r.refresh_payload ≡ none)))
unfolding prepare_authentication_response
prepare_authentication_response_iff a s refresh r = (λ h. ground arith, λ h. ground arith)

pub prepare_refresh_response_iff :
    {S : Type 0} (a : Authenticator S) (p : JsonValue) (r : AuthenticationResult)
    → (prepare_refresh_response a p ≡ ok r)
      ↔ ((a.authenticate_refresh_token p ≡ ok r) × (r.refresh_payload ≡ none))
unfolding prepare_refresh_response
prepare_refresh_response_iff a p r = (λ h. ground arith, λ h. ground arith)

module _ {S : Type 0} (a : Authenticator S) (good : IsWellBehaved a) where
  -- The prepared response of a well-behaved authenticator to an authentication is what the
  -- authenticator answers.
  pub prepare_authentication_response-eq-authenticate :
      (s : S) (refresh : Bool)
      → prepare_authentication_response a s refresh ≡ a.authenticate s refresh
  unfolding prepare_authentication_response
  prepare_authentication_response-eq-authenticate s true = ground arith
  prepare_authentication_response-eq-authenticate s false =
      elim (Result-cases (a.authenticate s false)) [
        | inl (r, e) ↦ rw e (rw (good.quiet s r e))
        | inr (x, e) ↦ rw e
      ]

  pub prepare_refresh_response-eq-authenticate_refresh_token :
      (p : JsonValue) → prepare_refresh_response a p ≡ a.authenticate_refresh_token p
  unfolding prepare_refresh_response
  prepare_refresh_response-eq-authenticate_refresh_token p =
      elim (Result-cases (a.authenticate_refresh_token p)) [
        | inl (r, e) ↦ rw e (rw (good.quiet_refresh p r e))
        | inr (x, e) ↦ rw e
      ]

  -- A refresh payload that was given out is redeemed for the same subject and private claims, and
  -- the checks of both responses let it through.
  pub prepare_refresh_response-renews :
      (s : S) (refresh : Bool) (r : AuthenticationResult) (p : JsonValue)
      → prepare_authentication_response a s refresh ≡ ok r
      → r.refresh_payload ≡ some p
      → prepare_refresh_response a p ≡ ok (record r { refresh_payload = none })
  prepare_refresh_response-renews s true r p h has =
      (prepare_refresh_response_iff a p _).1
        (good.renews s r p (((prepare_authentication_response_iff a s true r).0 h).0) has, refl)
  prepare_refresh_response-renews s false r p h has =
      absurd (ground (arith, (prepare_authentication_response_iff a s false r).0 h))
