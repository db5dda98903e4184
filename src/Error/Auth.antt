-- ===== src/Error/Auth.antt =====
-- src/auth/mod.rs: `auth::Error`.
use Prim.Native.String.{◌++◌}
use rowdy.Prelude.{String, none, Result, ok, err, [], ◌∷◌}
use rowdy.Crates.{ForeignError, Status, unauthorized, bad_request, internal_server_error, Response}

pub data AuthError : Type 0 where
  authentication_failure : AuthError
  generic_error : String → AuthError
  hyper_error : ForeignError → AuthError
  missing_authorization : String → AuthError

unfoldable pub description : AuthError → String
description authentication_failure = "Authentication has failed"
description (missing_authorization realm) =
    "The request header `Authorization` is required but is missing"
description (generic_error e) = e
description (hyper_error e) = e.description

unfoldable pub display : AuthError → String
unfolding description
display (hyper_error e) = e.display
display e = description e

unfoldable pub respond_to : AuthError → Result Status Response
respond_to (missing_authorization realm) = ok (record {
  status = unauthorized;
  headers = ("WWW-Authenticate", "Basic realm=" ++ realm) ∷ [];
  body = none;
})
respond_to authentication_failure = err unauthorized
respond_to (hyper_error e) = err bad_request
respond_to (generic_error e) = err internal_server_error
