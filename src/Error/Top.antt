-- ===== src/Error/Top.antt =====
-- src/lib.rs: the top level `Error`, and the `?` conversions into it.
use rowdy.Prelude.{String, Result, err, map_err}
use rowdy.Crates.{ForeignError, CorsError, Status, bad_request, internal_server_error, Response}
use rowdy.Error.Auth
use rowdy.Error.Auth.{AuthError}
use rowdy.Error.Token
use rowdy.Error.Token.{TokenError}

pub data Error : Type 0 where
  generic_error : String → Error
  bad_request_error : String → Error
  auth : AuthError → Error
  cors : CorsError → Error
  token : TokenError → Error
  io_error : ForeignError → Error
  launch_error : ForeignError → Error
  unsupported_operation : Error

unfoldable pub description : Error → String
unfolding Auth.description Token.description
description unsupported_operation = "This operation is not supported"
description (auth e) = Auth.description e
description (cors e) = e.error.description
description (token e) = Token.description e
description (io_error e) = e.description
description (launch_error e) = e.description
description (generic_error e) = e
description (bad_request_error e) = e

unfoldable pub display : Error → String
unfolding Auth.display Token.display description
display unsupported_operation = description unsupported_operation
display (auth e) = Auth.display e
display (cors e) = e.error.display
display (token e) = Token.display e
display (io_error e) = e.display
display (generic_error e) = e
display (launch_error e) = e.display
display (bad_request_error e) = e

unfoldable pub respond_to : Error → Result Status Response
unfolding Auth.respond_to Token.respond_to
respond_to (auth e) = Auth.respond_to e
respond_to (cors e) = e.response
respond_to (token e) = Token.respond_to e
respond_to (bad_request_error e) = err bad_request
respond_to e = err internal_server_error

-- `?` on a `token::Error`, on an `auth::Error`, and on an error text.
abbrev pub from_token {ℓ} : {A : Type ℓ} → Result TokenError A → Result Error A
from_token r = map_err token r

abbrev pub from_auth {ℓ} : {A : Type ℓ} → Result AuthError A → Result Error A
from_auth r = map_err auth r

abbrev pub from_string {ℓ} : {A : Type ℓ} → Result String A → Result Error A
from_string r = map_err generic_error r
