-- ===== src/Error/Token.antt =====
-- src/token.rs: `token::Error`.
use rowdy.Prelude.{String, Result, err}
use rowdy.Crates.{
  ForeignError, JwtError, JwtErrorVariant, validation_error, json_error, decode_base64, utf8,
  unspecified_cryptographic_error, other, Status, unauthorized, forbidden, internal_server_error,
  Response,
}

pub data TokenError : Type 0 where
  token_already_encoded : TokenError
  token_already_decoded : TokenError
  token_not_encoded : TokenError
  token_not_decoded : TokenError
  no_refresh_token : TokenError
  refresh_token_already_encrypted : TokenError
  refresh_token_already_decrypted : TokenError
  refresh_token_not_decrypted : TokenError
  refresh_token_not_encrypted : TokenError
  invalid_service : TokenError
  invalid_issuer : TokenError
  invalid_audience : TokenError
  generic_error : String → TokenError
  io_error : ForeignError → TokenError
  jwt_error : JwtError → TokenError
  token_serialization_error : ForeignError → TokenError

unfoldable pub description : TokenError → String
description token_already_encoded = "Token is already encoded"
description token_already_decoded = "Token is already decoded"
description token_not_encoded = "Token is not encoded and cannot be used in this context"
description token_not_decoded = "Token is not decoded and cannot be used in this context"
description no_refresh_token = "Refresh token is not present"
description refresh_token_already_encrypted = "Refresh token is already encrypted and signed"
description refresh_token_already_decrypted = "Refresh token is already decrypted and verified"
description refresh_token_not_decrypted =
    "Refresh token is not decrypted and cannot be used in this context"
description refresh_token_not_encrypted =
    "Refresh token is not encrypted and cannot be used in this context"
description invalid_service = "Service requested is not in the list of intended audiences"
description invalid_issuer = "The token has an invalid issuer"
description invalid_audience = "The token has invalid audience"
description (jwt_error e) = e.error.description
description (io_error e) = e.description
description (token_serialization_error e) = e.description
description (generic_error e) = e

unfoldable pub display : TokenError → String
unfolding description
display (jwt_error e) = e.error.display
display (io_error e) = e.display
display (token_serialization_error e) = e.display
display (generic_error e) = e
display e = description e

-- The status of a `jwt::errors::Error`.
unfoldable pub jwt_status : JwtErrorVariant → Status
jwt_status validation_error = unauthorized
jwt_status json_error = unauthorized
jwt_status decode_base64 = unauthorized
jwt_status utf8 = unauthorized
jwt_status unspecified_cryptographic_error = unauthorized
jwt_status other = internal_server_error

unfoldable pub respond_to : TokenError → Result Status Response
unfolding jwt_status
respond_to invalid_service = err forbidden
respond_to invalid_issuer = err forbidden
respond_to invalid_audience = err forbidden
respond_to (jwt_error e) = err (jwt_status e.variant)
respond_to e = err internal_server_error
