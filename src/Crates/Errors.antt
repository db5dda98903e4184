-- ===== src/Crates/Errors.antt =====
-- Errors of other crates. The code reads the text of an error (`error::Error::description` and
-- `fmt::Display`), and of a `jwt::errors::Error` the variants that `token::Error` tells apart.
use rowdy.Prelude.{String, List, Result, Option}

pub record ForeignError : Type 0 where
  pub description : String
  pub display : String

-- The variants of `jwt::errors::Error` that src/token.rs names; `other` is its `_`.
pub data JwtErrorVariant : Type 0 where
  validation_error json_error decode_base64 utf8 unspecified_cryptographic_error : JwtErrorVariant
  other : JwtErrorVariant

pub record JwtError : Type 0 where
  pub variant : JwtErrorVariant
  pub error : ForeignError

-- Rocket's `Status`, the ones that the code answers with.
pub data Status : Type 0 where
  ok_status bad_request unauthorized forbidden internal_server_error : Status

pub record Response : Type 0 where
  pub status : Status
  pub headers : List (String × String)
  pub body : Option String

-- A `cors::Error` is a `Responder` of its own.
pub record CorsError : Type 0 where
  pub error : ForeignError
  pub response : Result Status Response
