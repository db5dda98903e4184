-- ===== src/Error.antt =====
-- The error enums (src/auth/mod.rs, src/token.rs, src/lib.rs of the repository): one module for
-- each enum, with its `error::Error`, `Display` and `Responder`; `Chain` has `cause`. Logging is
-- left out.
pub mod Auth
pub mod Token
pub mod Top
pub mod Chain
pub mod Answers
