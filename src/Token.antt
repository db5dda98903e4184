-- ===== src/Token.antt =====
-- src/token.rs: configuration and keys, the making and checking of tokens, access and refresh
-- tokens, and what the endpoint's clients get.
pub mod Config
pub mod Keys
pub mod Make
pub mod Verify
pub mod Refresh
pub mod Access
