-- ===== src/Auth.antt =====
-- src/auth/: the `Authorization` header, the `Authenticator` trait with its checks, the
-- authenticators of the crate, and the helpers of util.rs.
pub mod Header
pub mod Authenticator
pub mod Util
pub mod Noop
pub mod Mock
pub mod Simple
pub mod Ldap
pub mod Calm
