-- ===== src/Conformance.antt =====
-- The unit tests that the source keeps beside its code, as runs over any token crate and world.
mod Harness
mod Fixtures
mod Validation
mod Creation
mod Tokens
mod Secrets
mod Headers
mod Noop
mod Simple
