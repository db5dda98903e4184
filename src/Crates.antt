-- ===== src/Crates.antt =====
-- What the program uses of other crates and of the operating system, and does not implement:
-- values are seen through what the code reads of them, and functions are fields of records of
-- parameters, with no definition.
mod Errors
pub mod Json
pub mod Jwt
pub mod World
pub use Errors.*
unfoldable pub use Json.*
