-- ===== src/Crates/Jwt/Algorithm.antt =====
-- `jwa::SignatureAlgorithm`.
pub data SignatureAlgorithm : Type 0 where
  none hs256 hs384 hs512 rs256 rs384 rs512 es256 es384 es512 ps256 ps384 ps512 : SignatureAlgorithm
