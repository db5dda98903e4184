-- ===== src/Auth/Util.antt =====
-- src/auth/util.rs: password hashing, salts and the hexadecimal dump.
pub mod Hex
use Prim.Native.Char.{Char}
use rowdy.Prelude.{
  ℕ, ◌/◌, ◌%◌, ◌*◌, ◌+◌, ◌<◌, String, Option, none, some, Result, Partial, unwrap, ok, err, List,
  [], ◌∷◌, ◌≡◌, refl, arith, get_or,
}
use rowdy.Token.Config.{into_bytes}

-- `argon2rs` and `ring`: the digest of a password's bytes with a salt (argon2i, 32 bytes), which is
-- `none` where argon2 panics, as for a salt outside the range that the code documents; the
-- comparison in constant time, the random bytes, and the reader of hexadecimal text.
pub record Crypto : Type 0 where
  pub argon2i : List ℕ → List ℕ → Option (List ℕ)
  pub verify_slices_are_equal : List ℕ → List ℕ → Result (Unit {0}) (Unit {0})
  pub fill : ℕ → ℕ → Option (List ℕ)
  pub from_hex : String → Result String (List ℕ)

module _ (c : Crypto) where
  unfoldable pub hash_password_digest {ℓ} : {E : Type ℓ} → String → List ℕ → Partial E (List ℕ)
  hash_password_digest password salt = unwrap (c.argon2i (into_bytes password) salt)

  abbrev filled : Option (List ℕ) → Result (Unit {0}) (List ℕ)
  filled none = err tt
  filled (some salt) = ok salt

  -- The first argument numbers the draws.
  unfoldable pub generate_salt : ℕ → ℕ → Result (Unit {0}) (List ℕ)
  generate_salt draw salt_length = filled (c.fill draw salt_length)

-- `CHARS`.
abbrev pub chars : List Char
chars =
    "0" ∷ "1" ∷ "2" ∷ "3" ∷ "4" ∷ "5" ∷ "6" ∷ "7" ∷ "8" ∷ "9" ∷ "a" ∷ "b" ∷ "c" ∷ "d" ∷ "e" ∷ "f"
    ∷ []

-- The index of a byte's half is never out of range.
abbrev pub nibble : ℕ → Char
nibble i = get_or chars i "0"

-- `byte >> 4` and `byte & 0xf`.
unfoldable pub hex_dump : List ℕ → String
hex_dump [] = ""
hex_dump (byte ∷ bytes) =
    String.◌∷◌ (nibble (byte / 16)) (String.◌∷◌ (nibble (byte % 16)) (hex_dump bytes))
