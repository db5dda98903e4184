-- ===== src/Auth/Util/Hex.antt =====
-- `hex_dump` (src/auth/util.rs) against an independent reading of hexadecimal text.
use Prim.Native.Char.{Char, code}
use Prim.Native.String.{String, [], ◌∷◌}
use mathlib.Core.List.{List}
use rowdy.Prelude.{
  ℕ, zero, suc, ◌/◌, ◌%◌, ◌*◌, ◌+◌, ◌<◌, ◌≤◌, ◌≡◌, refl, arith, ◌⊎◌, inl, inr, All, ok, subst,
}
use rowdy.Auth.Util.{Crypto, hex_dump, nibble}

-- The character is the lower case hexadecimal digit of the value.
abbrev pub Digit : Char → ℕ → Type 0
Digit c n = ((n < 10) × (code c ≡ n + 48)) ⊎ ((10 ≤ n) × (n < 16) × (code c ≡ n + 87))

-- A text that writes bytes as pairs of digits, the high one first.
pub data IsHexOf : String → List ℕ → Type 0 where
  nil : IsHexOf [] List.[]
  pair :
      {c d : Char} {high low b : ℕ} {s : String} {bs : List ℕ}
      → Digit c high
      → Digit d low
      → b ≡ high * 16 + low
      → IsHexOf s bs
      → IsHexOf (c ∷ d ∷ s) (List.◌∷◌ b bs)

digit : (n : ℕ) → n < 16 → Digit (nibble n) n
digit zero h = inl (omega arith, refl)
digit (suc zero) h = inl (omega arith, refl)
digit (suc (suc zero)) h = inl (omega arith, refl)
digit (suc (suc (suc zero))) h = inl (omega arith, refl)
digit (suc (suc (suc (suc zero)))) h = inl (omega arith, refl)
digit (suc (suc (suc (suc (suc zero))))) h = inl (omega arith, refl)
digit (suc (suc (suc (suc (suc (suc zero)))))) h = inl (omega arith, refl)
digit (suc (suc (suc (suc (suc (suc (suc zero))))))) h = inl (omega arith, refl)
digit (suc (suc (suc (suc (suc (suc (suc (suc zero)))))))) h = inl (omega arith, refl)
digit (suc (suc (suc (suc (suc (suc (suc (suc (suc zero))))))))) h = inl (omega arith, refl)
digit (suc (suc (suc (suc (suc (suc (suc (suc (suc (suc zero)))))))))) h =
    inr (omega arith, omega arith, refl)
digit (suc (suc (suc (suc (suc (suc (suc (suc (suc (suc (suc zero))))))))))) h =
    inr (omega arith, omega arith, refl)
digit (suc (suc (suc (suc (suc (suc (suc (suc (suc (suc (suc (suc zero)))))))))))) h =
    inr (omega arith, omega arith, refl)
digit (suc (suc (suc (suc (suc (suc (suc (suc (suc (suc (suc (suc (suc zero))))))))))))) h =
    inr (omega arith, omega arith, refl)
digit (suc (suc (suc (suc (suc (suc (suc (suc (suc (suc (suc (suc (suc (suc zero)))))))))))))) h =
    inr (omega arith, omega arith, refl)
digit (suc (suc (suc (suc (suc (suc (suc (suc (suc (suc (suc (suc (suc (suc (suc zero)))))))))))))))
      h =
    inr (omega arith, omega arith, refl)
digit n h = absurd (omega arith)

-- The dump of a list of bytes, each below 256, writes each byte as its two digits, the high one
-- first.
pub hex_dump-IsHexOf : (bs : List ℕ) → All (λ b. b < 256) bs → IsHexOf (hex_dump bs) bs
unfolding hex_dump
hex_dump-IsHexOf List.[] h = nil
hex_dump-IsHexOf (List.◌∷◌ b bs) (h, hs) =
    pair (digit (b / 16) (omega arith)) (digit (b % 16) (omega arith)) (omega arith)
      (hex_dump-IsHexOf bs hs)

Digit-functional : (c : Char) (n m : ℕ) → Digit c n → Digit c m → n ≡ m
Digit-functional c n m p q = ground arith

IsHexOf-functional : {s : String} {bs cs : List ℕ} → IsHexOf s bs → IsHexOf s cs → bs ≡ cs
IsHexOf-functional nil nil = refl
IsHexOf-functional (pair {c} {d} {high} {low} p q e h)
      (pair {high = high'} {low = low'} p' q' e' h') =
    cc (
      Digit-functional c high high' p p',
      Digit-functional d low low' q q',
      IsHexOf-functional h h',
      e,
      e',
    )

-- Two lists of bytes, each below 256, with the same dump are the same.
pub hex_dump-injective :
    (bs cs : List ℕ)
    → All (λ b. b < 256) bs
    → All (λ b. b < 256) cs
    → hex_dump bs ≡ hex_dump cs
    → bs ≡ cs
hex_dump-injective bs cs hb hc e =
    IsHexOf-functional (subst (λ s. IsHexOf s bs) e (hex_dump-IsHexOf bs hb))
      (hex_dump-IsHexOf cs hc)

-- `from_hex` reads lower case hexadecimal text.
pub record ReadsHex (c : Crypto) : Type 0 where
  pub reads : (s : String) (bs : List ℕ) → IsHexOf s bs → c.from_hex s ≡ ok bs
