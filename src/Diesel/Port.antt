-- ===== src/Diesel/Port.antt =====
-- The digits of a port, which the connection texts of the MySQL and PostgreSQL backends have.
use Prim.Native.String
use rowdy.Prelude.{
  ℕ, suc, ◌+◌, ◌*◌, ◌/◌, ◌%◌, ◌<◌, ltb, String, true, Bool-cases, inl, inr, ◌≡◌, arith, subst,
}
use rowdy.Auth.Util.{nibble}
use rowdy.Diesel.{decimal, decimal_in}

abbrev digit : ℕ → String
digit d = String.◌∷◌ (nibble d) ""

-- A number's digits, the last one last, without a leading zero.
pub data IsDecimalOf : String → ℕ → Type 0 where
  one_digit : {n : ℕ} → n < 10 → IsDecimalOf (digit n) n
  more :
      {s : String} {n d : ℕ}
      → IsDecimalOf s n
      → 0 < n
      → d < 10
      → IsDecimalOf (String.◌++◌ s (digit d)) (n * 10 + d)

-- One more step of fuel is enough for ten times the numbers.
decimal_in_more :
    (f b : ℕ)
    → ((m : ℕ) → m < b → IsDecimalOf (decimal_in f m) m)
    → (n : ℕ) → n < b * 10
    → IsDecimalOf (decimal_in (suc f) n) n
unfolding decimal_in
decimal_in_more f b fewer n h = elim (Bool-cases (ltb n 10)) [
  | inl small ↦
      let n_small : n < 10 = ground arith in
      let last_is : n ≡ n % 10 = omega arith in
      rw small (subst (λ d. IsDecimalOf (digit d) n) last_is (one_digit n_small))
  | inr large ↦
      let n_large : 9 < n = ground arith in
      let whole : n / 10 * 10 + n % 10 ≡ n = omega arith in
      rw large (
        subst (λ m. IsDecimalOf (String.◌++◌ (decimal_in f (n / 10)) (digit (n % 10))) m) whole
          (more (fewer (n / 10) (omega arith)) (omega arith) (omega arith)))
]

decimal_in_one : (n : ℕ) → n < 10 → IsDecimalOf (decimal_in 1 n) n
unfolding decimal_in
decimal_in_one n h =
    let small : ltb n 10 ≡ true = ground arith in
    let last_is : n ≡ n % 10 = omega arith in
    rw small (subst (λ d. IsDecimalOf (digit d) n) last_is (one_digit h))

-- Five steps are enough for 16 bits.
pub decimal-IsDecimalOf : (n : ℕ) → n < 65536 → IsDecimalOf (decimal n) n
unfolding decimal
decimal-IsDecimalOf n h =
    decimal_in_more 4 10000
      (decimal_in_more 3 1000 (decimal_in_more 2 100 (decimal_in_more 1 10 decimal_in_one))) n
      (omega (arith, h))
