-- ===== src/Tests/Csv.antt =====
-- A reader of CSV files with plain fields, and the round trip of users through it.
use Prim.Native.Char.{Char, code}
use Prim.Native.String.append as Append
use rowdy.Prelude.{
  ℕ, not, ◌&&◌, ◌||◌, String, Bool, true, false, Result, ok, List, [], ◌∷◌, collect, ◌≡◌, refl, ap,
  ◌∙◌, arith, if◌then◌else◌, ltb,
}
use rowdy.Crates.{ForeignError}
use rowdy.Auth.Simple.{◌+s◌, CsvRecord, write_csv, users_from_csv}
use rowdy.Auth.Simple.Csv.{
  IsPlain, none_left, one, IsCsvOf, no_lines, line, ReadsCsv, read_records, append_all,
  users_from_csv-write_csv,
}
use rowdy.Tests.Directory.{hex_crypto, hex_crypto-ReadsHex, users}

-- A comma or an end of line.
abbrev is_code : ℕ → ℕ → Bool
is_code n m = not (ltb n m) && not (ltb m n)

abbrev is_end : Char → Bool
is_end d = is_code (code d) 44 || is_code (code d) 10

-- The first field, and the others.
split : String → String × List String
split String.[] = ("", [])
split (String.◌∷◌ d s) =
    let rest = split s in if is_end d then ("", rest.0 ∷ rest.1) else (String.◌∷◌ d rest.0, rest.1)

in_threes : List String → List (Result ForeignError CsvRecord)
in_threes (u ∷ h ∷ s ∷ fields) = let rest = in_threes fields in ok (u, h, s) ∷ rest
in_threes _ = []

read_csv : String → List (Result ForeignError CsvRecord)
unfolding split in_threes
read_csv text = let fields = split text in in_threes (fields.0 ∷ fields.1)

plain_goes_on : (d : Char) → (code d ≡ 44 → ⊥) → (code d ≡ 10 → ⊥) → is_end d ≡ false
plain_goes_on d comma newline = ground arith

-- A plain field goes up to the comma or the end of line after it.
split-field :
    (f : String) (d : Char) (rest : String)
    → IsPlain f
    → is_end d ≡ true
    → split (f +s String.◌∷◌ d rest) ≡ (f, (split rest).0 ∷ (split rest).1)
unfolding split
split-field f d rest none_left e = ap split (λ i. Append.nil (String.◌∷◌ d rest) i) ∙ rw e refl
split-field f d rest (one {d = x} {s = s} comma quote newline return p) e =
    ap split (λ i. Append.cons x s (String.◌∷◌ d rest) i)
    ∙ rw (plain_goes_on x comma newline) (rw (split-field s d rest p e) refl)

with_head : (d : Char) (x : String) → String.◌∷◌ d "" +s x ≡ String.◌∷◌ d x
with_head d x = (λ i. Append.cons d "" x i) ∙ ap (λ y. String.◌∷◌ d y) (λ i. Append.nil x i)

split-separated :
    (f : String) (d : Char) (rest : String)
    → IsPlain f
    → is_end d ≡ true
    → split (f +s (String.◌∷◌ d "" +s rest)) ≡ (f, (split rest).0 ∷ (split rest).1)
split-separated f d rest p e =
    ap (λ x. split (f +s x)) (with_head d rest) ∙ split-field f d rest p e

read_csv-IsCsvOf :
    (text : String) (rs : List CsvRecord) → IsCsvOf text rs → read_csv text ≡ read_records rs
unfolding read_csv split
read_csv-IsCsvOf text rs no_lines = refl
read_csv-IsCsvOf text rs (line {u = u} {h = h} {s = s} {text = rest} {rs = rs'} pu ph ps is_csv) =
    rw (split-separated u "," (h +s "," +s s +s "\n" +s rest) pu refl) (
      rw (split-separated h "," (s +s "\n" +s rest) ph refl)
        (rw (split-separated s "\n" rest ps refl) (rw (read_csv-IsCsvOf rest rs' is_csv) refl)))

read_csv-ReadsCsv : ReadsCsv read_csv
read_csv-ReadsCsv = record { reads = read_csv-IsCsvOf }

letter-IsPlain :
    (d : Char) → ltb 44 (code d) ≡ true → (s : String) → IsPlain s → IsPlain (String.◌∷◌ d s)
letter-IsPlain d large s p =
    one (λ e. ground arith) (λ e. ground arith) (λ e. ground arith) (λ e. ground arith) p

users_from_csv-write_csv_example :
    (text : String) × (write_csv append_all users "" ≡ ok text)
    × (users_from_csv hex_crypto (read_csv text) ≡ ok (collect users))
users_from_csv-write_csv_example =
    users_from_csv-write_csv hex_crypto read_csv hex_crypto-ReadsHex read_csv-ReadsCsv users
      (
        (
          (
            omega arith,
            (
              omega arith,
              (
                omega arith,
                (
                  omega arith,
                  (
                    omega arith,
                    (omega arith, (omega arith, (omega arith, (omega arith, (omega arith, tt))))),
                  ),
                ),
              ),
            ),
          ),
          (
            omega arith,
            (
              omega arith,
              (
                omega arith,
                (omega arith, (omega arith, (omega arith, (omega arith, (omega arith, tt))))),
              ),
            ),
          ),
        ),
        tt,
      )
      (
        letter-IsPlain "b" refl _ (letter-IsPlain "o" refl _ (letter-IsPlain "b" refl _ none_left)),
        tt,
      )
