-- ===== src/Auth/Simple/Csv.antt =====
-- The user database as text (src/auth/simple.rs): what `write_csv` writes is what `users_from_csv`
-- reads.
use Prim.Native.Char.{Char, code}
use Prim.Native.String.append as Append
use rowdy.Prelude.{
  ℕ, ◌<◌, String, Result, ok, map_err, List, [], ◌∷◌, map, collect, All, ◌≡◌, ◌≢◌, refl, ap, sym,
  ◌∙◌, arith, inl, inr,
}
use rowdy.Crates.{ForeignError}
use rowdy.Auth.Util.{Crypto, hex_dump}
use rowdy.Auth.Util.Hex.{ReadsHex, IsHexOf, Digit, hex_dump-IsHexOf}
use rowdy.Auth.Simple.{
  ◌+s◌, write_csv, join, Users, CsvRecord, decode_record, partition, all_or_joined, users_from_csv,
}

-- The fields that are written for a user.
abbrev pub csv_record : String × (List ℕ × List ℕ) → CsvRecord
csv_record (username, (hash, salt)) = (username, hex_dump hash, hex_dump salt)

abbrev pub HasBytes : String × (List ℕ × List ℕ) → Type 0
HasBytes (username, (hash, salt)) = All (λ b. b < 256) hash × All (λ b. b < 256) salt

-- What a CSV reader gives where every record has its three fields.
abbrev pub read_records : List CsvRecord → List (Result ForeignError CsvRecord)
read_records rs = map (λ r. ok r) rs

partition-read_records :
    (rs : List CsvRecord)
    → partition (map (map_err (λ (e : ForeignError). e.display)) (read_records rs)) ≡ (rs, [])
unfolding partition
partition-read_records [] = refl
partition-read_records (r ∷ rs) = rw (partition-read_records rs)

-- A field that a CSV file has as it is, without quotes: no comma, double quote or end of line.
pub data IsPlain : String → Type 0 where
  none_left : IsPlain String.[]
  one :
      {d : Char} {s : String}
      → code d ≢ 44
      → code d ≢ 34
      → code d ≢ 10
      → code d ≢ 13
      → IsPlain s
      → IsPlain (String.◌∷◌ d s)

-- A text that is a CSV file of records with plain fields, one on each line.
pub data IsCsvOf : String → List CsvRecord → Type 0 where
  no_lines : IsCsvOf "" []
  line :
      {u h s text : String} {rs : List CsvRecord}
      → IsPlain u
      → IsPlain h
      → IsPlain s
      → IsCsvOf text rs
      → IsCsvOf (u +s "," +s h +s "," +s s +s "\n" +s text) ((u, h, s) ∷ rs)

-- A CSV reader reads such a file.
pub record ReadsCsv (from_reader : String → List (Result ForeignError CsvRecord)) : Type 0 where
  pub reads :
      (text : String) (rs : List CsvRecord) → IsCsvOf text rs → from_reader text ≡ read_records rs

digit_ne : (d : Char) (n : ℕ) → Digit d n → (m : ℕ) → m < 48 → code d ≢ m
digit_ne d n (inl (small, is)) m h e = omega (arith, is, e, h)
digit_ne d n (inr (low, high, is)) m h e = omega (arith, is, e, h)

hex-IsPlain : {s : String} {bs : List ℕ} → IsHexOf s bs → IsPlain s
hex-IsPlain IsHexOf.nil = none_left
hex-IsPlain (IsHexOf.pair {c} {d} {high} {low} p q e h) =
    one (digit_ne c high p 44 (omega arith)) (digit_ne c high p 34 (omega arith))
      (digit_ne c high p 10 (omega arith)) (digit_ne c high p 13 (omega arith))
      (one (digit_ne d low q 44 (omega arith)) (digit_ne d low q 34 (omega arith))
        (digit_ne d low q 10 (omega arith)) (digit_ne d low q 13 (omega arith)) (hex-IsPlain h))

add_assoc : (a b x : String) → (a +s b) +s x ≡ a +s (b +s x)
add_assoc String.[] b x = ap (λ y. y +s x) (λ i. Append.nil b i) ∙ sym (λ i. Append.nil (b +s x) i)
add_assoc (String.◌∷◌ d a) b x =
    ap (λ y. y +s x) (λ i. Append.cons d a b i)
    ∙ (λ i. Append.cons d (a +s b) x i)
    ∙ ap (λ y. String.◌∷◌ d y) (add_assoc a b x)
    ∙ sym (λ i. Append.cons d a (b +s x) i)

module _ (c : Crypto) (hex : ReadsHex c) where
  decode_record-csv_record :
      (u : String × (List ℕ × List ℕ)) → HasBytes u → decode_record c (csv_record u) ≡ ok u
  unfolding decode_record
  decode_record-csv_record (username, (hash, salt)) (h, s) =
      rw (hex.reads (hex_dump hash) hash (hex_dump-IsHexOf hash h))
        (rw (hex.reads (hex_dump salt) salt (hex_dump-IsHexOf salt s)))

  partition-decode_record :
      (users : Users)
      → All HasBytes users
      → partition (map (decode_record c) (map csv_record users)) ≡ (users, [])
  unfolding partition
  partition-decode_record [] h = refl
  partition-decode_record (u ∷ users) (h, hs) =
      rw (decode_record-csv_record u h) (rw (partition-decode_record users hs))

  -- If lower case hexadecimal text is read back as its bytes, then the records that are written
  -- for users, whose hashes and salts are bytes, are read back as the same users; of two with one
  -- name the last one counts.
  pub users_from_csv-csv_record :
      (users : Users)
      → All HasBytes users
      → users_from_csv c (read_records (map csv_record users)) ≡ ok (collect users)
  unfolding users_from_csv all_or_joined
  users_from_csv-csv_record users h =
      rw (partition-read_records (map csv_record users)) (rw (partition-decode_record users h))

-- A writer that takes every text, as a buffer in memory does.
abbrev pub append_all : String → String → Result ForeignError String
append_all written text = ok (written +s text)

abbrev pub HasPlainName : String × (List ℕ × List ℕ) → Type 0
HasPlainName (username, rest) = IsPlain username

line_assoc :
    (w u h s text : String)
    → ((w +s (u +s "," +s h +s "," +s s)) +s "\n") +s text
      ≡ w +s (u +s "," +s h +s "," +s s +s "\n" +s text)
line_assoc w u h s text =
    add_assoc (w +s (u +s "," +s h +s "," +s s)) "\n" text
    ∙ add_assoc w (u +s "," +s h +s "," +s s) ("\n" +s text)
    ∙ ap (λ x. w +s x)
        (add_assoc u ("," +s h +s "," +s s) ("\n" +s text)
          ∙ ap (λ x. u +s x)
              (add_assoc "," (h +s "," +s s) ("\n" +s text)
                ∙ ap (λ x. "," +s x)
                    (add_assoc h ("," +s s) ("\n" +s text)
                      ∙ ap (λ x. h +s x) (add_assoc "," s ("\n" +s text)))))

nothing_added : (w : String) → w +s "" ≡ w
nothing_added String.[] = λ i. Append.nil "" i
nothing_added (String.◌∷◌ d w) =
    (λ i. Append.cons d w "" i) ∙ ap (λ x. String.◌∷◌ d x) (nothing_added w)

-- What is written for users with plain names is a CSV file of their records.
write_csv-IsCsvOf :
    (users : Users)
    → All HasBytes users
    → All HasPlainName users
    → (text : String) × ((w : String) → write_csv append_all users w ≡ ok (w +s text))
      × IsCsvOf text (map csv_record users)
unfolding write_csv join
write_csv-IsCsvOf [] h p = ("", λ w. ap ok (sym (nothing_added w)), no_lines)
write_csv-IsCsvOf ((username, (hash, salt)) ∷ users) ((bh, bs), hs) (p, ps) =
    let (text, writes, is_csv) = write_csv-IsCsvOf users hs ps in
    (
      username +s "," +s hex_dump hash +s "," +s hex_dump salt +s "\n" +s text,
      λ w. writes _ ∙ ap ok (line_assoc w username (hex_dump hash) (hex_dump salt) text),
      line p (hex-IsPlain (hex_dump-IsHexOf hash bh)) (hex-IsPlain (hex_dump-IsHexOf salt bs))
          is_csv,
    )

-- If lower case hexadecimal text is read back as its bytes, and the CSV reader reads files with
-- plain fields: for users whose names have no comma, quote or end of line, and whose hashes and
-- salts are bytes, a writer that takes every text is written a text that `users_from_csv` reads
-- back as the same users; of two with one name the last one counts.
pub users_from_csv-write_csv :
    (c : Crypto) (from_reader : String → List (Result ForeignError CsvRecord))
    → ReadsHex c
    → ReadsCsv from_reader
    → (users : Users) → All HasBytes users
    → All HasPlainName users
    → (text : String) × (write_csv append_all users "" ≡ ok text)
      × (users_from_csv c (from_reader text) ≡ ok (collect users))
users_from_csv-write_csv c from_reader hex csv users h p =
    let (text, writes, is_csv) = write_csv-IsCsvOf users h p in
    (
      text,
      writes "" ∙ ap ok (λ i. Append.nil text i),
      rw (csv.reads text (map csv_record users) is_csv) (users_from_csv-csv_record c hex users h),
    )
