-- ===== src/Tests/Directory.antt =====
-- The crates of the identity providers at small values: a hash that keeps the password, a
-- directory and a table with one user each.
use native.Mathlib.Decide.{ℕ_discrete}
use Prim.Native.Char.{Char, code}
use rowdy.Auth.Util.Hex.{Digit, IsHexOf, ReadsHex}
use rowdy.Prelude.{
  Option, none, text_discrete, ◌-◌, ◌*◌, ◌+◌, ltb, if◌then◌else◌, ◌>>=◌, String, ℕ, true, some,
  Result, ok, err, List, [], ◌∷◌, ◌++◌, ◌≡◌, ◌↔◌, refl, arith, is_ok,
}
use rowdy.Crates.{JsonValue, JsonItems, nil, cons, array, string, null, ForeignError}
use rowdy.Auth.Header.{Basic}
use rowdy.Auth.Util.{Crypto}
use rowdy.Auth.Simple.{Users}
use rowdy.Auth.Simple.Laws.{Compares}
use rowdy.Auth.Ldap.{User as LdapUser, Ldap, LdapAuthenticator, SearchEntry}
use rowdy.Auth.Ldap.Laws
use rowdy.Diesel
use rowdy.Diesel.{Database}
use rowdy.Diesel.Laws as DieselLaws
use rowdy.Tests.Wire.{failed}

bytes_discrete : Discrete (List ℕ)
bytes_discrete = hlevel (ℕ_discrete)

abbrev answer_if : {P : Type 0} → Dec P → Result (Unit {0}) (Unit {0})
answer_if (yes _) = ok tt
answer_if (no _) = err tt

pub compare_bytes : List ℕ → List ℕ → Result (Unit {0}) (Unit {0})
compare_bytes a b = answer_if (bytes_discrete a b)

abbrev pub salt_of_bob : List ℕ
salt_of_bob = 1 ∷ 2 ∷ 3 ∷ 4 ∷ 5 ∷ 6 ∷ 7 ∷ 8 ∷ []

-- A digest for salts of at least 8 bytes.
abbrev digest : List ℕ → List ℕ → Option (List ℕ)
digest password (a ∷ b ∷ c ∷ d ∷ e ∷ f ∷ g ∷ h ∷ salt) =
    some (password ++ (a ∷ b ∷ c ∷ d ∷ e ∷ f ∷ g ∷ h ∷ salt))
digest password _ = none

abbrev pub crypto : Crypto
crypto = record {
  argon2i = digest;
  verify_slices_are_equal = compare_bytes;
  fill = λ draw n. some salt_of_bob;
  from_hex = λ s. err "not hexadecimal";
}

answer_if_iff : {P : Type 0} (d : Dec P) → (is_ok (answer_if d) ≡ true) ↔ P
answer_if_iff (yes p) = (λ h. p, λ q. refl)
answer_if_iff (no n) = (λ h. absurd (ground arith), λ p. absurd (n p))

pub crypto-Compares : Compares crypto
unfolding compare_bytes
crypto-Compares = record { equal_iff = λ a b. answer_if_iff (bytes_discrete a b) }

-- The password `pw`, salted.
abbrev pub users : Users
users = ("bob", (112 ∷ 119 ∷ salt_of_bob, salt_of_bob)) ∷ []

abbrev pub bob : Basic
bob = record { username = "bob"; password = some "pw" }

abbrev pub entry_of_bob : SearchEntry
entry_of_bob = record { dn = "uid=bob"; attrs = ("mail", "bob@example" ∷ []) ∷ [] }

-- A user is written as its name, and only this user's value is known.
abbrev pub user_of_bob : LdapUser
user_of_bob = record { dn = "uid=bob"; attributes = ("mail", "bob@example" ∷ []) ∷ [] }

abbrev pub row_of_bob : Diesel.User
row_of_bob = record { username = "bob"; hash = 112 ∷ 119 ∷ salt_of_bob; salt = salt_of_bob }

User_discrete : Discrete LdapUser
User_discrete = hlevel (text_discrete)

Row_discrete : Discrete Diesel.User
Row_discrete = hlevel (ℕ_discrete, text_discrete)

abbrev write_if : {P : Type 0} → Dec P → Result ForeignError JsonValue
write_if (yes _) = ok (null)
write_if (no _) = err failed

pub write_user : LdapUser → Result ForeignError JsonValue
write_user u = write_if (User_discrete u user_of_bob)

pub write_row : Diesel.User → Result ForeignError JsonValue
write_row u = write_if (Row_discrete u row_of_bob)

abbrev pub read_bob : {A : Type 0} → A → JsonValue → Result ForeignError A
read_bob a (null) = ok a
read_bob a _ = err failed

write_if_read :
    {A : Type 0} (u a : A) (d : Dec (u ≡ a)) (v : JsonValue)
    → write_if d ≡ ok v
    → read_bob a v ≡ ok u
write_if_read u a (yes e) v h = ground arith
write_if_read u a (no n) v h = absurd (ground arith)

write_if_same : {P : Type 0} (d : Dec P) → P → write_if d ≡ ok (null)
write_if_same (yes _) p = refl
write_if_same (no n) p = absurd (n p)

pub write_user_of_bob : write_user user_of_bob ≡ ok (null)
unfolding write_user
write_user_of_bob = write_if_same (User_discrete user_of_bob user_of_bob) refl

pub write_row_of_bob : write_row row_of_bob ≡ ok (null)
unfolding write_row
write_row_of_bob = write_if_same (Row_discrete row_of_bob row_of_bob) refl

abbrev pub items : List String → JsonItems
items [] = nil
items (s ∷ ss) = cons (string s) (items ss)

-- A directory that finds one entry, and lets every bind succeed.
abbrev pub directory : Ldap
directory = record {
  establish = λ index address. ok tt;
  simple_bind = λ c dn password. ok (ok tt);
  search = λ c base filter attributes. ok (ok (entry_of_bob ∷ []));
  escape = λ s. s;
  strfmt = λ s values. ok s;
  user_to_value = write_user;
  user_from_value = read_bob user_of_bob;
  attribute_to_value = λ values. ok (array (items values));
}

pub directory-ReadsUsers : Laws.ReadsUsers directory
unfolding write_user
directory-ReadsUsers = record {
  reads = λ u v h. write_if_read u user_of_bob (User_discrete u user_of_bob) v h;
}

abbrev pub ldap_settings : LdapAuthenticator
ldap_settings = record {
  address = "ldap://localhost";
  bind_dn = "cn=searcher";
  bind_password = "secret";
  search_base = "ou=people";
  search_filter = some "(uid={account})";
  include_attributes = "mail" ∷ "phone" ∷ "mail" ∷ [];
  attributes_namespace = some "ldap";
  subject_attribute = some "mail";
}

-- A table with one row, which it gives for any name.
abbrev pub table : Database
table = record {
  pool_get = ok 3;
  load = λ c name. ok (row_of_bob ∷ []);
  batch_execute = λ c query. ok tt;
  user_to_value = write_row;
  user_from_value = read_bob row_of_bob;
}

pub table-ReadsUsers : DieselLaws.ReadsUsers table
unfolding write_row
table-ReadsUsers = record {
  reads = λ u v h. write_if_read u row_of_bob (Row_discrete u row_of_bob) v h;
}

answer_if_same : {P : Type 0} (d : Dec P) → P → answer_if d ≡ ok tt
answer_if_same (yes _) p = refl
answer_if_same (no n) p = absurd (n p)

pub compare_same : (a : List ℕ) → compare_bytes a a ≡ ok tt
unfolding compare_bytes
compare_same a = answer_if_same (bytes_discrete a a) refl

-- A reader of lower case hexadecimal text.
abbrev pub digit_value : Char → ℕ
digit_value d = if ltb (code d) 58 then code d - 48 else code d - 87

pub read_hex : String → Result String (List ℕ)
read_hex String.[] = ok []
read_hex (String.◌∷◌ d String.[]) = err "odd length"
read_hex (String.◌∷◌ d (String.◌∷◌ e s)) = do
  bytes ← read_hex s
  ok ((digit_value d * 16 + digit_value e) ∷ bytes)

digit_value_lem : (d : Char) (n : ℕ) → Digit d n → digit_value d ≡ n
digit_value_lem d n h = ground arith

abbrev pub hex_crypto : Crypto
hex_crypto = record crypto { from_hex = read_hex }

read_hex-IsHexOf : (s : String) (bs : List ℕ) → IsHexOf s bs → read_hex s ≡ ok bs
unfolding read_hex
read_hex-IsHexOf s bs IsHexOf.nil = refl
read_hex-IsHexOf s bs (IsHexOf.pair {c} {d} {high} {low} p q e h) =
    rw (read_hex-IsHexOf _ _ h) (rw (digit_value_lem c high p, digit_value_lem d low q, e))

pub hex_crypto-ReadsHex : ReadsHex hex_crypto
hex_crypto-ReadsHex = record { reads = read_hex-IsHexOf }
