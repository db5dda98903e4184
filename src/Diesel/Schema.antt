-- ===== src/Diesel/Schema.antt =====
-- diesel/src/schema.rs: the table that the authenticators read, and the table that the migrations
-- of the three backends create.
use rowdy.Prelude.{String, List, [], ◌∷◌, ◌≡◌, refl, if◌then◌else◌, ◌==◌}
use rowdy.Auth.Simple.{◌+s◌}
use rowdy.Diesel.Mysql
use rowdy.Diesel.Sqlite
use rowdy.Diesel.Postgres

-- The SQL types that the table names.
pub data SqlType : Type 0 where
  varchar binary varbinary : SqlType

pub record Column : Type 0 where
  pub name : String
  pub sql_type : SqlType

pub record Table : Type 0 where
  pub name : String
  pub primary_key : String
  pub columns : List Column

-- `table! { users (username) { ... } }`.
abbrev pub users : Table
users = record {
  name = "users";
  primary_key = "username";
  columns =
      record { name = "username"; sql_type = varchar }
      ∷ record { name = "hash"; sql_type = binary }
      ∷ record { name = "salt"; sql_type = varbinary }
      ∷ [];
}

-- How a backend writes names, and its name for each type.
record Dialect : Type 0 where
  quoted : String → String
  type_name : SqlType → String

abbrev quote_with : String → String → String
quote_with quote name = quote +s name +s quote

abbrev mysql_type : SqlType → String
mysql_type varchar = "VARCHAR(255)"
mysql_type binary = "BINARY(32)"
mysql_type varbinary = "VARBINARY(255)"

abbrev sqlite_type : SqlType → String
sqlite_type varchar = "VARCHAR(255)"
sqlite_type binary = "BLOB(32)"
sqlite_type varbinary = "BLOB(255)"

abbrev postgres_type : SqlType → String
postgres_type varchar = "VARCHAR(255)"
postgres_type binary = "BYTEA"
postgres_type varbinary = "BYTEA"

-- A column that is the key is unique; none may be null.
column : Dialect → String → Column → String
column d key c =
    "    "
    +s d.quoted c.name
    +s " "
    +s d.type_name c.sql_type
    +s (if c.name == key then " UNIQUE" else "")
    +s " NOT NULL,\n"

columns : Dialect → String → List Column → String
unfolding column
columns d key [] = ""
columns d key (c ∷ cs) = column d key c +s columns d key cs

-- The statement that creates a table where there is none.
create_table : Dialect → Table → String
unfolding columns
create_table d t =
    "CREATE TABLE IF NOT EXISTS "
    +s d.quoted t.name
    +s " (\n"
    +s columns d t.primary_key t.columns
    +s "    PRIMARY KEY ("
    +s d.quoted t.primary_key
    +s ")\n"
    +s ");"

-- The three migrations create the table that the schema declares, each in its own dialect.
migration_query-users :
    (Mysql.migration_query
      ≡ create_table (record { quoted = quote_with "`"; type_name = mysql_type }) users)
    × (Sqlite.migration_query
        ≡ create_table (record { quoted = quote_with "'"; type_name = sqlite_type }) users)
    × (Postgres.migration_query
        ≡ create_table (record { quoted = quote_with ""; type_name = postgres_type }) users)
unfolding create_table
migration_query-users = (refl, refl, refl)
