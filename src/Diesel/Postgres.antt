-- ===== src/Diesel/Postgres.antt =====
-- diesel/src/postgres.rs: the PostgreSQL backend.
use rowdy.Prelude.{ℕ, String, Result, ◌>>=◌, map_err}
use rowdy.Error.Top.{Error}
use rowdy.Auth.Simple.{◌+s◌}
use rowdy.Diesel.{
  Backend, Database, DieselError, Connection, connection_error, from_r2d2, to_rowdy, decimal,
}

abbrev pub migration_query : String
migration_query =
    "CREATE TABLE IF NOT EXISTS users (\n" +s "    username VARCHAR(255) UNIQUE NOT NULL,\n"
    +s "    hash BYTEA NOT NULL,\n" +s "    salt BYTEA NOT NULL,\n"
    +s "    PRIMARY KEY (username)\n" +s ");"

pub record Configuration : Type 0 where
  pub host : String
  pub port : ℕ
  pub database : String
  pub user : String
  pub password : String

abbrev pub default_port : ℕ
default_port = 5432

module _ (b : Backend) where
  unfoldable pub connect : String → Result DieselError Connection
  connect uri = map_err connection_error (b.establish uri)

  unfoldable pub with_uri : String → Result DieselError Database
  unfolding connect from_r2d2
  with_uri uri = do _ ← connect uri; map_err from_r2d2 (b.pool_new uri)

  unfoldable pub with_configuration :
      String → ℕ → String → String → String → Result DieselError Database
  unfolding with_uri decimal
  with_configuration host port database user pass = with_uri (
      "postgresql://"
      +s user
      +s ":"
      +s pass
      +s "@"
      +s host
      +s ":"
      +s decimal port
      +s "/"
      +s database)

  -- The authenticator is its pool.
  unfoldable pub make_authenticator : Configuration → Result Error Database
  unfolding with_configuration to_rowdy
  make_authenticator config =
      map_err to_rowdy
        (with_configuration config.host config.port config.database config.user config.password)
