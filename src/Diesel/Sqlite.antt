-- ===== src/Diesel/Sqlite.antt =====
-- diesel/src/sqlite.rs: the SQLite backend.
use rowdy.Prelude.{String, Result, ◌>>=◌, map_err}
use rowdy.Error.Top.{Error}
use rowdy.Auth.Simple.{◌+s◌}
use rowdy.Diesel.{Backend, Database, DieselError, Connection, connection_error, from_r2d2, to_rowdy}

abbrev pub migration_query : String
migration_query =
    "CREATE TABLE IF NOT EXISTS 'users' (\n" +s "    'username' VARCHAR(255) UNIQUE NOT NULL,\n"
    +s "    'hash' BLOB(32) NOT NULL,\n" +s "    'salt' BLOB(255) NOT NULL,\n"
    +s "    PRIMARY KEY ('username')\n" +s ");"

pub record Configuration : Type 0 where
  pub path : String

module _ (b : Backend) where
  unfoldable pub connect : String → Result DieselError Connection
  connect uri = map_err connection_error (b.establish uri)

  unfoldable pub with_path : String → Result DieselError Database
  unfolding connect from_r2d2
  with_path path = do _ ← connect path; map_err from_r2d2 (b.pool_new path)

  -- The authenticator is its pool.
  unfoldable pub make_authenticator : Configuration → Result Error Database
  unfolding with_path to_rowdy
  make_authenticator config = map_err to_rowdy (with_path config.path)
