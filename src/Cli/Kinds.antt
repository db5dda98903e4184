-- ===== src/Cli/Kinds.antt =====
-- The kinds of authenticator that the subcommands of cli/src/main.rs launch, with the
-- configuration and the authenticator of each.
use rowdy.Prelude.{String, Bool, ℕ, List, Result, ok, ◌>>=◌, map_err}
use rowdy.Crates.{ForeignError}
use rowdy.Crates.World.{World}
use rowdy.Error.Top.{Error}
use rowdy.Auth.Header
use rowdy.Auth.Header.{Basic, Scheme}
use rowdy.Auth.Authenticator.{Authenticator}
use rowdy.Auth.Noop
use rowdy.Auth.Noop.{NoOpConfiguration}
use rowdy.Auth.Util.{Crypto}
use rowdy.Auth.Simple
use rowdy.Auth.Simple.{SimpleAuthenticatorConfiguration, CsvRecord}
use rowdy.Auth.Ldap
use rowdy.Diesel
use rowdy.Diesel.{Backend, Database, diesel, to_rowdy}
use rowdy.Diesel.Mysql
use rowdy.Diesel.Sqlite
use rowdy.Diesel.Postgres
use rowdy.App.{Configuration, Rocket}

pub data DieselKind : Type 0 where
  mysql sqlite postgres : DieselKind

-- The arms of `run_subcommand`: three run by `launch`, three by `run_diesel`.
pub data Kind : Type 0 where
  noop csv ldap : Kind
  database : DieselKind → Kind

abbrev pub ConfigurationOf : Kind → Type 0
ConfigurationOf noop = NoOpConfiguration
ConfigurationOf csv = SimpleAuthenticatorConfiguration
ConfigurationOf ldap = Ldap.LdapAuthenticator
ConfigurationOf (database mysql) = Mysql.Configuration
ConfigurationOf (database sqlite) = Sqlite.Configuration
ConfigurationOf (database postgres) = Postgres.Configuration

-- What the program gets from its crates and its environment: the file system, standard input, the
-- JSON reader of each kind's configuration, and the start of a Rocket, which comes back with an
-- error only.
pub record Host : Type 0 where
  pub world : World
  pub basic : Scheme Basic
  pub crypto : Crypto
  pub csv_from_path : String → Bool → ℕ → Result ForeignError (List (Result ForeignError CsvRecord))
  pub directory : Ldap.Ldap
  pub backend : DieselKind → Backend
  pub open_file : String → Result ForeignError String
  pub stdin : String
  pub stdout_takes : String → Bool
  pub from_reader : (k : Kind) → String → Result ForeignError (Configuration (ConfigurationOf k))
  pub start : Rocket → ForeignError

module _ (h : Host) where
  -- A database authenticator is its pool.
  unfoldable pub make_database :
      (d : DieselKind) → ConfigurationOf (database d) → Result Error Database
  make_database mysql config = Mysql.make_authenticator (h.backend mysql) config
  make_database sqlite config = Sqlite.make_authenticator (h.backend sqlite) config
  make_database postgres config = Postgres.make_authenticator (h.backend postgres) config

  unfoldable pub make_authenticator :
      (k : Kind) → ConfigurationOf k → Result Error (Authenticator Basic)
  make_authenticator noop config = Noop.make_authenticator h.basic Header.username config
  make_authenticator csv config = Simple.make_authenticator h.crypto h.csv_from_path config
  make_authenticator ldap config = Ldap.make_authenticator h.directory config
  make_authenticator (database d) config = do db ← make_database d config; ok (diesel h.crypto db)

  abbrev migration_query : DieselKind → String
  migration_query mysql = Mysql.migration_query
  migration_query sqlite = Sqlite.migration_query
  migration_query postgres = Postgres.migration_query

  -- `migrate` of the authenticator of a kind.
  unfoldable pub migrate : DieselKind → Database → Result Error (Unit {0})
  migrate d db = map_err to_rowdy (Diesel.migrate h.crypto db (migration_query d))
