-- ===== src/Cli.antt =====
-- cli/src/main.rs: the command line, and the runs that it starts.
pub mod Parser
pub mod Kinds
pub mod Laws
pub mod Exits
use rowdy.Prelude.{
  ℕ, String, Bool, true, false, Option, none, some, Result, ok, err, ◌>>=◌, map_err, Partial, lift,
  unwrap, raise, panic, if◌then◌else◌, ◌==◌, List, [], ◌∷◌, ◌++◌,
}
use rowdy.Error.Top
use rowdy.Error.Top.{Error, generic_error, io_error, launch_error}
use rowdy.Auth.Simple.{◌+s◌}
use rowdy.App.{Configuration, ignite, routes}
use rowdy.Cli.Kinds.{
  Kind, noop, csv, ldap, database, DieselKind, mysql, sqlite, postgres, ConfigurationOf, Host,
  make_database, make_authenticator, migrate,
}

-- The matches of a subcommand: the value of `config`, and whether `migrate` is present.
pub record ArgMatches : Type 0 where
  pub config : Option String
  pub migrate : Bool

-- A run: the lines that it prints, and how it ends.
pub record Run : Type 0 where
  pub printed : List String
  pub result : Partial Error (Unit {0})

-- A whole run of the program, which has no exit code of its own after a panic.
pub record Exit : Type 0 where
  pub printed : List String
  pub code : Option ℕ

-- The name arms of `run_subcommand`; any other name is `unreachable!`.
unfoldable pub kind_of : String → Option Kind
kind_of name =
    if name == "noop"
    then some noop
    else if name == "csv"
    then some csv
    else if name == "ldap"
    then some ldap
    else if name == "mysql"
    then some (database mysql)
    else if name == "sqlite"
    then some (database sqlite)
    else if name == "postgres"
    then some (database postgres)
    else none

module _ (h : Host) where
  unfoldable pub input_reader : String → Result Error String
  input_reader path = if path == "-" then ok h.stdin else map_err io_error (h.open_file path)

  unfoldable pub read_config :
      (k : Kind) → String → Result Error (Configuration (ConfigurationOf k))
  read_config k reader = map_err (λ e. generic_error e.display) (h.from_reader k reader)

  -- The parts that `launch` and `run_diesel` share.
  ignite_and_launch : (k : Kind) → Configuration (ConfigurationOf k) → Partial Error (Unit {0})
  ignite_and_launch k config = do
    rocket ← ignite h.world (make_authenticator h k) config
    err (raise (launch_error (h.start (record rocket { mounted = routes }))))

  pub configured : (k : Kind) → ArgMatches → Partial Error (Configuration (ConfigurationOf k))
  unfolding input_reader read_config
  configured k args = do
    path ← unwrap args.config
    reader ← lift (input_reader path)
    lift (read_config k reader)

  unfoldable pub launch : Kind → ArgMatches → Partial Error (Unit {0})
  unfolding configured ignite_and_launch
  launch k args = do config ← configured k args; ignite_and_launch k config

  make_and_migrate :
      (d : DieselKind) → Configuration (ConfigurationOf (database d)) → Result Error (Unit {0})
  make_and_migrate d config = do
    authenticator ← make_database h d config.basic_authenticator
    migrate h d authenticator

  -- `println!` panics where standard output fails; `rest` is what the run does next.
  println : String → Run → Run
  println text rest =
      if h.stdout_takes text
      then record { printed = text ∷ rest.printed; result = rest.result }
      else record { printed = []; result = err panic }

  -- The second line is printed once the migration succeeded.
  complete : Result Error (Unit {0}) → Run
  unfolding println
  complete (ok _) = println "Migration complete." (record { printed = []; result = ok tt })
  complete (err e) = record { printed = []; result = err (raise e) }

  run_configured :
      (d : DieselKind) → Bool → Partial Error (Configuration (ConfigurationOf (database d))) → Run
  unfolding ignite_and_launch make_and_migrate complete println
  run_configured d migrating (err e) = record { printed = []; result = err e }
  run_configured d true (ok config) =
      println "Performing migration..." (complete (make_and_migrate d config))
  run_configured d false (ok config) = record {
    printed = [];
    result = ignite_and_launch (database d) config;
  }

  unfoldable pub run_diesel : DieselKind → ArgMatches → Run
  unfolding configured run_configured
  run_diesel d args = run_configured d args.migrate (configured (database d) args)

  run_kind : Kind → ArgMatches → Run
  run_kind noop args = record { printed = []; result = launch noop args }
  run_kind csv args = record { printed = []; result = launch csv args }
  run_kind ldap args = record { printed = []; result = launch ldap args }
  run_kind (database d) args = run_diesel d args

  dispatch : Option Kind → Option ArgMatches → Run
  unfolding run_kind
  dispatch (some k) (some args) = run_kind k args
  dispatch _ _ = record { printed = []; result = err panic }

  unfoldable pub run_subcommand : String → Option ArgMatches → Run
  unfolding dispatch kind_of
  run_subcommand name args = dispatch (kind_of name) args

  exit_of : List String → Partial Error (Unit {0}) → Exit
  exit_of printed (ok _) = record { printed = printed; code = some 0 }
  exit_of printed (err (raise e)) =
      let line = "Error: " +s Top.display e in
      if h.stdout_takes line
      then record { printed = printed ++ (line ∷ []); code = some 1 }
      else record { printed = printed; code = none }
  exit_of printed (err panic) = record { printed = printed; code = none }

  -- The name and the matches are what `make_parser` made of the command line.
  unfoldable pub main : String → Option ArgMatches → Exit
  unfolding run_subcommand exit_of
  main name args = let run = run_subcommand name args in exit_of run.printed run.result
