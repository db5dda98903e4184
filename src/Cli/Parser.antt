-- ===== src/Cli/Parser.antt =====
-- cli/src/main.rs: `make_parser`, as the data that it hands to `clap`.
use rowdy.Prelude.{ℕ, String, Bool, true, false, Option, none, some, List, [], ◌∷◌}
use rowdy.Auth.Simple.{◌+s◌}

pub record Arg : Type 0 where
  pub name : String
  pub index : Option ℕ
  pub long : Option String
  pub help : String
  pub takes_value : Bool
  pub value_name : Option String
  pub empty_values : Bool
  pub required : Bool

pub record SubCommand : Type 0 where
  pub name : String
  pub about : String
  pub args : List Arg

pub record App : Type 0 where
  pub name : String
  pub bin_name : String
  pub version : String
  pub author : String
  pub about : String
  pub settings : List String
  pub global_settings : List String
  pub subcommands : List SubCommand

abbrev pub config_arg : Arg
config_arg = record {
  name = "config";
  index = some 1;
  long = none;
  help = "Specifies the path to read the configuration from. Use - to refer to STDIN";
  takes_value = true;
  value_name = some "config_path";
  empty_values = false;
  required = true;
}

abbrev pub migrate_arg : Arg
migrate_arg = record {
  name = "migrate";
  index = none;
  long = some "migrate";
  help =
      "Instead of launching the server, perform a migration to create the bare"
      +s "minimum table for Rowdy to work. The migration is idempotent. See "
      +s "https://lawliet89.github.io/rowdy/rowdy_diesel/schema/index.html "
      +s "for schema information";
  takes_value = false;
  value_name = none;
  empty_values = true;
  required = false;
}

abbrev pub noop : SubCommand
noop = record {
  name = "noop";
  about = "Launch rowdy with a `noop` authenticator.";
  args = config_arg ∷ [];
}

abbrev pub csv : SubCommand
csv = record {
  name = "csv";
  about = "Launch rowdy with a `csv` authenticator backed by a CSV user database.";
  args = config_arg ∷ [];
}

abbrev pub ldap : SubCommand
ldap = record {
  name = "ldap";
  about = "Launch rowdy with a `ldap` authenticator backed by a LDAP directory.";
  args = config_arg ∷ [];
}

abbrev pub mysql : SubCommand
mysql = record {
  name = "mysql";
  about = "Launch rowdy with a `mysql` authenticator backed by a MySQL table.";
  args = migrate_arg ∷ config_arg ∷ [];
}

abbrev pub sqlite : SubCommand
sqlite = record {
  name = "sqlite";
  about = "Launch rowdy with a `sqlite` authenticator backed by a SQLite table.";
  args = migrate_arg ∷ config_arg ∷ [];
}

abbrev pub postgres : SubCommand
postgres = record {
  name = "postgres";
  about = "Launch rowdy with a `postgres` authenticator backed by a PostgresSQL table.";
  args = migrate_arg ∷ config_arg ∷ [];
}

-- `about` of the whole program.
abbrev about_text : String
about_text =
    "\nProvide a configuration JSON file to run `rowdy` with. For available fields and examples for the\n"
    +s "JSON configuration, refer to the documentation at\n"
    +s "https://lawliet89.github.io/rowdy/rowdy/struct.Configuration.html\n" +s "\n"
    +s "You can also, additionally, configure Rocket by using `Rocket.toml` file.\n"
    +s "See https://rocket.rs/guide/overview#configuration\n" +s "\n"
    +s "The `noop` subcommand allows all username and passwords to authenticate.\n"
    +s "The `csv` subcommand uses a CSV file as its username database. See\n"
    +s "https://lawliet89.github.io/rowdy/rowdy/auth/simple/index.html for the database format.\n"
    +s "The `mysql`, `postgres`, and `sqlite` subcommands uses a their respective databases for usernames.\n"
    +s "\n"
    +s "The subcommands will change the format expected by the `basic_authenticator` key of the\n"
    +s "configuration JSON.\n"
    +s "  - noop: The key is expected to be simply an empty map: i.e. `{}`\n"
    +s "  - csv: The key should behave according to the format documented at\n"
    +s "    https://lawliet89.github.io/rowdy/rowdy/auth/struct.SimpleAuthenticatorConfiguration.html\n"
    +s "  - ldap: The key should behave according to the format documented at\n"
    +s "    https://lawliet89.github.io/rowdy/rowdy/auth/struct.LdapAuthenticator.html\n"
    +s "  - mysql: The key should behave according to the format documented at\n"
    +s "    https://lawliet89.github.io/rowdy/rowdy_diesel/mysql/struct.Configuration.html\n"
    +s "  - sqlite: The key should behave according to the format documented at\n"
    +s "    https://lawliet89.github.io/rowdy/rowdy_diesel/sqlite/struct.Configuration.html\n"
    +s "        "

-- `crate_version!` and `crate_authors!` are what the build gives.
abbrev pub make_parser : String → String → App
make_parser crate_version crate_authors = record {
  name = "rowdy";
  bin_name = "rowdy";
  version = crate_version;
  author = crate_authors;
  about = about_text;
  settings = "SubcommandRequired" ∷ "VersionlessSubcommands" ∷ "PropagateGlobalValuesDown" ∷ [];
  global_settings = "DontCollapseArgsInUsage" ∷ "NextLineHelp" ∷ [];
  subcommands = noop ∷ csv ∷ ldap ∷ mysql ∷ sqlite ∷ postgres ∷ [];
}
