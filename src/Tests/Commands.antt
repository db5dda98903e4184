-- ===== src/Tests/Commands.antt =====
-- The theorems of the command line, at concrete values.
use rowdy.Prelude.{String, Result, true, some, none, ok, err, [], ◌≡◌, ◌↔◌}
use rowdy.Crates.{ForeignError}
use rowdy.App.{Configuration}
use rowdy.Cli.{main, kind_of}
use rowdy.Cli.Kinds.{Kind, noop, database, sqlite, ConfigurationOf, Host}
use rowdy.Cli.Parser
use rowdy.Cli.Laws.{done, Migrated, main-done}
use rowdy.Tests.Wire.{failed}
use rowdy.Tests.Sample.{basic_scheme, world, configuration}
use rowdy.Tests.Directory.{crypto, directory, table}

abbrev read_kind : (k : Kind) → String → Result ForeignError (Configuration (ConfigurationOf k))
read_kind noop text = ok (record { token = configuration none; basic_authenticator = record {} })
read_kind (database sqlite) text =
    ok (record { token = configuration none; basic_authenticator = record { path = "users.db" } })
read_kind _ text = err failed

abbrev host : Host
host = record {
  world = world;
  basic = basic_scheme;
  crypto = crypto;
  csv_from_path = λ path headers delimiter. ok [];
  directory = directory;
  backend = λ d. record { establish = λ uri. ok 1; pool_new = λ uri. ok table };
  open_file = λ path. ok "{}";
  stdin = "";
  stdout_takes = λ text. true;
  from_reader = read_kind;
  start = λ rocket. failed;
}

main-done_example :
    (((main host "sqlite" (some (record { config = some "rowdy.json"; migrate = true }))).code
        ≡ some 0)
      ↔ Migrated host
          (kind_of "sqlite")
          (some (record { config = some "rowdy.json"; migrate = true })))
    × ((main host "sqlite" (some (record { config = some "rowdy.json"; migrate = true }))).code
          ≡ some 0
        → main host "sqlite" (some (record { config = some "rowdy.json"; migrate = true })) ≡ done)
main-done_example =
    main-done host "sqlite" (some (record { config = some "rowdy.json"; migrate = true }))
