-- ===== src/Cli/Exits.antt =====
-- Command lines that the parser accepts (cli/src/main.rs): neither `unreachable!` nor `expect` is
-- reached.
use rowdy.Prelude.{String, true, Option, some, List, [], ◌∷◌, ◌≡◌, ◌⊎◌}
use rowdy.Error.Top
use rowdy.Error.Top.{Error}
use rowdy.Cli.Kinds.{Host}
use rowdy.Cli.{ArgMatches}
use rowdy.Cli.Parser.{SubCommand, App}
use rowdy.Cli.Laws.{is_required}

abbrev pub Listed : SubCommand → List SubCommand → Type 0
Listed s [] = ⊥
Listed s (t ∷ ts) = (s ≡ t) ⊎ Listed s ts

-- What `clap` documents of the matches of a parser with `SubcommandRequired`: they name one of its
-- subcommands, and an argument that the subcommand requires has a value.
pub record IsAccepted (parser : App) (name : String) (args : Option ArgMatches) : Type 0 where
  pub subcommand : SubCommand
  pub listed : Listed subcommand parser.subcommands
  pub named : subcommand.name ≡ name
  pub matches : ArgMatches
  pub given : args ≡ some matches
  pub present :
      is_required subcommand.args "config" ≡ true → (path : String) × (matches.config ≡ some path)

-- Standard output takes every text.
pub record Takes (h : Host) : Type 0 where
  pub taken : (text : String) → h.stdout_takes text ≡ true
