-- ===== src/Build.antt =====
-- build.rs: the build script, which stops a build with an incompatible compiler.
pub mod Laws
use Prim.Native.String
use rowdy.Prelude.{
  String, Bool, true, false, not, ◌||◌, Option, none, some, if◌then◌else◌, List, [], ◌∷◌,
}
use rowdy.Auth.Simple.{◌+s◌}

abbrev pub min_date : String
min_date = "2017-10-10"

abbrev pub min_version : String
min_version = "1.22.0-nightly"

pub data Color : Type 0 where
  blue : Color
  red_bold : Color
  white : Color
  yellow : Color

-- `version_check` and `ansi_term`, and whether a stream takes a text that is written to it.
pub record Console : Type 0 where
  pub is_nightly : Option Bool
  pub is_min_version : String → Option (Bool × String)
  pub is_min_date : String → Option (Bool × String)
  pub paint : Color → String → String
  pub stderr_takes : String → Bool
  pub stdout_takes : String → Bool

pub data Line : Type 0 where
  stderr : String → Line
  stdout : String → Line

-- What a run writes, and whether a panic ends it.
pub record Run : Type 0 where
  pub lines : List Line
  pub aborts : Bool

abbrev pub aborting : Run
aborting = record { lines = []; aborts = true }

abbrev pub finished : Run
finished = record { lines = []; aborts = false }

module _ (c : Console) where
  -- `printerr!` and `println!` panic where the stream fails; `rest` is what the script does next.
  printerr : String → Run → Run
  printerr text rest =
      if c.stderr_takes text
      then record { lines = stderr text ∷ rest.lines; aborts = rest.aborts }
      else aborting

  println : String → Run → Run
  println text rest =
      if c.stdout_takes text
      then record { lines = stdout text ∷ rest.lines; aborts = rest.aborts }
      else aborting

  print_version_err : String → String → Run → Run
  unfolding printerr
  print_version_err version date rest =
      printerr
        (c.paint white "Installed version is:"
          +s " "
          +s c.paint yellow (version +s " (" +s date +s ")")
          +s ". "
          +s c.paint white "Minimum required:"
          +s " "
          +s c.paint yellow (min_version +s " (" +s min_date +s ")"))
        rest

  not_nightly : String → String → Run
  unfolding printerr print_version_err
  not_nightly version date =
      printerr
        (c.paint red_bold "Error:"
          +s " "
          +s c.paint white "rowdy requires a nightly version of Rust.")
        (print_version_err version date (
          printerr
            (c.paint blue "See the README ("
              +s c.paint white "https://github.com/lawliet89/rowdy"
              +s c.paint blue ") for more information.")
            aborting))

  too_old : String → String → Run
  unfolding printerr print_version_err
  too_old version date =
      printerr
        (c.paint red_bold "Error:"
          +s " "
          +s c.paint white "rowdy requires a more recent version of rustc.")
        (printerr
          (c.paint blue "Use `"
            +s c.paint white "rustup update"
            +s c.paint blue "` or your preferred method to update Rust.")
          (print_version_err version date aborting))

  unchecked : Run
  unfolding println
  unchecked =
      println "cargo:warning=rowdy was unable to check rustc compatibility."
        (println "cargo:warning=Build may fail due to incompatible rustc version." finished)

  check : Option Bool → Option (Bool × String) → Option (Bool × String) → Run
  unfolding not_nightly too_old unchecked
  check (some is_nightly) (some (ok_version, version)) (some (ok_date, date)) =
      if not is_nightly
      then not_nightly version date
      else (if not ok_version || not ok_date then too_old version date else finished)
  check (some _) (some _) none = unchecked
  check (some _) none _ = unchecked
  check none _ _ = unchecked

  unfoldable pub main : Run
  unfolding check
  main = check c.is_nightly (c.is_min_version min_version) (c.is_min_date min_date)
