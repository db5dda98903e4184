-- ===== src/Cli/Laws.antt =====
-- What a run of the program comes to.
use rowdy.Prelude.{
  String, Bool, true, false, Option, none, some, ok, err, raise, panic, List, [], ◌∷◌, ◌≡◌, ◌↔◌,
  ◌≢◌, Result, Bool-cases, inl, inr, refl, arith, >>=-eq-ok, ◌==◌, All, if◌then◌else◌, Partial, ap,
}
use rowdy.Error.Top.{Error}
use rowdy.App.{Configuration, ignite}
use rowdy.Cli.Kinds.{
  Kind, noop, csv, ldap, database, DieselKind, mysql, sqlite, postgres, ConfigurationOf, Host,
  make_database, make_authenticator, migrate,
}
use rowdy.Diesel.{Database}
use rowdy.Cli.{
  ArgMatches, Exit, kind_of, configured, ignite_and_launch, make_and_migrate, complete, launch,
  run_configured, println, Run, run_diesel, run_kind, dispatch, run_subcommand, exit_of, main,
}
use rowdy.Cli.Parser.{SubCommand, Arg, make_parser}

abbrev pub is_diesel : Kind → Bool
is_diesel (database d) = true
is_diesel _ = false

-- Whether the parser insists on an argument.
abbrev pub is_required : List Arg → String → Bool
is_required [] name = false
is_required (a ∷ as') name = if a.name == name then a.required else is_required as' name

abbrev pub has_arg : List Arg → String → Bool
has_arg [] name = false
has_arg (a ∷ as') name = if a.name == name then true else has_arg as' name

-- A subcommand that `run_subcommand` knows, that requires the path of the configuration, and that
-- has the `migrate` flag exactly if it runs by `run_diesel`.
abbrev pub IsKnown : SubCommand → Type 0
IsKnown s =
    (k : Kind) × (kind_of s.name ≡ some k)
    × (is_required s.args "config" ≡ true)
    × (has_arg s.args "migrate" ≡ is_diesel k)

-- Every subcommand that the parser declares is known.
pub make_parser-kind_of :
    (version author : String) → All IsKnown (make_parser version author).subcommands
unfolding kind_of
make_parser-kind_of version author = (
  (noop, refl, refl, refl),
  (
    (csv, refl, refl, refl),
    (
      (ldap, refl, refl, refl),
      (
        (database mysql, refl, refl, refl),
        ((database sqlite, refl, refl, refl), ((database postgres, refl, refl, refl), tt)),
      ),
    ),
  ),
)

-- A successful run: its lines, and the exit code 0.
abbrev pub done : Exit
done = record { printed = "Performing migration..." ∷ "Migration complete." ∷ []; code = some 0 }

module _ (h : Host) where
  ignite_and_launch-ne-ok :
      (k : Kind) (config : Configuration (ConfigurationOf k)) → ignite_and_launch h k config ≢ ok tt
  unfolding ignite_and_launch
  ignite_and_launch-ne-ok k config e =
      let (rocket, lit, e1) = >>=-eq-ok (ignite h.world (make_authenticator h k) config) _ e in
      ground arith

  launch-ne-ok : (k : Kind) (matches : ArgMatches) → launch h k matches ≢ ok tt
  unfolding launch
  launch-ne-ok k matches e =
      let (config, read, e1) = >>=-eq-ok (configured h k matches) _ e in
      ignite_and_launch-ne-ok k config e1

  -- The flag was given, the configuration read, the database reached, its migration done, and both
  -- lines were taken by standard output.
  pub record HasMigrated (d : DieselKind) (matches : ArgMatches) : Type 0 where
    pub flag : matches.migrate ≡ true
    pub config : Configuration (ConfigurationOf (database d))
    pub config_is : configured h (database d) matches ≡ ok config
    pub db : Database
    pub db_is : make_database h d config.basic_authenticator ≡ ok db
    pub migrated : migrate h d db ≡ ok tt
    pub first_taken : h.stdout_takes "Performing migration..." ≡ true
    pub second_taken : h.stdout_takes "Migration complete." ≡ true

  make_and_migrate_iff :
      (d : DieselKind) (config : Configuration (ConfigurationOf (database d)))
      → (make_and_migrate h d config ≡ ok tt) ↔ (
          (db : Database) × (make_database h d config.basic_authenticator ≡ ok db)
          × (migrate h d db ≡ ok tt))
  unfolding make_and_migrate
  make_and_migrate_iff d config =
      (λ e. >>=-eq-ok (make_database h d config.basic_authenticator) _ e, λ e. rw e.1 e.2)

  println-eq-ok :
      (text : String) (rest : Run)
      → (println h text rest).result ≡ ok tt
      → (h.stdout_takes text ≡ true) × (rest.result ≡ ok tt)
  unfolding println
  println-eq-ok text rest r = elim (Bool-cases (h.stdout_takes text)) [
    | inl taken ↦ (taken, ground arith)
    | inr refused ↦ absurd (ground arith)
  ]

  complete-eq-ok :
      (m : Result Error (Unit {0}))
      → (complete h m).result ≡ ok tt
      → (m ≡ ok tt) × (h.stdout_takes "Migration complete." ≡ true)
  unfolding complete
  complete-eq-ok (ok tt) r = (refl, (println-eq-ok "Migration complete." _ r).0)
  complete-eq-ok (err e) r = absurd (ground arith)

  run_configured-eq-ok :
      (d : DieselKind) (b : Bool) (m : Partial Error (Configuration (ConfigurationOf (database d))))
      → (run_configured h d b m).result ≡ ok tt
      → (b ≡ true)
        × (config : Configuration (ConfigurationOf (database d))) × (m ≡ ok config)
        × (make_and_migrate h d config ≡ ok tt)
        × (h.stdout_takes "Performing migration..." ≡ true)
        × (h.stdout_takes "Migration complete." ≡ true)
  unfolding run_configured
  run_configured-eq-ok d b (err e) r = absurd (ground arith)
  run_configured-eq-ok d true (ok config) r =
      let (first, completed) = println-eq-ok "Performing migration..." _ r in
      let (migrated, second) = complete-eq-ok (make_and_migrate h d config) completed in
      (refl, config, refl, migrated, first, second)
  run_configured-eq-ok d false (ok config) r =
      absurd (ignite_and_launch-ne-ok (database d) config r)

  run_diesel-HasMigrated :
      (d : DieselKind) (matches : ArgMatches)
      → (run_diesel h d matches).result ≡ ok tt
      → HasMigrated d matches
  unfolding run_diesel
  run_diesel-HasMigrated d matches r =
      let (flag, config, read, steps, first, second) =
        run_configured-eq-ok d matches.migrate (configured h (database d) matches) r in
      let (db, made, migrated) = (make_and_migrate_iff d config).0 steps in
      record {
        flag = flag;
        config = config;
        config_is = read;
        db = db;
        db_is = made;
        migrated = migrated;
        first_taken = first;
        second_taken = second;
      }

  -- The run of a database kind that migrated.
  abbrev pub Migrated : Option Kind → Option ArgMatches → Type 0
  Migrated o args =
      (d : DieselKind) × (matches : ArgMatches) × (o ≡ some (database d))
      × (args ≡ some matches)
      × HasMigrated d matches

  dispatch-Migrated :
      (o : Option Kind) (args : Option ArgMatches)
      → (dispatch h o args).result ≡ ok tt
      → Migrated o args
  unfolding dispatch run_kind
  dispatch-Migrated none args e = absurd (ground arith)
  dispatch-Migrated (some k) none e = absurd (ground arith)
  dispatch-Migrated (some noop) (some m) e = absurd (launch-ne-ok noop m e)
  dispatch-Migrated (some csv) (some m) e = absurd (launch-ne-ok csv m e)
  dispatch-Migrated (some ldap) (some m) e = absurd (launch-ne-ok ldap m e)
  dispatch-Migrated (some (database d)) (some m) e =
      (d, m, refl, refl, run_diesel-HasMigrated d m e)

  exit_of-zero :
      (printed : List String) (m : Partial Error (Unit {0}))
      → (exit_of h printed m).code ≡ some 0
      → m ≡ ok tt
  unfolding exit_of
  exit_of-zero printed (ok tt) e = refl
  exit_of-zero printed (err (raise x)) e = absurd (ground arith)
  exit_of-zero printed (err panic) e = absurd (ground arith)

  Migrated-done :
      (o : Option Kind) (args : Option ArgMatches)
      → Migrated o args
      → exit_of h (dispatch h o args).printed (dispatch h o args).result ≡ done
  unfolding dispatch run_kind run_diesel run_configured exit_of complete println
  Migrated-done o args (d, m, kind, given, mig) =
      let steps = (make_and_migrate_iff d mig.config).1 (mig.db, mig.db_is, mig.migrated) in
      rw kind (
        rw given (
          rw mig.config_is
            (rw mig.flag (rw steps (rw mig.first_taken (rw mig.second_taken refl))))))

  -- The program ends with the exit code 0 exactly as a migration: for a subcommand of a database
  -- kind, with the flag, a configuration that was read, an authenticator that was made of it, its
  -- migration done, and a standard output that takes the two lines on the migration; and then those
  -- are the lines that it prints.
  pub main-done :
      (name : String) (args : Option ArgMatches)
      → (((main h name args).code ≡ some 0) ↔ Migrated (kind_of name) args)
        × ((main h name args).code ≡ some 0 → main h name args ≡ done)
  unfolding main run_subcommand
  main-done name args =
      let r = dispatch h (kind_of name) args in
      let zero : (main h name args).code ≡ some 0 → Migrated (kind_of name) args =
        λ e. dispatch-Migrated (kind_of name) args (exit_of-zero r.printed r.result e) in
      (
        (zero, λ m. ap (λ x. x.code) (Migrated-done (kind_of name) args m)),
        λ e. Migrated-done (kind_of name) args (zero e),
      )
