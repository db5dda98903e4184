-- ===== src/Lib.antt =====
-- rowdy is an authentication server for the Docker registry token scheme: a client authenticates
-- with HTTP Basic against an identity provider and gets a signed JWT, with a refresh token beside
-- it if it asked for one and the server allows it, and redeems the refresh token later with HTTP
-- Bearer. This development models the crates `rowdy` (`src/`), `rowdy-diesel` (`diesel/`) and
-- `rowdy-cli` (`cli/`).
--
-- Parts, and how they interact:
--
-- - `Error` (`src/token.rs`, `src/auth/mod.rs`, `src/lib.rs`): the three error enums, one module
--   each (`Error.Token`, `Error.Auth`, `Error.Top`), with `description`, `Display` and `Responder`;
--   `Error.Chain` has `cause`, and `Error.Answers` the answers to a client.
-- - `Token` (`src/token.rs`): `Token.Config` the configuration and `Secret`, `Token.Keys` the keys
--   made of it, `Token.Make` the functions that make a JWS, `Token.Verify` the checks of service,
--   issuer and audience, `Token.Refresh` the `RefreshToken`, and `Token.Access` the `Token`, whose
--   life `Token.Access.Steps` describes as a step relation.
-- - `Auth` (`src/auth/`): `Auth.Header` the `Authorization` guard, `Auth.Authenticator` the trait,
--   `Auth.Noop`, `Auth.Simple` (with `Auth.Util`) and `Auth.Ldap` the providers, and `Auth.Mock`
--   the one of the crate's tests.
-- - `Routes` (`src/routes.rs`): the handlers. A `Server` is Rocket's managed state: configuration,
--   keys and authenticator, with the token crate and the outside world that a request uses.
--   `Routes.Endpoint` puts the three routes of one path together, as Rocket dispatches to them, and
--   `Routes.History` has the runs of the token routes over time, a step relation.
-- - `App` (`src/lib.rs`, `src/serde_custom/duration.rs`): `ignite`, `launch`, `Url` and durations;
--   `App.Serve` joins what is ignited to the routes.
-- - `Diesel` (`diesel/src/`): the authenticator over a table and its three backends, and in
--   `Diesel.Schema` the table.
-- - `Cli` (`cli/src/main.rs`): the parser, the kinds of authenticator that the subcommands launch
--   (`Cli.Kinds`), and the runs with what they print. A `Host` is what the program gets from its
--   crates and its environment.
-- - `Build` (`build.rs`): the build script.
-- - `Prelude`: `Result` and code that can panic, maps, lists, and `sort` and `dedup` of texts.
-- - `Crates`: the types of the other crates, and their functions as fields of records of
--   parameters: `Jwt` (biscuit), `World` (random bytes, UUIDs, dates, key files); `Crypto`
--   (argon2rs, ring), `Ldap` (ldap3), `Database` (diesel), `Framework` (Rocket) and `Console`
--   (version_check, ansi_term) stand with the code that uses them. What the code relies on is a
--   named law: `Verifies`, `ChecksAlgorithm`, `Decrypts`, `OpensJwe`, `Seals`, `TellsApart`,
--   `ChecksTimes` and `RefusesLate` of the token crate, `Compares` of the byte comparison,
--   `ReadsHex` and `ReadsCsv` of the readers of hexadecimal text and of CSV files,
--   `ReadsUsers` of the JSON form of a user, `RoundTrips` of a header with its credentials,
--   `TriesInOrder` and `CallsHandlers` of Rocket, `Takes` of the output streams.
--   Where an answer depends on the crate doing its work, `SignsFor` and `Locks` say that it signs
--   and encrypts what the configuration asks for, and `IsTimely` that dates fit and random bytes are
--   given.
-- - `Conformance` (the modules `tests` of `src/token.rs`, `src/auth/mod.rs`, `src/auth/noop.rs` and
--   `src/auth/simple.rs`): the unit tests as runs over any crates, and how they end. What they rely
--   on of the crates is `Normalises` (URLs), `Serves` and `Makes` (dates and random bytes), `Works`
--   (signing and encrypting), `RequiresTimes`, `HasFixtures` and `HasUsersFile` (the files beside
--   them), `WritesBack` (the CSV reader) and `Dispatches` (Rocket's client).
-- - `Tests`: small instances of all of these, and the theorems at concrete inputs.
--
-- How state and operations correspond to the code. A function of the source has the source's name,
-- but for renamed ones: `RefreshToken::encrypted` and `decrypted` are `is_encrypted` and
-- `is_decrypted`, and `missing_authorization` is `missing`. A method takes the value as an argument
-- and answers with the new one. `Result` is Rust's, with the error first; code that can panic
-- (`unwrap`, `expect`, `assert_eq!`, an overflow of a date) answers in `Partial`, whose failures
-- are `raise e` or `panic`. A closure or a block that the proofs speak of has a name of its own,
-- such as `issue` for the closure of `token_getter`. The clock is an argument, and the random
-- draws of a request are numbered. An LDAP connection carries which one of the call it is and the
-- binds that were made on it, and `bind` answers with the bound one.
--
-- Bounds: a `DateTime` is a number of nanoseconds since the epoch, and an expiry past `last_date`
-- is a panic, as in chrono. Token times are written in whole seconds, which is why a refresh token
-- may end up to a second before its exact duration. A port is printed with five steps of fuel, one
-- for each decimal digit that 16 bits can have. No other loop needs fuel: all run over a list.
--
-- argon2 has no digest (`none`), and the code panics, on what it refuses, such as a salt outside the
-- range of 8 to 2^32-1 bytes that `src/auth/util.rs` documents.
--
-- Simplifications: `Token<T>` is modelled at the JSON value that the routes use; a `StringOrUri` is
-- its text; hash maps and JSON maps are association lists in which a later insertion replaces an
-- earlier one; `HashSet`s are lists, under the subset test only.
--
-- Not modelled: log lines; the serde derives; Rocket's choice of a path, and the CORS fairing beyond
-- its options; clap, of which the parser's data is modelled and `IsAccepted` says what it accepts;
-- the SQL that `diesel` makes of a query; the unit tests that make or read JSON texts, compare fixed
-- digests, or need a directory, a database or the routes; deployment files.
pub mod Prelude
pub mod Crates
pub mod Error
pub mod Token
pub mod Auth
pub mod Routes
pub mod App
pub mod Diesel
pub mod Build
pub mod Conformance
pub mod Cli
pub mod Tests
