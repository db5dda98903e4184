-- ===== src/App.antt =====
-- src/lib.rs: the application configuration, `ignite` and `launch`, and `Url`;
-- src/serde_custom/duration.rs in the child `Serde`.
pub mod Serde
pub mod Serve
use rowdy.Prelude.{
  ℕ, String, Option, none, some, Result, ok, err, ◌>>=◌, map_err, Partial, lift, within, panic,
  List, [], ◌∷◌, ◌≡◌, refl, raise,
}
use rowdy.Crates.{ForeignError}
use rowdy.Crates.World.{World}
use rowdy.Error.Top.{Error, token, launch_error}
use rowdy.Auth.Header.{Basic}
use rowdy.Auth.Authenticator.{Authenticator}
use rowdy.Token.Config
use rowdy.Token.Config.{Cors, cors_option}
use rowdy.Token.Keys.{Keys, keys}

pub record Configuration (B : Type 0) : Type 0 where
  pub token : Config.Configuration
  pub basic_authenticator : B

-- The rank of a route orders the routes of one path.
pub record Route : Type 0 where
  pub handler : String
  pub path : String
  pub rank : Option ℕ

-- `routes()` of src/routes.rs.
abbrev pub routes : List Route
routes =
    record { handler = "token_getter"; path = "/?<auth_param>"; rank = some 1 }
    ∷ record { handler = "refresh_token"; path = "/?<auth_param>"; rank = some 2 }
    ∷ record { handler = "bad_request"; path = "/?<auth_param>"; rank = some 3 }
    ∷ record { handler = "ping"; path = "/ping"; rank = none }
    ∷ []

-- The managed state and the fairing of an ignited Rocket, and the routes mounted at `/`.
pub record Rocket : Type 0 where
  pub configuration : Config.Configuration
  pub authenticator : Authenticator Basic
  pub keys : Keys
  pub cors : Cors
  pub mounted : List Route

-- `make_authenticator` is that of the configuration's `AuthenticatorConfiguration`.
module _ {B : Type 0} (w : World)
    (make_authenticator : B → Result Error (Authenticator Basic)) where
  unfoldable pub ignite : Configuration B → Partial Error Rocket
  ignite config = do
    let token_getter_cors_options = cors_option config.token
    basic_authenticator ← lift (make_authenticator config.basic_authenticator)
    keys ← within token (keys w config.token)
    ok (record {
      configuration = config.token;
      authenticator = basic_authenticator;
      keys = keys;
      cors = token_getter_cors_options;
      mounted = [];
    })

  -- An error of `ignite` is a panic; launching a Rocket is a parameter, and only ever fails.
  abbrev or_panic {ℓ} : {A : Type ℓ} → Partial Error A → Partial Error A
  or_panic (ok a) = ok a
  or_panic (err _) = err panic

  unfoldable pub launch : (Rocket → ForeignError) → Configuration B → Partial Error ForeignError
  launch start config = do
    rocket ← or_panic (ignite config)
    ok (start (record rocket { mounted = routes }))

-- `Url` wraps a `hyper::Url`, whose parser is a parameter; both visitors call it.
module _ {U : Type 0} (parse : String → Result ForeignError U) (as_str : U → String) where
  unfoldable pub from_str : String → Result ForeignError U
  from_str s = parse s

  unfoldable pub serialize_url : U → String
  serialize_url u = as_str u

  unfoldable pub visit_str : String → Result String U
  visit_str value = map_err (λ e. e.display) (parse value)
