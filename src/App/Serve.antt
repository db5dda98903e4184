-- ===== src/App/Serve.antt =====
-- What `Configuration::ignite` manages (src/lib.rs), and the routes over it.
use rowdy.Prelude.{
  Result, ok, err, ◌≡◌, ◌≢◌, Partial, lift, within, panic, >>=-eq-ok, map_err-eq-ok, subst, sym, ap,
  ◌∙◌, [], ok_inj,
}
use rowdy.Crates.Jwt.{Jwt, DateTime}
use rowdy.Crates.Jwt.Laws.{OpensJwe}
use rowdy.Crates.World.{World}
use rowdy.Error.Top.{Error, token}
use rowdy.Auth.Header.{Basic, Bearer, Scheme}
use rowdy.Auth.Authenticator.{Authenticator}
use rowdy.Auth.Calm.{IsCalm}
use rowdy.Token.Config.{cors_option}
use rowdy.Token.Keys.{Keys, keys}
use rowdy.Token.Access.Calm.{HasRoom}
use rowdy.Routes.{Server, AuthParam, token_getter, refresh_token}
use rowdy.Routes.Calm.{token_getter-ne-panic, refresh_token-ne-panic}
use rowdy.App.{Configuration, Rocket, ignite}

-- What the handlers take from the Rocket's managed state.
abbrev pub server : Jwt → World → Scheme Basic → Scheme Bearer → Rocket → Server
server j w basic bearer rocket = record {
  jwt = j;
  world = w;
  basic = basic;
  bearer = bearer;
  configuration = rocket.configuration;
  keys = rocket.keys;
  authenticator = rocket.authenticator;
}

module _ {B : Type 0} (w : World)
    (make_authenticator : B → Result Error (Authenticator Basic)) where
  parts :
      (config : Configuration B) (rocket : Rocket) (a : Authenticator Basic) (k : Keys)
      → make_authenticator config.basic_authenticator ≡ ok a
      → keys w config.token ≡ ok k
      → ◌≡◌ {A = Partial Error Rocket}
          (ok (record {
            configuration = config.token;
            authenticator = a;
            keys = k;
            cors = cors_option config.token;
            mounted = [];
          }))
          (ok rocket)
      → (rocket.configuration ≡ config.token)
        × (make_authenticator config.basic_authenticator ≡ ok rocket.authenticator)
        × (keys w rocket.configuration ≡ ok rocket.keys)
  parts config rocket a k made read h =
      let it = ok_inj h in
      (
        sym (ap (λ r. r.configuration) it),
        made ∙ ap (λ r. ok r.authenticator) it,
        ap (λ r. keys w r.configuration) (sym it) ∙ read ∙ ap (λ r. ok r.keys) it,
      )

  -- Ignition manages the token configuration, the keys that it names, and the authenticator made.
  pub ignite-eq-ok :
      (config : Configuration B) (rocket : Rocket)
      → ignite w make_authenticator config ≡ ok rocket
      → (rocket.configuration ≡ config.token)
        × (make_authenticator config.basic_authenticator ≡ ok rocket.authenticator)
        × (keys w rocket.configuration ≡ ok rocket.keys)
  unfolding ignite
  ignite-eq-ok config rocket h =
      let (a, made, h1) = >>=-eq-ok (lift (make_authenticator config.basic_authenticator)) _ h in
      let (k, read, h2) = >>=-eq-ok (within token (keys w config.token)) _ h1 in
      parts config rocket a k (map_err-eq-ok _ _ made) (map_err-eq-ok _ _ read) h2

  -- An application whose authenticator never panics, once ignited, answers every request of its two
  -- token routes without a panic, at any time at which no expiry of its configuration is past the
  -- last date, where the token crate's decrypted values are open.
  pub ignite-ne-panic :
      (j : Jwt) (basic : Scheme Basic) (bearer : Scheme Bearer) (config : Configuration B)
      (rocket : Rocket) (now : DateTime)
      → ignite w make_authenticator config ≡ ok rocket
      → ((a : Authenticator Basic)
          → make_authenticator config.basic_authenticator ≡ ok a
          → IsCalm a)
      → HasRoom w config.token now
      → OpensJwe j
      → (param : AuthParam)
      → ((user : Basic) → token_getter (server j w basic bearer rocket) now user param ≢ err panic)
        × ((held : Bearer)
            → refresh_token (server j w basic bearer rocket) now held param ≢ err panic)
  ignite-ne-panic j basic bearer config rocket now lit calm room opens param =
      let (same, made, read) = ignite-eq-ok config rocket lit in
      let s = server j w basic bearer rocket in
      let room' = subst (λ c. HasRoom w c now) (sym same) room in
      (
        λ user. token_getter-ne-panic s (calm rocket.authenticator made) read now room' user param,
        λ held.
            refresh_token-ne-panic s (calm rocket.authenticator made) read now room' opens held
              param,
      )
