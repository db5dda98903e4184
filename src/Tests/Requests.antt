-- ===== src/Tests/Requests.antt =====
-- The theorems on whole requests, at the sample server.
use mathlib.Core.Option
use rowdy.Prelude.{
  Partial, raise, ap, arith, Option, true, some, none, ok, err, ◌≡◌, ◌≢◌, ◌↔◌, refl, panic, List,
  [], ◌∷◌, subst, ok_inj,
}
use rowdy.Crates.{Status, null}
use rowdy.Crates.World.{World}
use rowdy.Crates.Jwt.{SignatureAlgorithm, encoded, single}
use rowdy.Error.Top.{Error}
use rowdy.Auth.Header.{RequestOutcome, Basic, success, forward}
use rowdy.Token.Make.{make_token}
use rowdy.Token.Make.Bounds.{Overflows, make_token_panics_iff}
use rowdy.Token.Access.{Token, encode}
use rowdy.Token.Access.Sealed.{IsSealed}
use rowdy.Token.Access.Steps.{here, next, encodes, Keeps, Steps-Keeps}
use rowdy.Token.Config.{cors_option}
use rowdy.Auth.Header.{Bearer}
use rowdy.Auth.Calm.{IsCalm}
use rowdy.Routes.{AuthParam, token_getter, refresh_token}
use rowdy.Routes.Granted.{IsGranted, token_getter-IsGranted}
use rowdy.Routes.Sealed.{token_getter-IsSealed}
use rowdy.Routes.Endpoint.{Framework, Handler, Request, Reply, serve}
use rowdy.Routes.Endpoint.Laws.{CallsHandlers, TriesInOrder, respond, credentials, serve-eq-respond}
use rowdy.App
use rowdy.App.{Rocket, ignite}
use rowdy.App.Serve.{server as served, ignite-ne-panic}
use rowdy.Tests.Wire.{
  jwt, jwt-OpensJwe, jwt-Seals, jwt-Verifies, jwt-ChecksAlgorithm, sample_header, sample_claims,
  sign_sample,
}
use rowdy.Tests.Sample.{
  world, hour, configuration, server, keyed_server, keyed_server-HasRoom, keys_made, sample_keys,
  anyone, anyone-IsCalm, basic_scheme, bearer_scheme, user, asking, issued_token,
  token_getter_signed, made_token, signing_key, lock,
}

token_getter-IsSealed_example : IsSealed issued_token
token_getter-IsSealed_example =
    token_getter-IsSealed (server SignatureAlgorithm.hs256 (some SignatureAlgorithm.hs256))
      (jwt-Seals SignatureAlgorithm.hs256) 0 user (asking (some true)) issued_token
      token_getter_signed

abbrev short_world : World
short_world = record world { last_date = 5 }

make_token_panics_iff_example :
    (make_token
        (jwt SignatureAlgorithm.none)
        short_world
        "alice"
        "https://rowdy.example"
        (single "https://service.example")
        hour
        null
        none
        1
        0
      ≡ err panic)
    ↔ Overflows (jwt SignatureAlgorithm.none) short_world "alice" 1 hour
make_token_panics_iff_example =
    make_token_panics_iff (jwt SignatureAlgorithm.none) short_world "alice" "https://rowdy.example"
      (single "https://service.example") hour null none 1 0

abbrev encoded_made : Token
encoded_made = record made_token { token = encoded "signed" }

made_encoded : encode (jwt SignatureAlgorithm.hs256) made_token signing_key ≡ ok encoded_made
unfolding encode
made_encoded = rw (sign_sample SignatureAlgorithm.hs256)

Steps-Keeps_example :
    Keeps
      (jwt SignatureAlgorithm.hs256)
      signing_key
      signing_key
      lock
      lock
      (sample_header SignatureAlgorithm.hs256)
      sample_claims
      made_token
      encoded_made
Steps-Keeps_example =
    Steps-Keeps (jwt SignatureAlgorithm.hs256) signing_key signing_key lock lock
      (jwt-Verifies SignatureAlgorithm.hs256 signing_key signing_key)
      (jwt-ChecksAlgorithm SignatureAlgorithm.hs256 signing_key signing_key)
      (sample_header SignatureAlgorithm.hs256) sample_claims made_token encoded_made refl
      (next here (encodes made_encoded))

try_in_order : List Handler → Request → Option Reply
try_in_order [] q = none
try_in_order (h ∷ hs) q = elim (h q) [ success r ↦ some r | forward ↦ try_in_order hs q ]

some_same : {A : Type 0} (x y : A) → ◌≡◌ {A = Option A} (some x) (some y) → x ≡ y
some_same x y h = ground arith

result_of : {A : Type 0} → (A → Reply) → (Error → Reply) → Partial Error A → Reply
result_of show fail (ok a) = show a
result_of show fail (err (raise e)) = fail e
result_of show fail (err panic) = err Status.internal_server_error

-- Every query is that of `asking none`.
call_if : {S : Type 0} → (S → AuthParam → Reply) → RequestOutcome S → RequestOutcome Reply
call_if handle forward = forward
call_if handle (success a) = success (handle a (asking none))

abbrev framework : Framework
framework = record {
  form = λ q. some (asking none);
  to_json = λ t. ok "{}";
  empty = err Status.bad_request;
  result = result_of;
  with_guard = λ guard handle q. call_if handle (guard q);
  without_guard = λ handle q. success (handle (asking none));
  dispatch = try_in_order;
}

framework-CallsHandlers : CallsHandlers framework
unfolding result_of call_if
framework-CallsHandlers = record {
  formless = λ guard h q e. absurd (ground arith);
  refused = λ guard h q e. rw e refl;
  called = λ guard h q param a e g. rw g (ap success (ap (h a) (some_same _ _ e)));
  formless_unguarded = λ h q e. absurd (ground arith);
  called_unguarded = λ h q param e. ap success (ap h (some_same _ _ e));
  raised = λ show fail e. refl;
}

framework-TriesInOrder : TriesInOrder framework
unfolding try_in_order
framework-TriesInOrder = record {
  takes = λ h hs q r e. rw e refl;
  passes = λ h hs q e. rw e refl;
  ends = λ q. refl;
}

abbrev request : Request
request = record {
  query = "service=https://service.example&scope=all";
  authorization = some "alice";
}

serve-eq-respond_example :
    serve framework keyed_server 0 request
    ≡ Option.map
        (λ param. respond framework keyed_server 0 param (credentials keyed_server (some "alice")))
        (some (asking none))
serve-eq-respond_example =
    serve-eq-respond framework keyed_server 0 framework-TriesInOrder framework-CallsHandlers request

abbrev rocket : Rocket
rocket = record {
  configuration = configuration none;
  authenticator = anyone;
  keys = sample_keys;
  cors = cors_option (configuration none);
  mounted = [];
}

abbrev settings : App.Configuration (Unit {0})
settings = record { token = configuration none; basic_authenticator = tt }

lit : ignite world (λ b. ok anyone) settings ≡ ok rocket
unfolding ignite
lit = rw keys_made refl

ignite-ne-panic_example :
    ((user : Basic)
      → token_getter
          (served (jwt SignatureAlgorithm.none) world basic_scheme bearer_scheme rocket)
          0
          user
          (asking none)
        ≢ err panic)
    × ((held : Bearer)
        → refresh_token
            (served (jwt SignatureAlgorithm.none) world basic_scheme bearer_scheme rocket)
            0
            held
            (asking none)
          ≢ err panic)
ignite-ne-panic_example =
    ignite-ne-panic world (λ b. ok anyone) (jwt SignatureAlgorithm.none) basic_scheme bearer_scheme
      settings rocket 0 lit (λ a made. subst IsCalm (ok_inj made) anyone-IsCalm)
      keyed_server-HasRoom (jwt-OpensJwe SignatureAlgorithm.none) (asking none)

token_getter-IsGranted_example :
    IsGranted
      (server SignatureAlgorithm.hs256 (some SignatureAlgorithm.hs256))
      0
      user
      (asking (some true))
      issued_token
token_getter-IsGranted_example =
    token_getter-IsGranted (server SignatureAlgorithm.hs256 (some SignatureAlgorithm.hs256)) 0
      (jwt-Verifies SignatureAlgorithm.hs256 signing_key signing_key) user (asking (some true))
      issued_token token_getter_signed
