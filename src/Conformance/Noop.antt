-- ===== src/Conformance/Noop.antt =====
-- The tests of src/auth/noop.rs.
use rowdy.Prelude.{String, true, false, not, some, ok, ◌>>=◌, ◌>>◌, is_some, ◌≡◌, refl}
use rowdy.Crates.{ok_status}
use rowdy.Auth.Header
use rowdy.Auth.Header.{Basic, Bearer, Scheme}
use rowdy.Auth.Authenticator.{Authenticator, prepare_authentication_response}
use rowdy.Auth.Noop
use rowdy.Auth.Noop.{noop, noop_basic, noop_bearer, noop_string, RoundTrips, noop-renews}
use rowdy.Conformance.Harness.{Test, unwrap_error, assert}
use rowdy.Conformance.Creation.{unwrap_some}
use rowdy.Conformance.Headers.{Client, get_test}
use rowdy.Conformance.Headers.Laws.{Dispatches, get_test-ok_status}

-- The credentials of the tests.
abbrev anything : Basic
anything = record { username = "anything"; password = some "let me in" }

abbrev foobar : Bearer
foobar = record { token = "foobar" }

module _ {S : Type 0} (authenticator : Authenticator S) (auth_header : S) where
  -- One of the three parts of `authentication`.
  without_refresh : Test (Unit {0})
  without_refresh = do
    result ← unwrap_error (authenticator.authenticate auth_header false)
    assert (not (is_some result.refresh_payload))

  -- One of the three parts of `authentication_with_refresh_token`.
  with_refresh : Test (Unit {0})
  with_refresh = do
    result ← unwrap_error (authenticator.authenticate auth_header true)
    assert (is_some result.refresh_payload)
    payload ← unwrap_some result.refresh_payload
    result' ← unwrap_error (authenticator.authenticate_refresh_token payload)
    assert (not (is_some result'.refresh_payload))

-- Whatever its credentials are, if their header comes back.
with_refresh-passes :
    {S : Type 0} (s : Scheme S) (sub : S → String) (h : S)
    → RoundTrips s h
    → with_refresh (noop s sub) h ≡ ok tt
unfolding with_refresh Noop.authenticate
with_refresh-passes s sub h rt = simp (noop-renews s sub h rt _ _ refl refl)

module _ (basic : Scheme Basic) (bearer : Scheme Bearer) (string : Scheme String) where
  authentication : Test (Unit {0})
  unfolding without_refresh
  authentication = do
    without_refresh (noop_basic basic) anything
    without_refresh (noop_bearer bearer) foobar
    without_refresh (noop_string string) "anything goes"

  authentication_with_refresh_token : Test (Unit {0})
  unfolding with_refresh
  authentication_with_refresh_token = do
    with_refresh (noop_basic basic) anything
    with_refresh (noop_bearer bearer) foobar
    with_refresh (noop_string string) "anything goes"

  authentication-passes : authentication ≡ ok tt
  unfolding authentication Noop.authenticate
  authentication-passes = refl

  module _ (rt_basic : RoundTrips basic anything) (rt_bearer : RoundTrips bearer foobar)
      (rt_string : RoundTrips string "anything goes") where
    authentication_with_refresh_token-passes : authentication_with_refresh_token ≡ ok tt
    unfolding authentication_with_refresh_token
    authentication_with_refresh_token-passes =
        rw (with_refresh-passes basic Header.username anything rt_basic) (
          rw (with_refresh-passes bearer Header.token foobar rt_bearer)
            (with_refresh-passes string Header.string "anything goes" rt_string))

module _ (c : Client) where
  noop_basic_auth_get_test : Scheme Basic → Test (Unit {0})
  noop_basic_auth_get_test s = get_test (noop_basic s) c s anything ok_status

  noop_bearer_auth_get_test : Scheme Bearer → Test (Unit {0})
  noop_bearer_auth_get_test s = get_test (noop_bearer s) c s foobar ok_status

  noop_string_auth_get_test : Scheme String → Test (Unit {0})
  noop_string_auth_get_test s = get_test (noop_string s) c s "anything goes" ok_status

  module _ (rocket : Dispatches c) where
    noop_basic_auth_get_test-passes :
        (s : Scheme Basic) → RoundTrips s anything → noop_basic_auth_get_test s ≡ ok tt
    unfolding noop_basic_auth_get_test prepare_authentication_response Noop.authenticate
    noop_basic_auth_get_test-passes s rt = get_test-ok_status c rocket (noop_basic s) s _ rt _ refl

    noop_bearer_auth_get_test-passes :
        (s : Scheme Bearer) → RoundTrips s foobar → noop_bearer_auth_get_test s ≡ ok tt
    unfolding noop_bearer_auth_get_test prepare_authentication_response Noop.authenticate
    noop_bearer_auth_get_test-passes s rt =
        get_test-ok_status c rocket (noop_bearer s) s _ rt _ refl

    noop_string_auth_get_test-passes :
        (s : Scheme String) → RoundTrips s "anything goes" → noop_string_auth_get_test s ≡ ok tt
    unfolding noop_string_auth_get_test prepare_authentication_response Noop.authenticate
    noop_string_auth_get_test-passes s rt =
        get_test-ok_status c rocket (noop_string s) s _ rt _ refl
