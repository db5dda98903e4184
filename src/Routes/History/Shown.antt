-- ===== src/Routes/History/Shown.antt =====
-- What clients see over a run of the routes: access tokens, and refresh tokens of logins
-- (src/routes.rs).
use rowdy.Prelude.{String, ok, ◌≡◌, ◌⊎◌, inl, inr, some, subst, refl, arith, List, ◌∷◌}
use rowdy.Crates.Jwt.{DateTime, Jws, SignatureAlgorithm, encoded, encrypted}
use rowdy.Crates.Jwt.Laws.{Verifies, Seals}
use rowdy.Auth.Header.{Basic}
use rowdy.Auth.Authenticator.{AuthenticationResult}
use rowdy.Token.Access.{Token}
use rowdy.Routes.{Server, AuthParam, token_getter, refresh_token}
use rowdy.Routes.Redeemed.{refresh_token-IsRedeemed}
use rowdy.Routes.Sealed.{refresh_token-IsSigned}
use rowdy.Routes.Granted.{IsIssuedFor, token_getter-IsGranted, reissue-IsIssuedFor}
use rowdy.Routes.History.{Event, login, redemption, Run, start, logs_in, redeems, Shown, Happened}

-- The text was given out as the refresh token of an earlier login.
pub record IsHandedOut (s : Server) (es : List Event) (text : String) : Type 0 where
  pub issued : DateTime
  pub user : Basic
  pub asking : AuthParam
  pub first : Token
  pub happened : Happened (login issued user asking first) es
  pub granted : token_getter s issued user asking ≡ ok first
  pub handed_out : first.refresh_token ≡ some (encrypted text)

-- The text reads as an access token.
pub record IsAccess (s : Server) (text : String) : Type 0 where
  pub algorithm : SignatureAlgorithm
  pub jws : Jws
  pub reads : s.jwt.into_decoded (encoded text) s.keys.signature_verification algorithm ≡ ok jws

earlier_origin :
    {s : Server} {es : List Event} {text : String} (e : Event)
    → IsAccess s text ⊎ IsHandedOut s es text
    → IsAccess s text ⊎ IsHandedOut s (e ∷ es) text
earlier_origin e (inl access) = inl access
earlier_origin e (inr o) = inr (record {
  issued = o.issued;
  user = o.user;
  asking = o.asking;
  first = o.first;
  happened = inr o.happened;
  granted = o.granted;
  handed_out = o.handed_out;
})

module _ (s : Server) (signed : Verifies s.jwt s.keys.signing s.keys.signature_verification) where
  granted-IsAccess :
      (now : DateTime) (result : AuthenticationResult) (param : AuthParam) (t : Token)
      (text : String)
      → IsIssuedFor s now result param t
      → t.token ≡ encoded text
      → IsAccess s text
  granted-IsAccess now result param t text i shown =
      let same : i.text ≡ text = ground arith in
      subst (IsAccess s) same (record { algorithm = _; jws = _; reads = i.reads })

  reissued-IsAccess :
      (seals : Seals s.jwt) (now : DateTime) (text' : String) (param : AuthParam) (t : Token)
      (text : String)
      → refresh_token s now (record { token = text' }) param ≡ ok t
      → (t.token ≡ encoded text) ⊎ (t.refresh_token ≡ some (encrypted text))
      → IsAccess s text
  reissued-IsAccess seals now text' param t text h shown =
      let redeemed = refresh_token-IsRedeemed s now text' param t h in
      let (is_signed, without) =
        refresh_token-IsSigned s seals now (record { token = text' }) param t h in
      elim shown [
        | inl access ↦
            granted-IsAccess now redeemed.result param t text
              (reissue-IsIssuedFor s now signed param redeemed.result t redeemed.made) access
        | inr refresh ↦ absurd (ground arith)
      ]

  -- What a client sees reads as an access token, or was handed out in a login.
  pub Shown-origin :
      Seals s.jwt
      → (text : String) {es : List Event} → Run s es
      → Shown es text
      → IsAccess s text ⊎ IsHandedOut s es text
  Shown-origin seals text start shown = absurd shown
  Shown-origin seals text (logs_in es now user param t run h) (inl (inl access)) =
      let granted = token_getter-IsGranted s now signed user param t h in
      inl (granted-IsAccess now granted.result param t text granted.issued access)
  Shown-origin seals text (logs_in es now user param t run h) (inl (inr refresh)) = inr (record {
    issued = now;
    user = user;
    asking = param;
    first = t;
    happened = inl refl;
    granted = h;
    handed_out = refresh;
  })
  Shown-origin seals text (logs_in es now user param t run h) (inr earlier) =
      earlier_origin (login now user param t) (Shown-origin seals text run earlier)
  Shown-origin seals text (redeems es now text' param t run h) (inl shows) =
      inl (reissued-IsAccess seals now text' param t text h shows)
  Shown-origin seals text (redeems es now text' param t run h) (inr earlier) =
      earlier_origin (redemption now text' param t) (Shown-origin seals text run earlier)
