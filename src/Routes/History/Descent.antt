-- ===== src/Routes/History/Descent.antt =====
-- Where the tokens of the refresh route come from, over a whole run (src/routes.rs).
use rowdy.Prelude.{
  String, ℕ, Bool, true, false, ◌+◌, ◌≤◌, List, [], ◌∷◌, Option, some, none, ok, ◌≡◌, ◌∙◌, inl, inr,
  ap, sym, subst, arith, unwrap_or, ok_inj, Bool-cases,
}
use mathlib.Core.Option
use rowdy.Crates.Jwt.{DateTime, Jwk, SignatureAlgorithm, encrypted, decrypted, decoded}
use rowdy.Crates.Jwt.Laws.{
  Verifies, Decrypts, ChecksTimes, TellsApart, RefusesLate, Seals, whole_seconds, wire,
}
use rowdy.Auth.Header.{Basic}
use rowdy.Auth.Authenticator.{AuthenticationResult, IsWellBehaved, prepare_refresh_response_iff}
use rowdy.Token.Config.{RefreshTokenConfiguration}
use rowdy.Token.Access.{Token}
use rowdy.Token.Refresh.{RefreshToken, payload, validate}
use rowdy.Token.Refresh.Opens.{decrypt-opened}
use rowdy.Token.Refresh.Valid.{validate_iff}
use rowdy.Token.Make.{make_header}
use rowdy.Routes.{Server, AuthParam, token_getter, refresh_token}
use rowdy.Routes.Flow.{issue_refresh}
use rowdy.Routes.Redeem.{token_getter-eq-ok, opens, asked}
use rowdy.Routes.Redeemed.{IsRedeemed, refresh_token-IsRedeemed}
use rowdy.Routes.Granted.{IsIssuedFor, reissue-IsIssuedFor}
use rowdy.Routes.Offline.{token_getter-unasked}
use rowdy.Routes.History.{
  Event, login, redemption, Run, start, logs_in, redeems, Shown, Unforged, Happened,
}
use rowdy.Routes.History.Shown.{IsAccess, IsHandedOut, Shown-origin}

-- A token of the refresh route goes back to a login: a user was let in and asked for a refresh
-- token, `text` is the one that was handed out, it has not expired, and the new token is issued
-- for what the authenticator answered to that user.
pub record Descends (s : Server) (es : List Event) (now : DateTime) (text : String)
    (param : AuthParam) (t : Token) : Type 0 where
  pub issued : DateTime
  pub user : Basic
  pub asking : AuthParam
  pub first : Token
  pub happened : Happened (login issued user asking first) es
  pub handed_out : first.refresh_token ≡ some (encrypted text)
  pub asked_for : asking.offline_token ≡ some true
  pub result : AuthenticationResult
  pub authenticated : s.authenticator.authenticate user true ≡ ok result
  pub lasts : ℕ
  pub lasts_from :
      (x : RefreshTokenConfiguration) × (s.configuration.refresh_token ≡ some x)
      × (s.world.chrono_from_std x.expiry_duration ≡ ok lasts)
  pub in_time : now ≤ whole_seconds (issued + lasts)
  pub renewed : IsIssuedFor s now (record result { refresh_payload = none }) param t

-- Every redemption of the list descends from a login before it.
abbrev pub AllDescend : Server → List Event → Type 0
AllDescend s [] = Unit
AllDescend s (login now user param t ∷ es) = AllDescend s es
AllDescend s (redemption now text param t ∷ es) = Descends s es now text param t × AllDescend s es

offline_asked : (o : Option Bool) → unwrap_or o false ≡ true → o ≡ some true
offline_asked none h = absurd (ground arith)
offline_asked (some b) h = ground arith

asked_for_offline :
    (s : Server) (now : DateTime) (user : Basic) (param : AuthParam) (t : Token) (r : RefreshToken)
    → token_getter s now user param ≡ ok t
    → t.refresh_token ≡ some r
    → param.offline_token ≡ some true
asked_for_offline s now user param t r h has =
    elim (Bool-cases (unwrap_or param.offline_token false)) [
      | inl on ↦ offline_asked param.offline_token on
      | inr off ↦
          let without = token_getter-unasked s now user param t off h in absurd (ground arith)
    ]

module _ (s : Server) (good : IsWellBehaved s.authenticator)
    (signed : Verifies s.jwt s.keys.signing s.keys.signature_verification) {lock unlock : Jwk}
    (lock_is : s.keys.encryption ≡ some lock) (unlock_is : s.keys.decryption ≡ some unlock)
    (sealed : Decrypts s.jwt lock unlock) (times : ChecksTimes s.jwt) (a : SignatureAlgorithm)
    (a_is : s.configuration.signature_algorithm ≡ some a) (late : RefusesLate s.jwt)
    (apart : TellsApart s.jwt) (seals : Seals s.jwt) where
  -- An access token is not decrypted as a refresh token.
  access_refused :
      (text : String) (now : DateTime) (param : AuthParam) (t : Token)
      → IsAccess s text
      → IsRedeemed s now text param t
      → ⊥
  access_refused text now param t access r =
      let (x, opened) = decrypt-opened s.jwt text _ r.key _ _ _ r.token r.decrypts in
      apart.apart text _ access.algorithm access.jws _ _ _ x access.reads opened

  -- What a redeemed text was opened to, validated and paid is what the login put into it.
  handed_out-Descends :
      (es : List Event) (text : String) (now : DateTime) (param : AuthParam) (t : Token)
      → IsHandedOut s es text
      → IsRedeemed s now text param t
      → Descends s es now text param t
  unfolding payload
  handed_out-Descends es text now param t o r =
      let (result, prepared, made) =
        token_getter-eq-ok s o.issued o.user o.asking o.first o.granted in
      let (p, given, served, r', locked, f) =
        issue_refresh s o.issued o.asking result o.first (encrypted text) lock lock_is made
          o.handed_out in
      let (text', is_text, h', opened') =
        opens s good signed lock_is unlock_is sealed times a a_is o.issued result.subject p r'
          (encrypted text) f locked in
      let authenticated = asked s o.user _ result p prepared given in
      let same_key : r.key ≡ unlock = ground arith in
      let same : r.configuration ≡ f.refresh = ground arith in
      let token_is : r.token
          ≡ decrypted h' (
              decoded (make_header s.jwt s.world s.configuration.signature_algorithm)
                (wire f.claims)) =
        ground arith in
      let valid =
        (validate_iff s.jwt h' _ (wire f.claims) param.service s.configuration none now).0 (
          subst (λ d. validate s.jwt d param.service s.configuration none now ≡ ok tt) token_is
            r.validated) in
      let paid : p ≡ r.contents =
        sym f.payload_is ∙ ok_inj (subst (λ d. payload s.jwt d ≡ ok r.contents) token_is r.pays) in
      let renews : r.result ≡ record result { refresh_payload = none } = ok_inj (
        sym ((prepare_refresh_response_iff s.authenticator r.contents r.result).0 r.answered).0
        ∙ subst
            (λ x.
              s.authenticator.authenticate_refresh_token x
              ≡ ok (record result { refresh_payload = none }))
            paid (good.renews o.user result p authenticated given)) in
      record {
        issued = o.issued;
        user = o.user;
        asking = o.asking;
        first = o.first;
        happened = o.happened;
        handed_out = o.handed_out;
        asked_for =
            asked_for_offline s o.issued o.user o.asking o.first (encrypted text) o.granted
              o.handed_out;
        result = result;
        authenticated = authenticated;
        lasts = f.stamp.lasts;
        lasts_from = (f.refresh, f.refresh_is, f.stamp.lasts_from);
        in_time =
            late.late (wire f.claims).registered _ _ now
              (ap (Option.map whole_seconds) f.stamp.expiry_is) valid.in_time;
        renewed =
            subst (λ x. IsIssuedFor s now x param t) renews
              (reissue-IsIssuedFor s now signed param r.result t r.made);
      }

  redeemed-Descends :
      (es : List Event) (text : String) (now : DateTime) (param : AuthParam) (t : Token)
      → Run s es
      → Shown es text
      → refresh_token s now (record { token = text }) param ≡ ok t
      → Descends s es now text param t
  redeemed-Descends es text now param t run shown h =
      let r = refresh_token-IsRedeemed s now text param t h in
      elim (Shown-origin s signed seals text run shown) [
        | inl access ↦ absurd (access_refused text now param t access r)
        | inr o ↦ handed_out-Descends es text now param t o r
      ]

  -- In a run in which no text is redeemed that was not shown in an earlier answer, every token of
  -- the second route descends from an earlier login: its user was let in and asked for an offline
  -- token, the text redeemed is the refresh token that was handed out then, it is redeemed no
  -- later than its configured duration after the login (in whole seconds), and the new token's
  -- text reads back to claims with the subject and private claims that the authenticator answered
  -- to that user. An access token, though it is shown too, is never redeemed. The authenticator is
  -- well behaved, a signature algorithm and both keys for refresh tokens are set, what is signed
  -- and encrypted with the server's keys is read back, and the token crate signs to encoded and
  -- encrypts to closed values, tells the two apart, accepts times from the start of a token up to
  -- its expiry and refuses them after it.
  pub Run-AllDescend : {es : List Event} → Run s es → Unforged es → AllDescend s es
  Run-AllDescend start unforged = tt
  Run-AllDescend (logs_in es now user param t run h) unforged = Run-AllDescend run unforged
  Run-AllDescend (redeems es now text param t run h) (shown, unforged) =
      (redeemed-Descends es text now param t run shown h, Run-AllDescend run unforged)
