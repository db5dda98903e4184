-- ===== src/Tests/Parts.antt =====
-- The theorems of the errors and the durations, at concrete values.
use rowdy.Prelude.{String, ok, Option, some, none, err, ◌≡◌, ◌↔◌}
use rowdy.Crates.{Status, ForeignError, Response, unauthorized}
use rowdy.Error.Auth
use rowdy.Error.Token
use rowdy.Error.Top
use rowdy.Error.Top.{Error}
use rowdy.Error.Chain.{AnyError, WrapsNothing, follow, follow_endless}
use rowdy.Error.Answers.{
  IsRefusal, challenge, IsScope, respond_to-refused_iff, respond_to-forbidden_iff,
}

abbrev no_cause : ForeignError → Option ForeignError
no_cause e = none

follow_endless_example :
    (e' : AnyError) × (follow no_cause 9 (AnyError.top Error.unsupported_operation) ≡ some e')
    × WrapsNothing e'
follow_endless_example = follow_endless no_cause 9 (AnyError.top Error.unsupported_operation) tt

respond_to-refused_iff_example :
    ((r : Response)
      → (Top.respond_to (Error.auth (Auth.missing_authorization "https://rowdy.example")) ≡ ok r)
        ↔ ((realm : String) × (Error.auth (Auth.missing_authorization "https://rowdy.example")
              ≡ Error.auth (Auth.missing_authorization realm))
            × (r ≡ challenge realm)))
    × ((Top.respond_to (Error.auth (Auth.missing_authorization "https://rowdy.example"))
          ≡ err unauthorized)
        ↔ IsRefusal (Error.auth (Auth.missing_authorization "https://rowdy.example")))
respond_to-refused_iff_example =
    respond_to-refused_iff (Error.auth (Auth.missing_authorization "https://rowdy.example"))
      (λ h. h)

respond_to-forbidden_iff_example :
    (Top.respond_to (Error.token Token.invalid_audience) ≡ err Status.forbidden)
    ↔ IsScope (Error.token Token.invalid_audience)
respond_to-forbidden_iff_example =
    respond_to-forbidden_iff (Error.token Token.invalid_audience) (λ h. h)
