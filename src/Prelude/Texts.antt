-- ===== src/Prelude/Texts.antt =====
-- Equality of texts, decided.
use Prim.Native.String.{String}
use mathlib.Core.Logic.{inl, inr}
use native.Mathlib.Omega.{arith}
use text.Mathlib.Text.{◌==◌}
use text.Mathlib.TextEquality.{eq_iff}
use rowdy.Prelude.Tests.{Bool-cases}

pub text_discrete : Discrete String
text_discrete x y = elim (Bool-cases (x == y)) [
  | inl h ↦ yes ((eq_iff x y).0 h)
  | inr h ↦ no (λ e. ground (arith, (eq_iff x y).1 e))
]
