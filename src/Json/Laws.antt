-- ===== src/Json/Laws.antt =====
-- Texts and values are told apart by a decision.
use native.Mathlib.Decide.{ℕ_discrete}
use agents_reality_layer.Prelude.{String, ◌==◌, string_eq, inl, inr, Bool-cases, arith}
use agents_reality_layer.Prelude.Int.{ℤ}
use agents_reality_layer.Json.{Value}

pub String-discrete : Discrete String
String-discrete s t = elim (Bool-cases (s == t)) [
  | inl e ↦ yes ((string_eq.same_iff s t).0 e)
  | inr e ↦ no (λ p. ground (arith, string_eq.same_iff s t))
]

pub ℤ-discrete : Discrete ℤ
ℤ-discrete = hlevel ℕ_discrete

pub Value-discrete : Discrete Value
Value-discrete = hlevel (ℕ_discrete, String-discrete, ℤ-discrete)
