-- ===== src/Prelude/Equality.antt =====
-- `==` as an interface: a Boolean test that agrees with the paths of the type.
use Prim.Native.Nat.{ℕ, compare, Ordering}
use Prim.Native.String.{String}
use mathlib.Core.Path.{◌≡◌, refl}
use mathlib.Core.Logic.{◌↔◌}
use mathlib.Core.Bool.{Bool, true, false, ◌&&◌, not}
use mathlib.Core.Option.{Option, none, some}
use native.Mathlib.Omega.{arith}
use text.Mathlib.Text.{◌==◌ as str_eq}
use text.Mathlib.TextEquality.{eq_iff}

pub record Eq {ℓ} (A : Type ℓ) : Type ℓ where
  pub same : A → A → Bool
  pub same_iff : (x y : A) → (same x y ≡ true) ↔ (x ≡ y)

infix 50 ◌==◌ ◌!=◌
abbrev pub ◌==◌ {ℓ} : {A : Type ℓ} ⦃e : Eq A⦄ → A → A → Bool
◌==◌ ⦃e⦄ = e.same

abbrev pub ◌!=◌ {ℓ} : {A : Type ℓ} ⦃e : Eq A⦄ → A → A → Bool
a != b = not (a == b)

abbrev pub nat_beq : ℕ → ℕ → Bool
nat_beq a b = elim (compare a b) [ Ordering.eq ↦ true | _ ↦ false ]

pub nat_same_iff : (a b : ℕ) → (nat_beq a b ≡ true) ↔ (a ≡ b)
nat_same_iff a b = ground arith

instance abbrev pub nat_eq : Eq ℕ
nat_eq = record { same = nat_beq; same_iff = nat_same_iff }

instance abbrev pub string_eq : Eq String
string_eq = record { same = str_eq; same_iff = eq_iff }

abbrev pub bool_beq : Bool → Bool → Bool
bool_beq true b = b
bool_beq false b = not b

pub bool_same_iff : (a b : Bool) → (bool_beq a b ≡ true) ↔ (a ≡ b)
bool_same_iff a b = ground arith

instance abbrev pub bool_eq : Eq Bool
bool_eq = record { same = bool_beq; same_iff = bool_same_iff }

-- A tuple is compared field by field.
module _ {ℓ} {A B : Type ℓ} ⦃a : Eq A⦄ ⦃b : Eq B⦄ where
  abbrev pub pair_beq : A × B → A × B → Bool
  pair_beq (x, y) (x', y') = (x == x') && (y == y')

  pub pair_same_iff : (p q : A × B) → (pair_beq p q ≡ true) ↔ (p ≡ q)
  pair_same_iff (x, y) (x', y') = ground (arith, a.same_iff x x', b.same_iff y y')

  instance abbrev pub pair_eq : Eq (A × B)
  pair_eq = record { same = pair_beq; same_iff = pair_same_iff }

module _ {ℓ} {A B C : Type ℓ} ⦃a : Eq A⦄ ⦃b : Eq B⦄ ⦃c : Eq C⦄ where
  abbrev pub triple_beq : A × B × C → A × B × C → Bool
  triple_beq (x, y, z) (x', y', z') = (x == x') && (y == y') && (z == z')

  pub triple_same_iff : (p q : A × B × C) → (triple_beq p q ≡ true) ↔ (p ≡ q)
  triple_same_iff (x, y, z) (x', y', z') =
      ground (arith, a.same_iff x x', b.same_iff y y', c.same_iff z z')

  instance abbrev pub triple_eq : Eq (A × B × C)
  triple_eq = record { same = triple_beq; same_iff = triple_same_iff }

module _ {ℓ} {A : Type ℓ} ⦃a : Eq A⦄ where
  abbrev pub option_beq : Option A → Option A → Bool
  option_beq none none = true
  option_beq (some x) (some y) = x == y
  option_beq _ _ = false

  pub option_same_iff : (o p : Option A) → (option_beq o p ≡ true) ↔ (o ≡ p)
  option_same_iff none none = ground arith
  option_same_iff (some x) (some y) = ground (arith, a.same_iff x y)
  option_same_iff none (some y) = ground arith
  option_same_iff (some x) none = ground arith

  instance abbrev pub option_eq : Eq (Option A)
  option_eq = record { same = option_beq; same_iff = option_same_iff }

-- The test that a decision procedure gives.
abbrev pub of_dec {ℓ} : {P : Type ℓ} → Dec P → Bool
of_dec (yes _) = true
of_dec (no _) = false

pub of_dec_iff {ℓ} : {P : Type ℓ} (d : Dec P) → (of_dec d ≡ true) ↔ P
of_dec_iff (yes p) = (λ _. p, λ _. refl)
of_dec_iff (no h) = (λ e. ground arith, λ p. absurd (h p))

abbrev pub Eq_of_Discrete {ℓ} : {A : Type ℓ} → Discrete A → Eq A
Eq_of_Discrete dec = record {
  same = λ a b. of_dec (dec a b);
  same_iff = λ a b. of_dec_iff (dec a b);
}

-- A value equals itself.
pub beq_refl {ℓ} : {A : Type ℓ} ⦃e : Eq A⦄ (a : A) → (a == a) ≡ true
beq_refl ⦃e⦄ a = (e.same_iff a a).1 refl

-- The law of `==`, at the instance in scope.
pub ==_iff {ℓ} : {A : Type ℓ} ⦃e : Eq A⦄ (a b : A) → ((a == b) ≡ true) ↔ (a ≡ b)
==_iff ⦃e⦄ a b = e.same_iff a b
