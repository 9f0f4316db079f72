-- ===== src/Errors.antt =====
-- Python's exceptions, as the services raise them, and methods that may raise: what a method wrote
-- before the exception stays written, so the state comes back beside the error too.
use agents_reality_layer.Prelude.{subst, String, ◌≡◌, refl, ◌⊎◌, inl, inr}

pub data Error : Type 0 where
  key_error value_error : String → Error
  -- an exception of code that is called: a provider, a clock, a comparison of two kinds of times
  raised : String → Error

-- What a method gives: the exception that ends it, or its value.
pub data Result {ℓ} (A : Type ℓ) : Type ℓ where
  err : Error → Result A
  ok : A → Result A

module _ {ℓ κ} {A : Type ℓ} {B : Type κ} where
  infixl 5 ◌>>=◌
  abbrev pub ◌>>=◌ : Result A → (A → Result B) → Result B
  err problem >>= next = err problem
  ok value >>= next = next value

pub Result-cases {ℓ} :
    {A : Type ℓ} (r : Result A) → ((a : A) × (r ≡ ok a)) ⊎ ((e : Error) × (r ≡ err e))
Result-cases (ok a) = inl (a, refl)
Result-cases (err e) = inr (e, refl)

pub ok_injective {ℓ} : {A : Type ℓ} {x y : A} → ok x ≡ ok y → x ≡ y
ok_injective h = cc

-- What holds of the value, if there is one.
abbrev pub OkAll {ℓ κ} : {A : Type ℓ} → (A → Type κ) → Result A → Type κ
OkAll P (ok a) = P a
OkAll P (err e) = Unit

pub OkAll->>= {ℓ κ ι} :
    {A B : Type ℓ} (P : A → Type κ) (Q : B → Type ι) (m : Result A) (f : A → Result B)
    → OkAll P m
    → ((a : A) → P a → OkAll Q (f a))
    → OkAll Q (m >>= f)
OkAll->>= P Q (ok a) f h k = k a h
OkAll->>= P Q (err e) f h k = tt

pub OkAll-ok {ℓ κ} :
    {A : Type ℓ} (P : A → Type κ) {m : Result A} {a : A} → OkAll P m → m ≡ ok a → P a
OkAll-ok P h e = subst (λ r. OkAll P r) e h

pub OkAll-map {ℓ κ ι} :
    {A : Type ℓ} (P : A → Type κ) (Q : A → Type ι) (m : Result A)
    → OkAll P m
    → ((a : A) → P a → Q a)
    → OkAll Q m
OkAll-map P Q (ok a) h k = k a h
OkAll-map P Q (err e) h k = tt
