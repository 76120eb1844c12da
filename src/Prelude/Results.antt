-- ===== src/Prelude/Results.antt =====
-- Exceptions as values: the class of what is thrown. The text of a message is left out.
use mathlib.Core.Path.{◌≡◌, refl, ap, ◌∙◌}
use mathlib.Core.Logic.{◌⊎◌, inl, inr}
use native.Mathlib.Omega.{arith}

pub data Exception : Type 0 where
  invalid_argument overflow_error logic_error runtime_error out_of_range : Exception
  bad_variant_access length_error : Exception

pub data Result {ℓ} (A : Type ℓ) : Type ℓ where
  ok : A → Result A
  throw : Exception → Result A

pub Result-cases {ℓ} :
    {A : Type ℓ} (r : Result A) → ((e : Exception) × (r ≡ throw e)) ⊎ ((a : A) × (r ≡ ok a))
Result-cases (throw e) = inl (e, refl)
Result-cases (ok a) = inr (a, refl)

infixl 5 ◌>>=◌
abbrev pub ◌>>=◌ {ℓ κ} : {A : Type ℓ} {B : Type κ} → Result A → (A → Result B) → Result B
ok a >>= f = f a
throw e >>= f = throw e

pub bind-ok {ℓ κ} :
    {A : Type ℓ} {B : Type κ} {r : Result A} (a : A) (f : A → Result B) (q : Result B)
    → r ≡ ok a
    → f a ≡ q
    → (r >>= f) ≡ q
bind-ok a f q e h = ap (λ r. r >>= f) e ∙ h

pub bind-inv {ℓ κ} :
    {A : Type ℓ} {B : Type κ} (r : Result A) (f : A → Result B) (b : B)
    → (r >>= f) ≡ ok b
    → (a : A) × (r ≡ ok a) × (f a ≡ ok b)
bind-inv (ok a) f b h = (a, refl, h)
bind-inv (throw e) f b h = absurd (ground arith)
