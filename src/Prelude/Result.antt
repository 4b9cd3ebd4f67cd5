-- ===== src/Prelude/Result.antt =====
-- A call that returns or raises: `E` is what may be raised.
use mathlib.Core.Path.{◌≡◌, refl}
use mathlib.Core.Logic.{◌⊎◌, inl, inr}
use mathlib.Core.Bool.{Bool}
use mcp_odoo.Prelude.Tests.{if◌then◌else◌}

pub data Result {ℓ} (E : Type 0) (A : Type ℓ) : Type ℓ where
  ok : A → Result E A
  err : E → Result E A

infixl 5 ◌>>=◌ ◌>>◌
-- what follows a call that may raise
abbrev pub ◌>>=◌ {ℓ κ} :
    {E : Type 0} {A : Type ℓ} {B : Type κ} → Result E A → (A → Result E B) → Result E B
ok a >>= next = next a
err e >>= next = err e

abbrev pub ◌>>◌ {ℓ} : {E : Type 0} {B : Type ℓ} → Result E (Unit {0}) → Result E B → Result E B
first >> next = first >>= λ _. next

-- `if not test: raise e`
abbrev pub guard : {E : Type 0} → Bool → E → Result E (Unit {0})
guard test e = if test then ok tt else err e

module _ {ℓ κ} {E : Type 0} {A : Type ℓ} {B : Type κ} where
  -- a chain that returns went through its first call
  pub >>=-eq-ok :
      (call : Result E A) (next : A → Result E B) {b : B}
      → (call >>= next) ≡ ok b
      → (a : A) × (call ≡ ok a) × (next a ≡ ok b)
  >>=-eq-ok (ok a) next returns = (a, refl, returns)
  >>=-eq-ok (err e) next returns = cc

pub Result-cases {ℓ} :
    {E : Type 0} {A : Type ℓ} (call : Result E A)
    → ((e : E) × (call ≡ err e)) ⊎ ((a : A) × (call ≡ ok a))
Result-cases (err e) = inl (e, refl)
Result-cases (ok a) = inr (a, refl)

pub ok_inj {ℓ} : {E : Type 0} {A : Type ℓ} {a b : A} → ◌≡◌ {A = Result E A} (ok a) (ok b) → a ≡ b
ok_inj h = cc
