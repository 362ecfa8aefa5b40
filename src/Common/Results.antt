-- ===== src/Common/Results.antt =====
-- What a call returns, or the exception that it raises.
use mathlib.Core.Path.{◌≡◌, refl}
use mathlib.Core.Bool.{Bool, true, false}

pub data Result {ε ℓ} (Raised : Type ε) (Returned : Type ℓ) : Type (ε ⊔ ℓ) where
  err : Raised → Result Raised Returned
  ok : Returned → Result Raised Returned

module _ {ε} {E : Type ε} where
  -- An exception ends the chain.
  infixl 5 ◌>>=◌
  abbrev pub ◌>>=◌ {ℓ μ} :
      {A : Type ℓ} {B : Type μ} (call : Result E A) (rest : A → Result E B) → Result E B
  err raised >>= _ = err raised
  ok value >>= rest = rest value

  -- `if not holds: raise e`
  abbrev pub raise_unless : Bool → E → Result E (Unit {0})
  raise_unless false raised = err raised
  raise_unless true _ = ok tt

  pub ok_injective {ℓ} : {A : Type ℓ} (a b : A) → ◌≡◌ {A = Result E A} (ok a) (ok b) → a ≡ b
  ok_injective a b h = cc

  -- What a successful chain of two calls did.
  pub >>=-eq-ok {ℓ μ} :
      {A : Type ℓ} {B : Type μ} (m : Result E A) (f : A → Result E B) {b : B}
      → (m >>= f) ≡ ok b
      → (a : A) × (m ≡ ok a) × (f a ≡ ok b)
  >>=-eq-ok (err e) f h = cc
  >>=-eq-ok (ok a) f h = (a, refl, h)
