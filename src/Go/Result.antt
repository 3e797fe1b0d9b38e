-- ===== src/Go/Result.antt =====
-- A pair of a value and an error, of which the caller reads the value only if the error is nil.
-- A `do` block over it is a chain of `if err != nil { return err }`.
use huma.Base.{◌≡◌, refl, ◌↔◌, ◌⊎◌, inl, inr, Bool, true, false, Option, none, some}
use huma.Go.Errors.{Error}

pub data Result {ℓ} (A : Type ℓ) : Type ℓ where
  ok : A → Result A
  err : Error → Result A

infixl 5 ◌>>=◌ ◌>>◌
-- if b { return err }
abbrev pub refuse : Bool → Error → Result (Unit {0})
refuse true e = err e
refuse false e = ok tt

-- The value goes to the next step; an error ends the chain.
abbrev pub ◌>>=◌ {ℓ κ} : {A : Type ℓ} {B : Type κ} → Result A → (A → Result B) → Result B
err cause >>= next = err cause
ok value >>= next = next value

-- A step whose value is of no use.
abbrev pub ◌>>◌ {ℓ} : {B : Type ℓ} → Result (Unit {0}) → Result B → Result B
err cause >> rest = err cause
ok tt >> rest = rest

-- The error alone.
abbrev pub error_of {ℓ} : {A : Type ℓ} → Result A → Option Error
error_of (ok _) = none
error_of (err e) = some e

-- A chain passes a test exactly when the test is false and the rest passes.
pub refuse_iff {ℓ} :
    {A : Type ℓ} (b : Bool) (e : Error) (k : Result A) (a : A)
    → ((refuse b e >> k) ≡ ok a) ↔ ((b ≡ false) × (k ≡ ok a))
refuse_iff true e k a = (λ h. cc, λ h. cc h.0)
refuse_iff false e k a = (λ h. (refl, h), λ h. h.1)

pub then_iff {ℓ} :
    {A : Type ℓ} (m : Result (Unit {0})) (k : Result A) (a : A)
    → ((m >> k) ≡ ok a) ↔ ((m ≡ ok tt) × (k ≡ ok a))
then_iff (ok tt) k a = (λ h. (refl, h), λ h. h.1)
then_iff (err e) k a = (λ h. cc, λ h. cc h.0)

-- To split on a computed result and keep the equation.
pub Result-cases {ℓ} :
    {A : Type ℓ} (r : Result A) → ((a : A) × (r ≡ ok a)) ⊎ ((e : Error) × (r ≡ err e))
Result-cases (ok a) = inl (a, refl)
Result-cases (err e) = inr (e, refl)
