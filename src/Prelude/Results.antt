-- ===== src/Prelude/Results.antt =====
-- Exceptions as values.
use mathlib.Core.Path.{◌≡◌, refl}
use mathlib.Core.Logic.{◌⊎◌, inl, inr}
use mathlib.Core.Bool.{Bool, true, false}

pub data Result {ℓ κ} (E : Type ℓ) (A : Type κ) : Type (ℓ ⊔ κ) where
  ok : A → Result E A
  err : E → Result E A

infixl 5 ◌>>=◌ ◌>>◌
-- The rest of the code runs on the value, unless an exception was raised before it.
abbrev pub ◌>>=◌ {ℓ κ ι} :
    {Raised : Type ℓ} {Value : Type κ} {Rest : Type ι}
    → Result Raised Value
    → (Value → Result Raised Rest)
    → Result Raised Rest
err raised >>= rest = err raised
ok value >>= rest = rest value

-- The same for a check, which returns nothing.
abbrev pub ◌>>◌ {ℓ κ} :
    {Raised : Type ℓ} {Rest : Type κ}
    → Result Raised (Unit {0})
    → Result Raised Rest
    → Result Raised Rest
err raised >> rest = err raised
ok passed >> rest = rest

-- `if test: raise e`
abbrev pub raise_if {ℓ} : {Raised : Type ℓ} → Bool → Raised → Result Raised (Unit {0})
raise_if true raised = err raised
raise_if false raised = ok tt

-- What a successful bind ran through.
pub >>=-eq-ok {ℓ κ ι} :
    {Raised : Type ℓ} {Value : Type κ} {Rest : Type ι} (first : Result Raised Value)
    (rest : Value → Result Raised Rest) {final : Rest}
    → (first >>= rest) ≡ ok final
    → (value : Value) × (first ≡ ok value) × (rest value ≡ ok final)
>>=-eq-ok (err raised) rest e = cc
>>=-eq-ok (ok value) rest e = (value, refl, e)

pub Result-cases {ℓ κ} :
    {Raised : Type ℓ} {Value : Type κ} (result : Result Raised Value)
    → ((value : Value) × (result ≡ ok value)) ⊎ ((raised : Raised) × (result ≡ err raised))
Result-cases (err raised) = inr (raised, refl)
Result-cases (ok value) = inl (value, refl)
