-- ===== src/Base/Result.antt =====
-- A call that returns a value or raises one of the errors of its component.
use mathlib.Core.Bool.{Bool, true, false}
use mathlib.Core.Logic.{inl, inr, ◌⊎◌}
use mathlib.Core.Path.{refl, ◌≡◌}

pub data Result (E : Type 0) (A : Type 0) : Type 0 where
  err : E → Result E A
  ok : A → Result E A

-- Whether a call returned or raised.
pub Result-cases :
    {E A : Type 0} (r : Result E A) → ((a : A) × (r ≡ ok a)) ⊎ ((e : E) × (r ≡ err e))
Result-cases (err e) = inr (e, refl)
Result-cases (ok a) = inl (a, refl)

-- `if test: raise e`
abbrev pub raise_if : {E : Type 0} → Bool → E → Result E (Unit {0})
raise_if false e = ok tt
raise_if true e = err e

-- A statement after another: what the first raises is not caught.
infixl 5 ◌>>=◌ ◌>>◌
abbrev pub ◌>>=◌ : {E A B : Type 0} → Result E A → (A → Result E B) → Result E B
call >>= rest = elim call [ err e ↦ err e | ok a ↦ rest a ]

abbrev pub ◌>>◌ : {E A B : Type 0} → Result E A → Result E B → Result E B
call >> rest = call >>= λ a. rest

pub >>=-returns :
    {E A B : Type 0} {b : B} (call : Result E A) (rest : A → Result E B)
    → (call >>= rest) ≡ ok b
    → (a : A) × (call ≡ ok a) × (rest a ≡ ok b)
>>=-returns (err e) rest h = cc
>>=-returns (ok a) rest h = (a, refl, h)
