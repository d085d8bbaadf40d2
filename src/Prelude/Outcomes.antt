-- ===== src/Prelude/Outcomes.antt =====
-- `Result`, with the value first.
use mathlib.Core.Path.{◌≡◌, refl}
use mathlib.Core.Logic.{◌⊎◌, inl, inr}

pub data Outcome (A E : Type 0) : Type 0 where
  ok : A → Outcome A E
  err : E → Outcome A E

pub Outcome-cases :
    {A E : Type 0} (o : Outcome A E) → ((a : A) × (o ≡ ok a)) ⊎ ((e : E) × (o ≡ err e))
Outcome-cases (ok a) = inl (a, refl)
Outcome-cases (err e) = inr (e, refl)
