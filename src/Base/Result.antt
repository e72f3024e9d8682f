-- ===== src/Base/Result.antt =====
-- What a function that may index out of range, or loop, comes to. `panic` is a slice index out of
-- range; `stuck` is a loop of the model that ran out of its fuel.
use mathlib.Core.Path.{◌≡◌, refl}
use mathlib.Core.Logic.{◌⊎◌, inl, inr}
use mathlib.Core.Option.{Option, none, some}

pub data Fault : Type 0 where
  panic stuck : Fault

pub data Result {κ} (Value : Type κ) : Type κ where
  err : Fault → Result Value
  ok : Value → Result Value

abbrev pub or_panic {κ} : {Value : Type κ} → Option Value → Result Value
or_panic (some v) = ok v
or_panic none = err panic

pub Result-cases {κ} :
    {Value : Type κ} (r : Result Value)
    → ((v : Value) × (r ≡ ok v)) ⊎ ((fault : Fault) × (r ≡ err fault))
Result-cases (err fault) = inr (fault, refl)
Result-cases (ok v) = inl (v, refl)

module _ {ι κ} {Value : Type ι} {Next : Type κ} where
  infixl 5 ◌>>=◌
  abbrev pub ◌>>=◌ : Result Value → (Value → Result Next) → Result Next
  err fault >>= next = err fault
  ok v >>= next = next v

  -- Both parts of a chain that came to a value did.
  pub >>=-eq-ok :
      (r : Result Value) (next : Value → Result Next) {w : Next}
      → (r >>= next) ≡ ok w
      → (v : Value) × (r ≡ ok v) × (next v ≡ ok w)
  >>=-eq-ok (err fault) next e = cc
  >>=-eq-ok (ok v) next e = (v, refl, e)
