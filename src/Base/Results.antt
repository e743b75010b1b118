-- ===== src/Base/Results.antt =====
-- Go's `(value, error)` pairs: a value or one of the program's named errors.
use mathlib.Core.Path.{◌≡◌, refl, ap}

pub data Result {ε ℓ} (Failure : Type ε) (Value : Type ℓ) : Type (ε ⊔ ℓ) where
  err : Failure → Result Failure Value
  ok : Value → Result Failure Value

module _ {ε ℓ} {Failure : Type ε} {Value : Type ℓ} where
  value_or : Value → Result Failure Value → Value
  value_or other (err e) = other
  value_or other (ok value) = value

  pub ok-injective : {v w : Value} → ◌≡◌ {A = Result Failure Value} (ok v) (ok w) → v ≡ w
  unfolding value_or
  ok-injective {v} h = ap (value_or v) h

  pub err-is-not-ok : {e : Failure} {v : Value} → Result.err e ≡ ok v → ⊥
  err-is-not-ok h = cc

-- What follows an `if err != nil { return err }`.
module _ {ε ℓ κ} {Failure : Type ε} {Value : Type ℓ} {Next : Type κ} where
  infixl 5 ◌>>=◌
  abbrev pub ◌>>=◌ : Result Failure Value → (Value → Result Failure Next) → Result Failure Next
  err failure >>= continue = err failure
  ok value >>= continue = continue value

  pub >>=-eq-ok :
      (first : Result Failure Value) (continue : Value → Result Failure Next) {last : Next}
      → (first >>= continue) ≡ ok last
      → (value : Value) × (first ≡ ok value) × (continue value ≡ ok last)
  >>=-eq-ok (err failure) continue reached = cc
  >>=-eq-ok (ok value) continue reached = (value, refl, reached)
