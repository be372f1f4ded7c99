-- ===== src/Base/Results.antt =====
-- Outcomes of code that dereferences pointers and writes arrays: a value, or the fault that ends
-- the run. The sources check none of these accesses, so a fault stands for undefined behaviour.
use mathlib.Core.Path.{◌≡◌, refl}
use mathlib.Core.Bool.{Bool, true, false}
use sflow_toolkit.Base.Tests.{if◌then◌else◌}

-- `overread`: a read behind the end of an object. `overrun`: a write behind the end of an array.
-- `null_pointer`: a dereference of `NULL`, or of an address at which nothing was allocated.
-- `uninitialised`: a read of a variable that was not written.
-- `division_by_zero`: of an integer.
-- `out_of_fuel`: not a fault of the program, the loop's fuel in the model was too small.
pub data Fault : Type 0 where
  overread overrun null_pointer uninitialised division_by_zero out_of_fuel : Fault

pub data Result {ℓ} (A : Type ℓ) : Type ℓ where
  ok : A → Result A
  fault : Fault → Result A

module _ {ℓ κ} {A : Type ℓ} {B : Type κ} where
  -- What follows a value; a fault ends the run.
  abbrev pub and_then : Result A → (A → Result B) → Result B
  and_then (fault e) next = fault e
  and_then (ok a) next = next a

  infixl 5 ◌>>=◌
  abbrev pub ◌>>=◌ : Result A → (A → Result B) → Result B
  ◌>>=◌ = and_then

  -- A run in two parts that returns has returned in both.
  pub >>=-eq_ok :
      (first : Result A) (next : A → Result B) {b : B}
      → (first >>= next) ≡ ok b
      → (a : A) × (first ≡ ok a) × (next a ≡ ok b)
  >>=-eq_ok (fault e) next returned = cc
  >>=-eq_ok (ok a) next returned = (a, refl, returned)

-- The run ends with a value, and the value satisfies `P`.
pub data Returns {A : Type 0} (P : A → Type 0) : Result A → Type 0 where
  returns : {a : A} → P a → Returns P (ok a)

module _ {A : Type 0} {P : A → Type 0} where
  pub Returns-bind :
      {B : Type 0} {Q : B → Type 0} {m : Result A} {f : A → Result B}
      → Returns P m
      → ((a : A) → P a → Returns Q (f a))
      → Returns Q (m >>= f)
  Returns-bind (returns p) k = k _ p

  pub Returns-weaken :
      {Q : A → Type 0} {m : Result A} → Returns P m → ((a : A) → P a → Q a) → Returns Q m
  Returns-weaken (returns p) k = returns (k _ p)

  pub Returns-value : {m : Result A} → Returns P m → (a : A) × (m ≡ ok a) × P a
  Returns-value (returns p) = (_, refl, p)

  pub Returns-eq : {m : Result A} {a : A} → m ≡ ok a → P a → Returns P m
  Returns-eq e p = rw e (returns p)

  pub Returns-if :
      (b : Bool) {m n : Result A} → Returns P m → Returns P n → Returns P (if b then m else n)
  Returns-if true h k = h
  Returns-if false h k = k

module _ {ℓ κ} {A : Type ℓ} {B : Type κ} where
  pub and_then_ext :
      (m : Result A) (f g : A → Result B) → ((a : A) → f a ≡ g a) → and_then m f ≡ and_then m g
  and_then_ext (ok a) f g h = h a
  and_then_ext (fault e) f g h = refl

  pub and_then_assoc {μ} :
      {C : Type μ} (m : Result A) (f : A → Result B) (g : B → Result C)
      → and_then (and_then m f) g ≡ and_then m (λ a. and_then (f a) g)
  and_then_assoc (ok a) f g = refl
  and_then_assoc (fault e) f g = refl
