-- ===== src/Vm/Faults.antt =====
-- What stops the machine inside an operation, and postconditions of operations.
use nib_lang.Base.{◌≡◌, refl, Bool, true, false, if◌then◌else◌}

-- A failed `assert`; an operation that C leaves undefined; a read or a write of a cell that its
-- deleter has freed; and the limits of the model, where the code goes on: a count of references that
-- would pass 32 bits, a bound closure that takes the values that are left above the top of the stack
-- for its arguments, and a call of a native function that the model does not follow.
pub data Fault : Type 0 where
  assertion undefined use_after_free count_overflow stale_slots native_call : Fault

pub data Result {ℓ} (A : Type ℓ) : Type ℓ where
  ok : A → Result A
  fault : Fault → Result A

infixl 1 ◌>>=◌
abbrev pub ◌>>=◌ {ℓ κ} : {A : Type ℓ} {B : Type κ} → Result A → (A → Result B) → Result B
ok a >>= f = f a
fault e >>= f = fault e

abbrev pub check : Bool → Result {0} Unit
check b = if b then ok tt else fault assertion

-- `assert`-like, for what the code does not test.
abbrev pub defined : Bool → Result {0} Unit
defined b = if b then ok tt else fault undefined

-- The fault is not a touch of a freed cell.
abbrev pub NoTouch : Fault → Type 0
NoTouch use_after_free = ⊥
NoTouch _ = Unit

-- `P` holds of the value, or the operation stopped before any freed cell was touched.
pub data Post {ℓ} {A : Type ℓ} (P : A → Type 0) : Result A → Type ℓ where
  returns : {a : A} → P a → Post P (ok a)
  stops : {e : Fault} → NoTouch e → Post P (fault e)

module _ {ℓ κ} {A : Type ℓ} {B : Type κ} where
  pub Post-bind :
      {P : A → Type 0} {Q : B → Type 0} {r : Result A} {f : A → Result B}
      → Post P r
      → ((a : A) → P a → Post Q (f a))
      → Post Q (r >>= f)
  Post-bind (returns h) k = k _ h
  Post-bind (stops h) k = stops h

-- Whether the arguments on the stack are enough.
abbrev pub on_stack : Bool → Result {0} Unit
on_stack b = if b then ok tt else fault stale_slots

pub Post-on_stack : (b : Bool) → Post (λ _. b ≡ true) (on_stack b)
Post-on_stack true = returns refl
Post-on_stack false = stops tt

pub Post-check : (b : Bool) → Post (λ _. b ≡ true) (check b)
Post-check true = returns refl
Post-check false = stops tt

pub Post-defined : (b : Bool) → Post (λ _. b ≡ true) (defined b)
Post-defined true = returns refl
Post-defined false = stops tt

pub Post-map {ℓ} :
    {A : Type ℓ} {P Q : A → Type 0} {r : Result A} → ((a : A) → P a → Q a) → Post P r → Post Q r
Post-map f (returns h) = returns (f _ h)
Post-map f (stops h) = stops h

pub if_Post {ℓ} :
    {A : Type ℓ} {P : A → Type 0} (b : Bool) {x y : Result A}
    → Post P x
    → Post P y
    → Post P (if b then x else y)
if_Post true p q = p
if_Post false p q = q
