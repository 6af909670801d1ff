-- ===== src/Base/Faults.antt =====
-- What a run of the C and C++ sources can end in besides a result: a failed `assert`, `exit`, and the
-- memory errors that the language leaves undefined.
use mathlib.Core.Path.{◌≡◌, subst}
use mathlib.Core.Bool.{Bool, true, false}

pub data Fault : Type 0 where
  assertion_failed out_of_bounds null_pointer bad_iterator divided_by_zero indeterminate exited :
      Fault

pub data Outcome {ℓ} (A : Type ℓ) : Type ℓ where
  ok : A → Outcome A
  fault : Fault → Outcome A

infixl 5 ◌>>=◌ ◌>>◌
abbrev pub ◌>>=◌ {ℓ κ} : {A : Type ℓ} {B : Type κ} → Outcome A → (A → Outcome B) → Outcome B
ok a >>= f = f a
fault e >>= f = fault e

abbrev pub ◌>>◌ {ℓ} : {B : Type ℓ} → Outcome (Unit {0}) → Outcome B → Outcome B
m >> k = m >>= λ _. k

-- `assert(b)`
abbrev pub assert : Bool → Outcome (Unit {0})
assert true = ok tt
assert false = fault assertion_failed

pub ok-injective {ℓ} : {A : Type ℓ} {a b : A} → ok a ≡ ok b → a ≡ b
ok-injective e = cc

-- What holds of a result, if there is one.
abbrev pub Yields {ℓ κ} : {A : Type ℓ} → (A → Type κ) → Outcome A → Type κ
Yields P (ok a) = P a
Yields P (fault e) = Unit

module _ {ℓ κ} {A : Type ℓ} (P : A → Type κ) where
  pub Yields-bind {ι λλ} :
      {B : Type ι} (Q : B → Type λλ) (o : Outcome A) (f : A → Outcome B)
      → Yields P o
      → ((a : A) → P a → Yields Q (f a))
      → Yields Q (o >>= f)
  Yields-bind Q (ok a) f h k = k a h
  Yields-bind Q (fault e) f h k = tt

  pub Yields-always : (o : Outcome A) → ((a : A) → P a) → Yields P o
  Yields-always (ok a) h = h a
  Yields-always (fault e) h = tt

  pub Yields-result : (o : Outcome A) (a : A) → Yields P o → o ≡ ok a → P a
  Yields-result o a h e = subst (Yields P) e h
