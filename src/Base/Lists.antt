-- ===== src/Base/Lists.antt =====
-- Lists measured and indexed by native numbers, under the library's names, and C arrays on them.
use Prim.Native.Nat.{ℕ, zero, suc, ◌+◌, ◌≤◌, ◌<◌}
use mathlib.Core.Path.{◌≡◌, refl, ap}
use mathlib.Core.Bool.{Bool, true, false, ◌&&◌, ◌||◌}
use mathlib.Core.List.{List, [], ◌∷◌, ◌++◌}
use mathlib.Core.Option.{Option, none, some}
use native.Mathlib.Omega.{arith}
use racez.Base.Tests.{◌==◌}
use racez.Base.Faults.{Outcome, ok, fault, out_of_bounds}

module _ {ℓ} {A : Type ℓ} where
  abbrev pub length : List A → ℕ
  length [] = 0
  length (x ∷ xs) = suc (length xs)

  abbrev pub get_elem? : List A → ℕ → Option A
  get_elem? [] i = none
  get_elem? (x ∷ xs) zero = some x
  get_elem? (x ∷ xs) (suc i) = get_elem? xs i

  abbrev pub set : List A → ℕ → A → List A
  set [] i v = []
  set (x ∷ xs) zero v = v ∷ xs
  set (x ∷ xs) (suc i) v = x ∷ set xs i v

  abbrev pub take : ℕ → List A → List A
  take zero xs = []
  take (suc n) [] = []
  take (suc n) (x ∷ xs) = x ∷ take n xs

  abbrev pub drop : ℕ → List A → List A
  drop zero xs = xs
  drop (suc n) [] = []
  drop (suc n) (x ∷ xs) = drop n xs

  pub length-append : (xs ys : List A) → length (xs ++ ys) ≡ length xs + length ys
  length-append [] ys = omega arith
  length-append (x ∷ xs) ys = omega (arith, length-append xs ys)

  pub length-set : (xs : List A) (i : ℕ) (v : A) → length (set xs i v) ≡ length xs
  length-set [] i v = refl
  length-set (x ∷ xs) zero v = refl
  length-set (x ∷ xs) (suc i) v = ap suc (length-set xs i v)

  pub length-take_of_le : (n : ℕ) (xs : List A) → n ≤ length xs → length (take n xs) ≡ n
  length-take_of_le zero xs h = refl
  length-take_of_le (suc n) [] h = absurd (omega arith)
  length-take_of_le (suc n) (x ∷ xs) h = ap suc (length-take_of_le n xs (omega arith))

  -- `a[i]` and `a[i] = v` on a C array: beyond its end they are undefined.
  abbrev pub load : List A → ℕ → Outcome A
  load [] i = fault out_of_bounds
  load (x ∷ xs) zero = ok x
  load (x ∷ xs) (suc i) = load xs i

  abbrev pub cons_ok : A → Outcome (List A) → Outcome (List A)
  cons_ok x (ok xs) = ok (x ∷ xs)
  cons_ok x (fault e) = fault e

  abbrev pub store : List A → ℕ → A → Outcome (List A)
  store [] i v = fault out_of_bounds
  store (x ∷ xs) zero v = ok (v ∷ xs)
  store (x ∷ xs) (suc i) v = cons_ok x (store xs i v)

module _ {ℓ} {A : Type ℓ} where
  pub store-set : (xs : List A) (i : ℕ) (v : A) → i < length xs → store xs i v ≡ ok (set xs i v)
  store-set [] i v h = absurd (omega arith)
  store-set (x ∷ xs) zero v h = refl
  store-set (x ∷ xs) (suc i) v h = ap (cons_ok x) (store-set xs i v (omega arith))

  pub store_beyond :
      (xs : List A) (i : ℕ) (v : A) → length xs ≤ i → store xs i v ≡ fault out_of_bounds
  store_beyond [] i v h = refl
  store_beyond (x ∷ xs) zero v h = absurd (omega arith)
  store_beyond (x ∷ xs) (suc i) v h = ap (cons_ok x) (store_beyond xs i v (omega arith))

  pub load_total :
      (xs : List A) (i : ℕ)
      → i < length xs
      → (a : A) × (load xs i ≡ ok a) × (get_elem? xs i ≡ some a)
  load_total [] i h = absurd (omega arith)
  load_total (x ∷ xs) zero h = (x, refl, refl)
  load_total (x ∷ xs) (suc i) h = load_total xs i (omega arith)

  pub load_of_get_elem? : (xs : List A) (i : ℕ) (a : A) → get_elem? xs i ≡ some a → load xs i ≡ ok a
  load_of_get_elem? [] i a h = cc
  load_of_get_elem? (x ∷ xs) zero a h = ground arith
  load_of_get_elem? (x ∷ xs) (suc i) a h = load_of_get_elem? xs i a h

  pub get_elem?-set_self :
      (xs : List A) (i : ℕ) (v : A) → i < length xs → get_elem? (set xs i v) i ≡ some v
  get_elem?-set_self [] i v h = absurd (omega arith)
  get_elem?-set_self (x ∷ xs) zero v h = refl
  get_elem?-set_self (x ∷ xs) (suc i) v h = get_elem?-set_self xs i v (omega arith)

-- Membership of a number in a list, as a test.
abbrev pub contains : ℕ → List ℕ → Bool
contains a [] = false
contains a (x ∷ xs) = x == a || contains a xs

abbrev pub all {ℓ} : {A : Type ℓ} → (A → Bool) → List A → Bool
all p [] = true
all p (x ∷ xs) = p x && all p xs
