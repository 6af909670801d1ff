-- ===== src/LockSet/Meet.antt =====
-- The sets of locks in tools/detect.cc, read by membership.
use racez.Base.{
  ℕ, zero, suc, ◌≤◌, ◌<◌, ◌≡◌, refl, false, ◌&&◌, ◌||◌, List, [], ◌∷◌, arith, ◌==◌, length, take,
  contains, ok,
}
use racez.LockSet.{insert_lock, collect, set_intersection}

-- All members are above `a`.
abbrev pub Above : ℕ → List ℕ → Type 0
Above a [] = Unit {0}
Above a (x ∷ xs) = (a < x) × Above a xs

abbrev pub IsRising : List ℕ → Type 0
IsRising [] = Unit {0}
IsRising (x ∷ xs) = Above x xs × IsRising xs

Above-mono : (a b : ℕ) (xs : List ℕ) → a ≤ b → Above b xs → Above a xs
Above-mono a b [] h v = tt
Above-mono a b (x ∷ xs) h v = (omega arith, Above-mono a b xs h v.1)

Above-contains : (a b : ℕ) (xs : List ℕ) → Above b xs → a ≤ b → contains a xs ≡ false
Above-contains a b [] v h = refl
Above-contains a b (x ∷ xs) v h = ground (arith, Above-contains a b xs v.1)

insert_lock-Above : (a b : ℕ) (xs : List ℕ) → b < a → Above b xs → Above b (insert_lock a xs)
unfolding insert_lock
insert_lock-Above a b [] h v = (h, tt)
insert_lock-Above a b (x ∷ xs) h v = ground (arith, insert_lock-Above a b xs)

pub insert_lock-IsRising : (a : ℕ) (xs : List ℕ) → IsRising xs → IsRising (insert_lock a xs)
unfolding insert_lock
insert_lock-IsRising a [] v = (tt, tt)
insert_lock-IsRising a (x ∷ xs) v =
    ground (arith, insert_lock-IsRising a xs v.1, insert_lock-Above a x xs, Above-mono a x xs)

pub contains-insert_lock :
    (a b : ℕ) (xs : List ℕ) → contains a (insert_lock b xs) ≡ (b == a || contains a xs)
unfolding insert_lock
contains-insert_lock a b [] = ground arith
contains-insert_lock a b (x ∷ xs) = ground (arith, contains-insert_lock a b xs)

pub collect_lem :
    (n : ℕ) (slots acc : List ℕ)
    → n ≤ length slots
    → IsRising acc
    → (s : List ℕ) × (collect n slots acc ≡ ok s)
      × IsRising s
      × ((a : ℕ) → contains a s ≡ (contains a acc || contains a (take n slots)))
unfolding collect
collect_lem zero slots acc h v = (acc, refl, v, λ a. ground arith)
collect_lem (suc n) [] acc h v = absurd (omega arith)
collect_lem (suc n) (x ∷ slots) acc h v =
    let (s, e, v', c) =
      collect_lem n slots (insert_lock x acc) (omega arith) (insert_lock-IsRising x acc v) in
    (s, e, v', λ a. ground (arith, c a, contains-insert_lock a x acc))

inter-Above : (a : ℕ) (xs ys : List ℕ) → Above a xs → Above a (set_intersection xs ys)
unfolding set_intersection
inter-Above a [] ys v = tt
inter-Above a (x ∷ xs) [] v = tt
inter-Above a (x ∷ xs) (y ∷ ys) v =
    ground
      (arith, inter-Above a xs (y ∷ ys) v.1, inter-Above a xs ys v.1, inter-Above a (x ∷ xs) ys v)

pub inter-IsRising : (xs ys : List ℕ) → IsRising xs → IsRising (set_intersection xs ys)
unfolding set_intersection
inter-IsRising [] ys v = tt
inter-IsRising (x ∷ xs) [] v = tt
inter-IsRising (x ∷ xs) (y ∷ ys) v = ground (
  arith,
  inter-IsRising xs (y ∷ ys) v.1,
  inter-IsRising xs ys v.1,
  inter-IsRising (x ∷ xs) ys v,
  inter-Above x xs ys v.0,
)

-- Of two rising lists the merge keeps exactly the common members.
pub contains-set_intersection :
    (a : ℕ) (xs ys : List ℕ)
    → IsRising xs
    → IsRising ys
    → contains a (set_intersection xs ys) ≡ (contains a xs && contains a ys)
unfolding set_intersection
contains-set_intersection a [] ys v w = refl
contains-set_intersection a (x ∷ xs) [] v w = ground arith
contains-set_intersection a (x ∷ xs) (y ∷ ys) v w = ground (
  arith,
  contains-set_intersection a xs (y ∷ ys) v.1 w,
  contains-set_intersection a xs ys v.1 w.1,
  contains-set_intersection a (x ∷ xs) ys v w.1,
  Above-contains a x xs v.0,
  Above-contains a y ys w.0,
)
