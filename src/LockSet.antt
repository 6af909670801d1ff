-- ===== src/LockSet.antt =====
-- `LockSet`, the std::set of mutex addresses in tools/detect.cc: a rising list.
pub mod Meet
use Prim.Native.Nat.{compare, Ordering}
use racez.Base.{
  ℕ, zero, suc, ◌<◌, Bool, List, [], ◌∷◌, ltb, if◌then◌else◌, Outcome, ok, fault, out_of_bounds,
}

-- `set::insert`
unfoldable pub insert_lock : ℕ → List ℕ → List ℕ
insert_lock a [] = a ∷ []
insert_lock a (x ∷ xs) =
    if ltb a x then a ∷ x ∷ xs else if ltb x a then x ∷ insert_lock a xs else x ∷ xs

-- The loop that puts the first `rounds` slots of a record's `lockset_` into a set.
unfoldable pub collect : ℕ → List ℕ → List ℕ → Outcome (List ℕ)
collect zero slots acc = ok acc
collect (suc n) [] acc = fault out_of_bounds
collect (suc n) (x ∷ slots) acc = collect n slots (insert_lock x acc)

-- `set_intersection` of two sorted ranges.
unfoldable pub set_intersection : List ℕ → List ℕ → List ℕ
set_intersection [] ys = []
set_intersection (x ∷ xs) [] = []
set_intersection (x ∷ xs) (y ∷ ys) = elim (compare x y) [
  | Ordering.lt ↦ set_intersection xs (y ∷ ys)
  | Ordering.eq ↦ x ∷ set_intersection xs ys
  | Ordering.gt ↦ set_intersection (x ∷ xs) ys
]
