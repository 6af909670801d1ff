-- ===== src/Lockset/Arrays.antt =====
-- Facts on the slots of a lock set (racez_lockset.h), an array of which the first `n` are in use.
use mathlib.Core.List.{perm_middle, append-nil, Perm}
use mathlib.Core.List.Perm
use racez.Base.{
  ℕ, zero, suc, ◌+◌, ◌≤◌, ◌<◌, ◌≡◌, refl, ap, inl, inr, true, false, List, [], ◌∷◌, ◌++◌, some,
  none, arith, ◌==◌, Bool-cases, length, get_elem?, set, take, contains, ok,
}
use racez.Lockset.{find_slot}

module _ {ℓ} {A : Type ℓ} where
  pub take-set_end :
      (k : ℕ) (xs : List A) (v : A)
      → k < length xs
      → take (suc k) (set xs k v) ≡ take k xs ++ v ∷ []
  take-set_end k [] v h = absurd (omega arith)
  take-set_end zero (x ∷ xs) v h = refl
  take-set_end (suc k) (x ∷ xs) v h = ap (◌∷◌ x) (take-set_end k xs v (omega arith))

  pub take-set_beyond : (k j : ℕ) (xs : List A) (v : A) → k ≤ j → take k (set xs j v) ≡ take k xs
  take-set_beyond zero j xs v h = refl
  take-set_beyond (suc k) j [] v h = refl
  take-set_beyond (suc k) zero (x ∷ xs) v h = absurd (omega arith)
  take-set_beyond (suc k) (suc j) (x ∷ xs) v h = ap (◌∷◌ x) (take-set_beyond k j xs v (omega arith))

  pub take-set_inside : (k j : ℕ) (xs : List A) (v : A) → take k (set xs j v) ≡ set (take k xs) j v
  take-set_inside zero j xs v = refl
  take-set_inside (suc k) j [] v = refl
  take-set_inside (suc k) zero (x ∷ xs) v = refl
  take-set_inside (suc k) (suc j) (x ∷ xs) v = ap (◌∷◌ x) (take-set_inside k j xs v)

  pub set_same : (xs : List A) (j : ℕ) (v : A) → get_elem? xs j ≡ some v → set xs j v ≡ xs
  set_same [] j v h = refl
  set_same (x ∷ xs) zero v h = ground arith
  set_same (x ∷ xs) (suc j) v h = ap (◌∷◌ x) (set_same xs j v h)

  pub take_end :
      (k : ℕ) (xs : List A) (v : A)
      → get_elem? xs k ≡ some v
      → take (suc k) xs ≡ take k xs ++ v ∷ []
  take_end k [] v h = cc
  take_end zero (x ∷ xs) v h = ground arith
  take_end (suc k) (x ∷ xs) v h = ap (◌∷◌ x) (take_end k xs v h)

  -- The last of the first `k + 1` takes the place of the one at `j`.
  pub move_last-perm :
      (j k : ℕ) (xs : List A) (m last : A)
      → get_elem? xs j ≡ some m
      → get_elem? xs k ≡ some last
      → j ≤ k
      → Perm (take (suc k) xs) (m ∷ take k (set xs j last))
  move_last-perm j k [] m last p q h = cc
  move_last-perm zero zero (x ∷ xs) m last p q h = Perm.cons' (ground arith) Perm.rfl
  move_last-perm zero (suc k) (x ∷ xs) m last p q h =
      Perm.cons' (ground arith) (rw (take_end k xs last q) (subst_nil (perm_middle (take k xs) [])))
    where
      subst_nil :
          Perm (take k xs ++ last ∷ []) (last ∷ (take k xs ++ []))
          → Perm (take k xs ++ last ∷ []) (last ∷ take k xs)
      subst_nil t = rw append-nil at t
  move_last-perm (suc j) zero (x ∷ xs) m last p q h = absurd (omega arith)
  move_last-perm (suc j) (suc k) (x ∷ xs) m last p q h =
      Perm.trans (Perm.cons x (move_last-perm j k xs m last p q (omega arith))) (Perm.swap m x _)

pub find_hit :
    (m k rounds i : ℕ) (slots : List ℕ)
    → get_elem? slots k ≡ some m
    → k < rounds
    → (j : ℕ) × (j ≤ k)
      × (find_slot m rounds i slots ≡ ok (some (i + j)))
      × (get_elem? slots j ≡ some m)
unfolding find_slot
find_hit m k zero i slots e h = absurd (omega arith)
find_hit m k (suc rounds) i [] e h = cc
find_hit m zero (suc rounds) i (x ∷ slots) e h = (0, omega arith, ground arith, e)
find_hit m (suc k) (suc rounds) i (x ∷ slots) e h = elim (Bool-cases (x == m)) [
  | inl hit ↦ (0, omega arith, ground arith, ground arith)
  | inr miss ↦
      let (j, le, found, at) = find_hit m k rounds (suc i) slots e (omega arith) in
      (suc j, omega arith, rw (miss, found) (ground arith), at)
]

pub find_miss :
    (m rounds i : ℕ) (slots : List ℕ)
    → contains m (take rounds slots) ≡ false
    → rounds ≤ length slots
    → find_slot m rounds i slots ≡ ok none
unfolding find_slot
find_miss m zero i slots e h = refl
find_miss m (suc rounds) i [] e h = absurd (omega arith)
find_miss m (suc rounds) i (x ∷ slots) e h = ground (arith, find_miss m rounds (suc i) slots)

pub contains_index :
    (m n : ℕ) (xs : List ℕ)
    → contains m (take n xs) ≡ true
    → (k : ℕ) × (k < n) × (get_elem? xs k ≡ some m)
contains_index m zero xs e = cc
contains_index m (suc n) [] e = cc
contains_index m (suc n) (x ∷ xs) e = elim (Bool-cases (x == m)) [
  | inl hit ↦ (0, omega arith, ground arith)
  | inr miss ↦ let (k, lt, at) = contains_index m n xs (ground arith) in (suc k, omega arith, at)
]
