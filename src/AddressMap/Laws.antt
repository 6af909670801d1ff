-- ===== src/AddressMap/Laws.antt =====
-- What can be looked up in a map by address (tools/detect.cc) after an operation.
use racez.Base.{
  ℕ, zero, suc, ◌<◌, ◌≤◌, ◌≡◌, refl, Bool, true, false, not, ◌&&◌, [], ◌∷◌, ◌++◌, Option, none,
  some, arith, ltb, leb, ◌==◌, if◌then◌else◌, take, drop, ok,
}
use racez.AddressMap.{Map, find, insert, assign, lower_bound, erase_between}

abbrev pub is_some {ℓ} : {A : Type ℓ} → Option A → Bool
is_some none = false
is_some (some a) = true

module _ {V : Type 0} where
  abbrev pub KeysAbove : ℕ → Map V → Type 0
  KeysAbove a [] = Unit {0}
  KeysAbove a ((k, v) ∷ m) = (a < k) × KeysAbove a m

  abbrev pub IsSorted : Map V → Type 0
  IsSorted [] = Unit {0}
  IsSorted ((k, v) ∷ m) = KeysAbove k m × IsSorted m

  KeysAbove-mono : (a b : ℕ) (m : Map V) → a ≤ b → KeysAbove b m → KeysAbove a m
  KeysAbove-mono a b [] h v = tt
  KeysAbove-mono a b ((k, w) ∷ m) h v = (omega arith, KeysAbove-mono a b m h v.1)

  pub find_above : (a b : ℕ) (m : Map V) → KeysAbove b m → a ≤ b → find a m ≡ none
  unfolding find
  find_above a b [] v h = refl
  find_above a b ((k, w) ∷ m) v h = ground (arith, find_above a b m v.1)

  insert-KeysAbove :
      (a k : ℕ) (v : V) (m : Map V) → a < k → KeysAbove a m → KeysAbove a (insert k v m).0
  unfolding insert
  insert-KeysAbove a k v [] h s = (h, tt)
  insert-KeysAbove a k v ((j, w) ∷ m) h s = ground (arith, insert-KeysAbove a k v m h s.1)

  pub insert-IsSorted : (k : ℕ) (v : V) (m : Map V) → IsSorted m → IsSorted (insert k v m).0
  unfolding insert
  insert-IsSorted k v [] s = (tt, tt)
  insert-IsSorted k v ((j, w) ∷ m) s =
      ground (arith, insert-IsSorted k v m s.1, insert-KeysAbove j k v m, KeysAbove-mono k j m)

  -- `insert` says whether the key is new, and looks up as before but for a new key.
  pub insert_lem :
      (k a : ℕ) (v : V) (m : Map V)
      → IsSorted m
      → ((insert k v m).1 ≡ not (is_some (find k m)))
        × (find a (insert k v m).0
            ≡ (if k == a && not (is_some (find k m)) then some v else find a m))
  unfolding find insert
  insert_lem k a v [] s = ground arith
  insert_lem k a v ((j, w) ∷ m) s =
      ground (arith, insert_lem k a v m s.1, find_above k j m s.0, find_above a j m s.0)

  assign-KeysAbove : (a k : ℕ) (v : V) (m : Map V) → KeysAbove a m → KeysAbove a (assign k v m)
  unfolding assign
  assign-KeysAbove a k v [] s = tt
  assign-KeysAbove a k v ((j, w) ∷ m) s = ground (arith, assign-KeysAbove a k v m s.1)

  pub assign-IsSorted : (k : ℕ) (v : V) (m : Map V) → IsSorted m → IsSorted (assign k v m)
  unfolding assign
  assign-IsSorted k v [] s = tt
  assign-IsSorted k v ((j, w) ∷ m) s =
      ground (arith, assign-IsSorted k v m s.1, assign-KeysAbove j k v m s.0)

  pub find-assign :
      (k a : ℕ) (v : V) (m : Map V)
      → find a (assign k v m) ≡ (if k == a && is_some (find k m) then some v else find a m)
  unfolding find assign
  find-assign k a v [] = ground arith
  find-assign k a v ((j, w) ∷ m) = ground (arith, find-assign k a v m)

  lower_bound-le : (s e : ℕ) (m : Map V) → s ≤ e → lower_bound s m ≤ lower_bound e m
  unfolding lower_bound
  lower_bound-le s e [] h = omega arith
  lower_bound-le s e ((k, w) ∷ m) h = ground (arith, lower_bound-le s e m h)

  abbrev cut : ℕ → ℕ → Map V → Map V
  cut s e m = take (lower_bound s m) m ++ drop (lower_bound e m) m

  find-drop :
      (a e : ℕ) (m : Map V)
      → IsSorted m
      → find a (drop (lower_bound e m) m) ≡ (if ltb a e then none else find a m)
  unfolding find lower_bound
  find-drop a e [] s = ground arith
  find-drop a e ((k, w) ∷ m) s = ground (arith, find-drop a e m s.1, find_above a k m s.0)

  find-cut :
      (a s e : ℕ) (m : Map V)
      → s ≤ e
      → IsSorted m
      → find a (cut s e m) ≡ (if leb s a && ltb a e then none else find a m)
  unfolding find lower_bound
  find-cut a s e [] h v = ground arith
  find-cut a s e ((k, w) ∷ m) h v =
      ground (arith, find-cut a s e m h v.1, find-drop a e m v.1, find_above a k m v.0)

  drop-KeysAbove : (a n : ℕ) (m : Map V) → KeysAbove a m → KeysAbove a (drop n m)
  drop-KeysAbove a zero m v = v
  drop-KeysAbove a (suc n) [] v = tt
  drop-KeysAbove a (suc n) (x ∷ m) v = drop-KeysAbove a n m v.1

  drop-IsSorted : (n : ℕ) (m : Map V) → IsSorted m → IsSorted (drop n m)
  drop-IsSorted zero m v = v
  drop-IsSorted (suc n) [] v = tt
  drop-IsSorted (suc n) (x ∷ m) v = drop-IsSorted n m v.1

  cut-KeysAbove : (a s e : ℕ) (m : Map V) → s ≤ e → KeysAbove a m → KeysAbove a (cut s e m)
  unfolding lower_bound
  cut-KeysAbove a s e [] h v = tt
  cut-KeysAbove a s e ((k, w) ∷ m) h v =
      ground (arith, cut-KeysAbove a s e m h v.1, drop-KeysAbove a (lower_bound e m) m v.1)

  cut-IsSorted : (s e : ℕ) (m : Map V) → s ≤ e → IsSorted m → IsSorted (cut s e m)
  unfolding lower_bound
  cut-IsSorted s e [] h v = tt
  cut-IsSorted s e ((k, w) ∷ m) h v = ground (
    arith,
    cut-IsSorted s e m h v.1,
    cut-KeysAbove k s e m h v.0,
    drop-IsSorted (lower_bound e m) m v.1,
  )

  -- Erasing from one lower bound up to another takes away exactly the keys from `s` up to `e`, the
  -- latter not included.
  pub erase_between_lem :
      (s e : ℕ) (m : Map V)
      → s ≤ e
      → IsSorted m
      → (m' : Map V) × (erase_between (lower_bound s m) (lower_bound e m) m ≡ ok m')
        × IsSorted m'
        × ((a : ℕ) → find a m' ≡ (if leb s a && ltb a e then none else find a m))
  unfolding erase_between
  erase_between_lem s e m h v = (
    cut s e m,
    ground (arith, lower_bound-le s e m h),
    cut-IsSorted s e m h v,
    λ a. find-cut a s e m h v,
  )
