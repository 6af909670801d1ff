-- ===== src/AddressMap.antt =====
-- The std::map by address of tools/detect.cc: a list of entries with rising keys, in which an iterator
-- is a position.
pub mod Laws
use racez.Base.{
  ℕ, zero, suc, ◌<◌, Bool, true, false, List, [], ◌∷◌, ◌++◌, Option, none, some, ltb, ◌==◌,
  if◌then◌else◌, take, drop, Outcome, ok, fault, bad_iterator,
}

abbrev pub Map {ℓ} : Type ℓ → Type ℓ
Map V = List (ℕ × V)

module _ {ℓ} {V : Type ℓ} where
  unfoldable pub find : ℕ → Map V → Option V
  find k [] = none
  find k ((j, v) ∷ m) = if j == k then some v else find k m

  -- `map::insert`, with its `second`: whether the key is new. An entry that is there stays.
  unfoldable pub insert : ℕ → V → Map V → Map V × Bool
  insert k v [] = ((k, v) ∷ [], true)
  insert k v ((j, w) ∷ m) =
      let (rest, is_new) = insert k v m in
      if ltb k j
      then ((k, v) ∷ (j, w) ∷ m, true)
      else if ltb j k
      then ((j, w) ∷ rest, is_new)
      else ((j, w) ∷ m, false)

  -- `iter->second = v` at the entry of a key.
  unfoldable pub assign : ℕ → V → Map V → Map V
  assign k v [] = []
  assign k v ((j, w) ∷ m) = if j == k then (j, v) ∷ m else (j, w) ∷ assign k v m

  -- `m[k]` where `fresh` is the value that a new entry gets.
  unfoldable pub at_or_insert : ℕ → V → Map V → V × Map V
  unfolding find insert
  at_or_insert k fresh m = elim (find k m) [
    | none ↦ (fresh, (insert k fresh m).0)
    | some v ↦ (v, m)
  ]

  -- `m[k] = v`
  unfoldable pub put : ℕ → V → Map V → Map V
  unfolding insert assign
  put k v m = assign k v (insert k v m).0

  unfoldable pub lower_bound : ℕ → Map V → ℕ
  lower_bound k [] = 0
  lower_bound k ((j, w) ∷ m) = if ltb j k then suc (lower_bound k m) else 0

  -- `while (iter != last) m.erase(iter++)`: with `last` before `first` it runs off the end.
  unfoldable pub erase_between : ℕ → ℕ → Map V → Outcome (Map V)
  erase_between first last m =
      if ltb last first then fault bad_iterator else ok (take first m ++ drop last m)
