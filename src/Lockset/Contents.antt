-- ===== src/Lockset/Contents.antt =====
-- What `add_one_mutex` and `remove_one_mutex` (racez_mutex.cc) do to the locks that a thread holds.
use mathlib.Core.List.{Perm}
use racez.Base.{
  ℕ, suc, ◌+◌, ◌-◌, ◌≤◌, ◌<◌, ◌≡◌, refl, ap, ◌∙◌, inl, inr, true, false, List, [], ◌∷◌, ◌++◌, none,
  some, arith, ◌==◌, if◌then◌else◌, Bool-cases, length, set, take, get_elem?, load, store,
  length-set, store-set, load_total, contains, get_elem?-set_self, load_of_get_elem?, ok, ◌>>=◌,
}
use racez.Lockset.{
  Lockset, Tls, held, add_locked, find_slot, remove_found, remove_locked, ensure_lockset,
  create_tls_key, get_per_thread_lockset, set_per_thread_lockset,
}
use racez.Lockset.Arrays.{
  take-set_end, take-set_beyond, set_same, move_last-perm, find_hit, find_miss, contains_index,
}

-- The array has its ten slots, and `overflow` says that all are in use.
pub record IsValid (l : Lockset) : Type 0 where
  pub slots_10 : length l.slots ≡ 10
  pub bounded : l.n ≤ 10
  pub full : l.overflow ≡ (l.n == 10)

add_free :
    (m : ℕ) (l : Lockset)
    → IsValid l
    → l.overflow ≡ false
    → add_locked m l
      ≡ ok (record { n = l.n + 1; overflow = (l.n + 1) == 10; slots = set l.slots l.n m })
unfolding add_locked
add_free m l v e = rw e (ground (arith, store-set l.slots l.n m))

-- `add_one_mutex` never leaves the array: it appends the mutex to the held locks, or drops it if all
-- ten slots are in use, and the set stays valid.
pub add_locked_lem :
    (m : ℕ) (l : Lockset)
    → IsValid l
    → (l' : Lockset) × (add_locked m l ≡ ok l')
      × IsValid l'
      × (held l' ≡ (if l.overflow then held l else held l ++ m ∷ []))
add_locked_lem m l v = elim (Bool-cases l.overflow) [
  | inl full ↦ (l, unfold add_locked in rw full, v, rw full)
  | inr free ↦
      let bound : l.n < 10 = ground (arith, v.bounded, v.full) in
      (
        record { n = l.n + 1; overflow = (l.n + 1) == 10; slots = set l.slots l.n m },
        add_free m l v free,
        record {
          slots_10 = length-set l.slots l.n m ∙ v.slots_10;
          bounded = omega arith;
          full = refl;
        },
        rw free (
            ap (λ k. take k (set l.slots l.n m)) {y = suc l.n} (omega arith)
            ∙ take-set_end l.n l.slots m (omega arith)),
      )
]

-- The move of the last lock into slot `j`.
remove_found_lem :
    (m j k : ℕ) (l : Lockset)
    → IsValid l
    → l.n ≡ suc k
    → j ≤ k
    → get_elem? l.slots j ≡ some m
    → (l' : Lockset) × (remove_found l (some j) ≡ ok l') × IsValid l' × Perm (held l) (m ∷ held l')
unfolding remove_found
remove_found_lem m j k l v e le at =
    let (last, loaded, last_at) = load_total l.slots k (omega arith) in
    let l' : Lockset = record { n = k; overflow = false; slots = set l.slots j last } in
    let step : l.n - 1 ≡ k = omega arith in
    (
      l',
      rw (step, loaded, store-set l.slots j last (omega arith)),
      record {
        slots_10 = length-set l.slots j last ∙ v.slots_10;
        bounded = omega arith;
        full = ground arith;
      },
      rw e (move_last-perm j k l.slots m last at last_at le),
    )

-- `remove_one_mutex` of a held lock takes away one copy of it, whatever the order, and the set stays
-- valid.
pub remove_locked_hit :
    (m : ℕ) (l : Lockset)
    → IsValid l
    → contains m (held l) ≡ true
    → (l' : Lockset) × (remove_locked m l ≡ ok l') × IsValid l' × Perm (held l) (m ∷ held l')
unfolding remove_locked
remove_locked_hit m l v c =
    let (k, lt, at) = contains_index m l.n l.slots c in
    let (j, le, found, at') = find_hit m k l.n 0 l.slots at lt in
    let n : ℕ = l.n - 1 in
    let zero_j : 0 + j ≡ j = omega arith in
    rw (found, zero_j) (remove_found_lem m j n l v (omega arith) (omega arith) at')

-- `remove_one_mutex` of a lock that is not held changes nothing.
pub remove_locked_miss :
    (m : ℕ) (l : Lockset) → IsValid l → contains m (held l) ≡ false → remove_locked m l ≡ ok l
unfolding remove_locked remove_found
remove_locked_miss m l v c =
    let found : find_slot m l.n 0 l.slots ≡ ok none =
      find_miss m l.n 0 l.slots c (omega (arith, v.slots_10, v.bounded)) in
    rw found

-- A lock and its unlock, with room in the set and the lock not held before, leave the held locks as
-- they were, in their order.
pub remove-add :
    (m : ℕ) (l : Lockset)
    → IsValid l
    → l.overflow ≡ false
    → contains m (held l) ≡ false
    → (l' : Lockset) × ((add_locked m l >>= remove_locked m) ≡ ok l')
      × IsValid l'
      × (held l' ≡ held l)
unfolding remove_locked remove_found
remove-add m l v free c =
    let bound : l.n < 10 = ground (arith, v.bounded, v.full) in
    let slots : List ℕ = set l.slots l.n m in
    let at : get_elem? slots l.n ≡ some m =
      get_elem?-set_self l.slots l.n m (omega (arith, v.slots_10)) in
    let (j, le, found, at') = find_hit m l.n (l.n + 1) 0 slots at (omega arith) in
    let last_step : l.n + 1 - 1 ≡ l.n = omega arith in
    let loaded : load slots l.n ≡ ok m = load_of_get_elem? slots l.n m at in
    let start : 0 + j ≡ j = omega arith in
    let kept : store slots j m ≡ ok slots =
      store-set slots j m (omega (arith, length-set l.slots l.n m, v.slots_10))
      ∙ ap ok (set_same slots j m at') in
    (
      record { n = l.n; overflow = false; slots = slots },
      rw (add_free m l v free, found, start, last_step, loaded, kept),
      record {
        slots_10 = length-set l.slots l.n m ∙ v.slots_10;
        bounded = v.bounded;
        full = ground arith;
      },
      take-set_beyond l.n l.n l.slots m (omega arith),
    )

-- A thread's lock set, made at its first call, is empty and valid.
pub ensure_lockset_lem :
    (slots : List ℕ) (t : Tls)
    → length slots ≡ 10
    → t.lockset ≡ none
    → (t' : Tls) × (l : Lockset) × (ensure_lockset (some slots) t ≡ ok t')
      × (t'.lockset ≡ some l)
      × (t'.key_created ≡ true)
      × IsValid l
      × (held l ≡ [])
unfolding ensure_lockset create_tls_key get_per_thread_lockset set_per_thread_lockset
ensure_lockset_lem slots t s e =
    let l : Lockset = record { n = 0; overflow = false; slots = slots } in
    (
      record { key_created = true; lockset = some l },
      l,
      rw e,
      refl,
      refl,
      record { slots_10 = s; bounded = omega arith; full = refl },
      refl,
    )
