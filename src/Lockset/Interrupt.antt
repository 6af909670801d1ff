-- ===== src/Lockset/Interrupt.antt =====
-- racez_mutex.cc under a signal. The handler of a sample runs to its end between two statements of
-- `add_one_mutex` or `remove_one_mutex` on the same thread; libunwind locks and unlocks a mutex in it.
use racez.Base.{
  ℕ, suc, ◌+◌, ◌-◌, ◌<◌, ◌≡◌, refl, sym, ap, ◌∙◌, false, List, [], ◌∷◌, ◌++◌, Option, none, some,
  arith, ◌==◌, if◌then◌else◌, length, set, take, get_elem?, load, store, length-set, store-set,
  store_beyond, length-take_of_le, get_elem?-set_self, load_of_get_elem?, Outcome, ok, fault,
  out_of_bounds, ◌>>=◌,
}
use racez.Lockset.{
  Lockset, held, add_reserve, add_store, add_locked, find_slot, remove_release, remove_move,
  remove_locked,
}
use racez.Lockset.Arrays.{take-set_end, take-set_beyond, take-set_inside, set_same, find_hit}
use racez.Lockset.Contents.{IsValid, add_locked_lem}

-- The handler's lock and unlock of its own mutex.
unfoldable pub handler : ℕ → Lockset → Outcome Lockset
handler h l = add_locked h l >>= remove_locked h

-- `add_one_mutex(mutex)`, interrupted behind `lockset->n++`.
unfoldable pub interrupted_add : ℕ → ℕ → Lockset → Outcome Lockset
interrupted_add h mutex l =
    if l.overflow then ok l else handler h (add_reserve l) >>= add_store mutex

interrupted_found : ℕ → Lockset → Option ℕ → Outcome Lockset
interrupted_found h l none = ok l
interrupted_found h l (some i) = handler h (remove_release l) >>= remove_move i l.n

-- `remove_one_mutex(mutex)`, interrupted behind `lockset->n--`.
unfoldable pub interrupted_remove : ℕ → ℕ → Lockset → Outcome Lockset
unfolding interrupted_found
interrupted_remove h mutex l = find_slot mutex l.n 0 l.slots >>= interrupted_found h l

-- The handler leaves its mutex in the first free slot and changes nothing else.
handler_lem :
    (h : ℕ) (l : Lockset)
    → length l.slots ≡ 10
    → l.n < 10
    → l.overflow ≡ false
    → handler h l ≡ ok (record { n = l.n; overflow = false; slots = set l.slots l.n h })
unfolding handler add_locked remove_locked
handler_lem h l s lt free =
    let slots : List ℕ = set l.slots l.n h in
    let at : get_elem? slots l.n ≡ some h = get_elem?-set_self l.slots l.n h (omega arith) in
    let (j, le, found, at') = find_hit h l.n (l.n + 1) 0 slots at (omega arith) in
    let last_step : l.n + 1 - 1 ≡ l.n = omega arith in
    let loaded : load slots l.n ≡ ok h = load_of_get_elem? slots l.n h at in
    let start : 0 + j ≡ j = omega arith in
    let stored : store l.slots l.n h ≡ ok slots = store-set l.slots l.n h (omega arith) in
    let kept : store slots j h ≡ ok slots =
      store-set slots j h (omega (arith, length-set l.slots l.n h))
      ∙ ap ok (set_same slots j h at') in
    rw (free, last_step, stored, found, start, last_step, loaded, kept)

-- As the comment in the source says, an interrupt behind `n++` does no harm: with two slots free the
-- mutex is held as after an uninterrupted call.
pub interrupted_add_harmless :
    (h m : ℕ) (l : Lockset)
    → IsValid l
    → l.n < 9
    → (l' : Lockset) × (interrupted_add h m l ≡ ok l') × IsValid l' × (held l' ≡ held l ++ m ∷ [])
unfolding interrupted_add add_reserve add_store
interrupted_add_harmless h m l v lt =
    let free : l.overflow ≡ false = ground (arith, v.full) in
    let slots : List ℕ = set l.slots (l.n + 1) h in
    let size : length slots ≡ 10 = length-set l.slots (l.n + 1) h ∙ v.slots_10 in
    let reserved : Lockset = record { n = l.n + 1; overflow = false; slots = l.slots } in
    let handled = handler_lem h reserved v.slots_10 (omega arith) refl in
    let last_step : l.n + 1 - 1 ≡ l.n = omega arith in
    let stored : store slots l.n m ≡ ok (set slots l.n m) = store-set slots l.n m (omega arith) in
    let not_full : ((l.n + 1) == 10) ≡ false = ground arith in
    (
      record { n = l.n + 1; overflow = false; slots = set slots l.n m },
      rw (free, handled, last_step, stored, not_full),
      record {
        slots_10 = length-set slots l.n m ∙ size;
        bounded = omega arith;
        full = sym not_full;
      },
      ap (λ k. take k (set slots l.n m)) {y = suc l.n} (omega arith)
          ∙ take-set_end l.n slots m (omega arith)
          ∙ ap (λ xs. xs ++ m ∷ []) (take-set_beyond l.n (l.n + 1) l.slots h (omega arith)),
    )

-- The comment does not hold for the tenth lock: whatever the two mutexes, the handler then writes
-- behind the end of the array, since `n` is 10 already and `overflow` is not yet set.
pub interrupted_add_overruns :
    (h m : ℕ) (l : Lockset)
    → IsValid l
    → l.n ≡ 9
    → (interrupted_add h m l ≡ fault out_of_bounds)
      × ((l' : Lockset) × (add_locked m l ≡ ok l') × IsValid l')
unfolding interrupted_add handler add_locked
interrupted_add_overruns h m l v e =
    let free : l.overflow ≡ false = ground (arith, v.full) in
    let (l', done, v', _) = add_locked_lem m l v in
    let index : l.n + 1 + 1 - 1 ≡ 10 = omega arith in
    let beyond : store l.slots 10 h ≡ fault out_of_bounds =
      store_beyond l.slots 10 h (omega (arith, v.slots_10)) in
    (rw (free, index, beyond), (l', done, v'))

-- An interrupt behind `n--` is harmful, against the comment: if the mutex is not the last of the held
-- locks and the set is not full, its slot ends with the handler's mutex, which nobody holds, in place
-- of the last lock, which is still held.
pub interrupted_remove_harm :
    (h m i : ℕ) (l : Lockset)
    → IsValid l
    → l.n < 10
    → find_slot m l.n 0 l.slots ≡ ok (some i)
    → i + 1 < l.n
    → (l' : Lockset) × (interrupted_remove h m l ≡ ok l')
      × (held l' ≡ set (take (l.n - 1) l.slots) i h)
      × (get_elem? (held l') i ≡ some h)
unfolding interrupted_remove interrupted_found remove_release remove_move
interrupted_remove_harm h m i l v lt found inner =
    let k : ℕ = l.n - 1 in
    let free : l.overflow ≡ false = ground (arith, v.full) in
    let slots : List ℕ = set l.slots k h in
    let size : length slots ≡ 10 = length-set l.slots k h ∙ v.slots_10 in
    let handled = handler_lem h (remove_release l) v.slots_10 (omega arith) free in
    let at : get_elem? slots k ≡ some h =
      get_elem?-set_self l.slots k h (omega (arith, v.slots_10)) in
    let loaded : load slots k ≡ ok h = load_of_get_elem? slots k h at in
    let stored : store slots i h ≡ ok (set slots i h) = store-set slots i h (omega arith) in
    let shape : take k (set slots i h) ≡ set (take k l.slots) i h =
      take-set_inside k i slots h
      ∙ ap (λ xs. set xs i h) (take-set_beyond k k l.slots h (omega arith)) in
    let inside : i < length (take k l.slots) =
      omega (arith, length-take_of_le k l.slots (omega (arith, v.slots_10))) in
    (
      record { n = k; overflow = false; slots = set slots i h },
      rw (found, handled, loaded, stored),
      shape,
      rw shape (get_elem?-set_self (take k l.slots) i h inside),
    )
