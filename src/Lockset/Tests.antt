-- ===== src/Lockset/Tests.antt =====
-- Runs of the lock set methods (racez_mutex.cc), and instances of their theorems.
use mathlib.Core.List.{Perm}
use mathlib.Core.List.Perm
use racez.Base.{
  ◌-◌, ◌≡◌, refl, true, false, [], ◌∷◌, ◌++◌, some, none, arith, set, take, get_elem?, ok, fault,
  out_of_bounds, if◌then◌else◌,
}
use racez.Lockset.{
  Lockset, Tls, held, add_locked, remove_locked, find_slot, ensure_lockset, add_one_mutex,
  remove_one_mutex,
}
use racez.Lockset.Contents.{IsValid, add_locked_lem}
use racez.Lockset.History.{Event, lock, unlock, run, bag_run, run-bag}
use racez.Lockset.Interrupt.{
  interrupted_add, interrupted_remove, interrupted_add_overruns, interrupted_remove_harm,
}

abbrev no_locks : Lockset
no_locks = record { n = 0; overflow = false; slots = 0 ∷ 0 ∷ 0 ∷ 0 ∷ 0 ∷ 0 ∷ 0 ∷ 0 ∷ 0 ∷ 0 ∷ [] }

abbrev three_locks : Lockset
three_locks = record {
  n = 3;
  overflow = false;
  slots = 21 ∷ 22 ∷ 23 ∷ 0 ∷ 0 ∷ 0 ∷ 0 ∷ 0 ∷ 0 ∷ 0 ∷ [];
}

abbrev nine_locks : Lockset
nine_locks = record { n = 9; overflow = false; slots = 1 ∷ 2 ∷ 3 ∷ 4 ∷ 5 ∷ 6 ∷ 7 ∷ 8 ∷ 9 ∷ 0 ∷ [] }

no_locks-IsValid : IsValid no_locks
no_locks-IsValid = record { slots_10 = refl; bounded = omega arith; full = refl }

three_locks-IsValid : IsValid three_locks
three_locks-IsValid = record { slots_10 = refl; bounded = omega arith; full = refl }

nine_locks-IsValid : IsValid nine_locks
nine_locks-IsValid = record { slots_10 = refl; bounded = omega arith; full = refl }

-- A thread locks 5 and 6, and unlocks 5.
lock_lock_unlock :
    run (lock 5 ∷ lock 6 ∷ unlock 5 ∷ []) no_locks
    ≡ ok (record no_locks { n = 1; slots = 6 ∷ 6 ∷ 0 ∷ 0 ∷ 0 ∷ 0 ∷ 0 ∷ 0 ∷ 0 ∷ 0 ∷ [] })
unfolding run racez.Lockset.History.step add_locked remove_locked
lock_lock_unlock = refl

first_call :
    add_one_mutex (some no_locks.slots) 7 (record { key_created = false; lockset = none })
    ≡ ok (record {
      key_created = true;
      lockset = some (record no_locks { n = 1; slots = set no_locks.slots 0 7 });
    })
unfolding add_one_mutex
first_call = refl

add_locked_lem_example :
    (l : Lockset) × (add_locked 24 three_locks ≡ ok l)
    × IsValid l
    × (held l ≡ (if three_locks.overflow then held three_locks else held three_locks ++ 24 ∷ []))
add_locked_lem_example = add_locked_lem 24 three_locks three_locks-IsValid

run-bag_example :
    (l : Lockset) × (run (lock 5 ∷ lock 6 ∷ unlock 5 ∷ []) no_locks ≡ ok l)
    × IsValid l
    × Perm (held l) (bag_run (lock 5 ∷ lock 6 ∷ unlock 5 ∷ []) [])
run-bag_example =
    run-bag (lock 5 ∷ lock 6 ∷ unlock 5 ∷ []) no_locks [] no_locks-IsValid (Perm.refl [])

interrupted_add_overruns_example :
    (interrupted_add 99 10 nine_locks ≡ fault out_of_bounds)
    × ((l : Lockset) × (add_locked 10 nine_locks ≡ ok l) × IsValid l)
interrupted_add_overruns_example = interrupted_add_overruns 99 10 nine_locks nine_locks-IsValid refl

interrupted_remove_harm_example :
    (l : Lockset) × (interrupted_remove 99 21 three_locks ≡ ok l)
    × (held l ≡ set (take (three_locks.n - 1) three_locks.slots) 0 99)
    × (get_elem? (held l) 0 ≡ some 99)
unfolding find_slot
interrupted_remove_harm_example =
    interrupted_remove_harm 99 21 0 three_locks three_locks-IsValid (omega arith) refl (omega arith)
