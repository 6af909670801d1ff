-- ===== src/Detect/Entries.antt =====
-- The three maps of tools/detect.cc, seen as one map from an address to a location.
use racez.Base.{
  ℕ, ◌≤◌, ◌≡◌, refl, ◌∙◌, Bool, true, false, ◌&&◌, List, Option, none, some, arith, ltb, leb, ◌==◌,
  if◌then◌else◌, ok,
}
use racez.Record.{Record}
use racez.Eraser.{Location}
use racez.AddressMap.{Map, find, insert, assign}
use racez.AddressMap.Laws.{
  IsSorted, insert-IsSorted, insert_lem, assign-IsSorted, find-assign, erase_between_lem,
}
use racez.Detect.{Detector, location_at, store_location, delete_map_entries}

abbrev pub records_of : Option Location → Option (Option (List Record))
records_of none = none
records_of (some l) = some (some l.records)

abbrev pub status_of : Option Location → Option ℕ
status_of none = none
status_of (some l) = some l.status

abbrev pub locks_of : Option Location → Option (Option (List ℕ))
locks_of none = none
locks_of (some l) = some (some l.locks)

-- The entries for an address are those of a location, or there are none.
pub record Holds (d : Detector) (a : ℕ) (o : Option Location) : Type 0 where
  pub sets : find a d.record_sets ≡ records_of o
  pub states : find a d.rw ≡ status_of o
  pub locks : find a d.lock_sets ≡ locks_of o

pub record MapsSorted (d : Detector) : Type 0 where
  pub sets : IsSorted d.record_sets
  pub states : IsSorted d.rw
  pub locks : IsSorted d.lock_sets

pub location_at-Holds :
    (d : Detector) (a : ℕ) (l : Location) → Holds d a (some l) → location_at a d ≡ ok l
unfolding location_at
location_at-Holds d a l h = rw (h.sets, h.states, h.locks)

-- The detector with an entry for the address in each map.
abbrev pub entered : ℕ → Detector → Detector
entered a d = record d {
  record_sets = (insert a none d.record_sets).0;
  rw = (insert a 0 d.rw).0;
  lock_sets = (insert a none d.lock_sets).0;
}

pub entry_find :
    {V : Type 0} (a b : ℕ) (v w : V) (m : Map V)
    → IsSorted m
    → find b (assign a v (insert a w m).0) ≡ (if a == b then some v else find b m)
entry_find a b v w m s =
    ground (arith, insert_lem a b w m s, insert_lem a a w m s, find-assign a b v (insert a w m).0)

module _ (a : ℕ) (d : Detector) (v : MapsSorted d) where
  -- The flags of the three insertions at an address without entries.
  pub flags_new :
      Holds d a none
      → ((insert a none d.record_sets).1 ≡ true)
        × ((insert a 0 d.rw).1 ≡ true)
        × ((insert a none d.lock_sets).1 ≡ true)
  flags_new h = (
    (insert_lem a a none d.record_sets v.sets).0 ∙ rw h.sets,
    (insert_lem a a 0 d.rw v.states).0 ∙ rw h.states,
    (insert_lem a a none d.lock_sets v.locks).0 ∙ rw h.locks,
  )

  pub flag_old : (l : Location) → Holds d a (some l) → (insert a 0 d.rw).1 ≡ false
  flag_old l h = (insert_lem a a 0 d.rw v.states).0 ∙ rw h.states

  -- Entries that are there stay as they are.
  pub entered-Holds : (l : Location) → Holds d a (some l) → Holds (entered a d) a (some l)
  entered-Holds l h = record {
    sets = ground (arith, insert_lem a a none d.record_sets v.sets, h.sets);
    states = ground (arith, insert_lem a a 0 d.rw v.states, h.states);
    locks = ground (arith, insert_lem a a none d.lock_sets v.locks, h.locks);
  }

  pub entered-MapsSorted : MapsSorted (entered a d)
  entered-MapsSorted = record {
    sets = insert-IsSorted a none d.record_sets v.sets;
    states = insert-IsSorted a 0 d.rw v.states;
    locks = insert-IsSorted a none d.lock_sets v.locks;
  }

  -- What is stored for the address is found there, and every other address keeps what it holds.
  pub store-Holds :
      (loc : Location) (b : ℕ) (o : Option Location)
      → Holds d b o
      → Holds (store_location a loc (entered a d)) b (if a == b then some loc else o)
  unfolding store_location
  store-Holds loc b o h = record {
    sets = ground (arith, entry_find a b (some loc.records) none d.record_sets v.sets, h.sets);
    states = ground (arith, entry_find a b loc.status 0 d.rw v.states, h.states);
    locks = ground (arith, entry_find a b (some loc.locks) none d.lock_sets v.locks, h.locks);
  }

  pub store-MapsSorted : (loc : Location) → MapsSorted (store_location a loc (entered a d))
  unfolding store_location
  store-MapsSorted loc = record {
    sets = assign-IsSorted a (some loc.records) _ entered-MapsSorted.sets;
    states = assign-IsSorted a loc.status _ entered-MapsSorted.states;
    locks = assign-IsSorted a (some loc.locks) _ entered-MapsSorted.locks;
  }

abbrev pub in_range : ℕ → ℕ → ℕ → Bool
in_range first last a = leb first a && ltb a last

-- `delete_map_entries` forgets exactly the locations from the first address up to the last, the latter
-- not included, in all three maps at once.
pub delete_map_entries_lem :
    (first last : ℕ) (d : Detector)
    → first ≤ last
    → MapsSorted d
    → (d' : Detector) × (delete_map_entries first last d ≡ ok d')
      × MapsSorted d'
      × ((a : ℕ) (o : Option Location)
          → Holds d a o
          → Holds d' a (if in_range first last a then none else o))
      × (d'.heap ≡ d.heap)
      × (d'.output ≡ d.output)
      × (d'.symbolizer ≡ d.symbolizer)
unfolding delete_map_entries
delete_map_entries_lem first last d le v =
    let (locks, e, sl, fl) = erase_between_lem first last d.lock_sets le v.locks in
    let (sets, e', ss, fs) = erase_between_lem first last d.record_sets le v.sets in
    let (states, e'', sr, fr) = erase_between_lem first last d.rw le v.states in
    (
      record d { record_sets = sets; rw = states; lock_sets = locks },
      rw (e, e', e''),
      record { sets = ss; states = sr; locks = sl },
      λ a o h. record {
        sets = ground (arith, fs a, h.sets);
        states = ground (arith, fr a, h.states);
        locks = ground (arith, fl a, h.locks);
      },
      refl,
      refl,
      refl,
    )
