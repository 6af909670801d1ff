-- ===== src/Detect/Reuse.antt =====
-- The memory reuse filter of tools/detect.cc: what the detector forgets at the release of a block.
use racez.Base.{
  ℕ, ◌+◌, ◌^◌, ◌<◌, ◌≡◌, ◌≢◌, ap, ◌∙◌, true, false, [], ◌∷◌, Option, none, some, arith, ◌==◌,
  if◌then◌else◌, ptr_add, ok,
}
use racez.Record.{Record, RecordType}
use racez.Record.Views.{start_address, size, is_alloc}
use racez.Eraser.{Location}
use racez.AddressMap.{Map, find, at_or_insert, put}
use racez.AddressMap.Laws.{IsSorted}
use racez.Detect.{
  Detector, delete_map_entries, memory_free, memory_allocation, offline_detection, detect_raw,
}
use racez.Detect.Entries.{Holds, MapsSorted, in_range, delete_map_entries_lem, entry_find}

-- A record of an allocation, or of a release (`alloc` is 0), of so many bytes.
pub record IsEvent (r : Record) (start bytes alloc : ℕ) : Type 0 where
  pub kind : r.kind ≡ RecordType.memory_alloc
  pub start_is : start_address r.op ≡ start
  pub bytes_are : size r.op ≡ bytes
  pub alloc_is : is_alloc r.op ≡ alloc

find-put : (k : ℕ) (v : ℕ) (m : Map ℕ) → IsSorted m → find k (put k v m) ≡ some v
unfolding put
find-put k v m s =
    let self : (k == k) ≡ true = ground arith in
    entry_find k k v v m s ∙ ap (λ b. if b then some v else find k m) self

known : (k v : ℕ) (m : Map ℕ) → find k m ≡ some v → at_or_insert k 0 m ≡ (v, m)
unfolding at_or_insert
known k v m h = rw (at_or_insert, h)

add_bytes : (a n : ℕ) → n < 2 ^ 31 → a + n < 2 ^ 64 → ptr_add a n ≡ a + n
add_bytes a n h k = ground arith

flag_on : (x flag : ℕ) → x ≡ flag → flag ≢ 0 → (x == 0) ≡ false
flag_on x flag h k = ground arith

allocate :
    (a n flag : ℕ) (r : Record) (d : Detector)
    → IsEvent r a n flag
    → flag ≢ 0
    → offline_detection true r d ≡ ok (record d { heap = put a n d.heap })
unfolding offline_detection memory_allocation
allocate a n flag r d e set =
    let on : (is_alloc r.op == 0) ≡ false = flag_on (is_alloc r.op) flag e.alloc_is set in
    rw (e.kind, on, e.start_is, e.bytes_are)

release :
    (a n : ℕ) (q : Record) (d : Detector)
    → IsEvent q a 0 0
    → a ≢ 0
    → 0 < n
    → n < 2 ^ 31
    → a + n < 2 ^ 64
    → find a d.heap ≡ some n
    → offline_detection true q d ≡ delete_map_entries a (a + n) d
unfolding offline_detection memory_allocation memory_free
release a n q d e nz pos small fits h =
    let null : (a == 0) ≡ false = ground arith in
    let some_bytes : (n == 0) ≡ false = ground arith in
    rw (
      e.kind,
      e.alloc_is,
      e.start_is,
      e.bytes_are,
      known a n d.heap h,
      null,
      some_bytes,
      add_bytes a n small fits,
    )

-- With the memory reuse filter, the record of an allocation of a block and that of its release, which
-- bears no size, make the detector forget the locations of exactly the addresses of the block, with
-- the size that the heap map has from the allocation; it gives no warning. The heap map keeps the
-- block.
pub alloc_free-forgets :
    (a n flag : ℕ) (r q : Record) (d : Detector) (seen : ℕ → Option Location)
    → IsEvent r a n flag
    → IsEvent q a 0 0
    → flag ≢ 0
    → a ≢ 0
    → 0 < n
    → n < 2 ^ 31
    → a + n < 2 ^ 64
    → IsSorted d.heap
    → MapsSorted d
    → ((x : ℕ) → Holds d x (seen x))
    → (d' : Detector) × (detect_raw true (r ∷ q ∷ []) d ≡ ok d')
      × MapsSorted d'
      × ((x : ℕ) → Holds d' x (if in_range a (a + n) x then none else seen x))
      × (find a d'.heap ≡ some n)
      × (d'.output ≡ d.output)
unfolding detect_raw
alloc_free-forgets a n flag r q d seen e e' set nz pos small fits heap sorted holds =
    let d₁ : Detector = record d { heap = put a n d.heap } in
    let found : find a d₁.heap ≡ some n = find-put a n d.heap heap in
    let (d', done, v, h, kept, quiet, _) =
      delete_map_entries_lem a (a + n) d₁ (omega arith)
        (record { sets = sorted.sets; states = sorted.states; locks = sorted.locks }) in
    (
      d',
      rw (allocate a n flag r d e set, release a n q d₁ e' nz pos small fits found, done),
      v,
      λ x.
          h x (seen x)
            (record { sets = (holds x).sets; states = (holds x).states; locks = (holds x).locks }),
      ap (find a) kept ∙ found,
      quiet,
    )
