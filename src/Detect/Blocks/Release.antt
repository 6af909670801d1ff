-- ===== src/Detect/Blocks/Release.antt =====
-- A release with the memory reuse filter (tools/detect.cc), by a log of allocations and releases.
use racez.Base.{
  ℕ, ◌+◌, ◌^◌, ◌≡◌, refl, sym, ◌∙◌, true, false, not, ◌&&◌, List, ◌∷◌, Option, none, arith, ltb,
  ◌==◌, if◌then◌else◌, Bool-cases, inl, inr, ptr_add, ok, subst,
}
use racez.Record.{Record}
use racez.Record.Views.{start_address, size}
use racez.Eraser.{Location}
use racez.AddressMap.{Map, at_or_insert}
use racez.Detect.{Detector, delete_map_entries, memory_free}
use racez.Detect.Entries.{Holds, MapsSorted, in_range, delete_map_entries_lem}
use racez.Detect.Blocks.{allocates, known_size, freed_bytes, is_release, releases, block_fits}
use racez.Detect.Blocks.Heap.{IsHeap, IsHeap-skip, at_or_insert-IsHeap}

-- The release forgets the locations of its block, and no other.
pub record IsReleased (r : Record) (log : List Record) (d d' : Detector) : Type 0 where
  pub maps : MapsSorted d'
  pub heap : IsHeap (r ∷ log) d'.heap
  pub entries :
      (a : ℕ) (o : Option Location)
      → Holds d a o
      → Holds d' a (if releases a r log then none else o)
  pub output : d'.output ≡ d.output
  pub symbolizer : d'.symbolizer ≡ d.symbolizer

not_allocates : (r : Record) (a : ℕ) → is_release r ≡ true → allocates a r ≡ false
not_allocates r a e = ground arith

-- Nothing is forgotten where the block is empty or NULL.
releases_none :
    (r : Record) (log : List Record) (a : ℕ)
    → (not (start_address r.op == 0) && not (freed_bytes r log == 0)) ≡ false
    → releases a r log ≡ false
releases_none r log a e = ground arith

releases_block :
    (r : Record) (log : List Record) (a n : ℕ)
    → is_release r ≡ true
    → (start_address r.op == 0) ≡ false
    → n ≡ freed_bytes r log
    → releases a r log ≡ in_range (start_address r.op) (start_address r.op + n) a
releases_block r log a n e nz same = rw (same, e, nz) refl

block_end : (s n : ℕ) → (ltb n (2 ^ 31) && ltb (s + n) (2 ^ 64)) ≡ true → ptr_add s n ≡ s + n
block_end s n h = ground arith

module _ (r : Record) (log : List Record) (d : Detector) (v : MapsSorted d)
    (rel : is_release r ≡ true) where
  kept :
      (heap : Map ℕ)
      → IsHeap log heap
      → (not (start_address r.op == 0) && not (freed_bytes r log == 0)) ≡ false
      → IsReleased r log d (record d { heap = heap })
  kept heap h e = record {
    maps = record { sets = v.sets; states = v.states; locks = v.locks };
    heap = IsHeap-skip r log heap (λ a. not_allocates r a rel) h;
    entries = λ a o held.
        rw (releases_none r log a e)
          (record { sets = held.sets; states = held.states; locks = held.locks });
    output = refl;
    symbolizer = refl;
  }

  deleted :
      (heap : Map ℕ) (n : ℕ)
      → IsHeap log heap
      → (start_address r.op == 0) ≡ false
      → n ≡ freed_bytes r log
      → block_fits r log ≡ true
      → (d' : Detector) × (delete_map_entries
            (start_address r.op)
            (ptr_add (start_address r.op) n)
            (record d { heap = heap })
          ≡ ok d')
        × IsReleased r log d d'
  deleted heap n h nz same fits =
      let s = start_address r.op in
      let (d', done, v', held, same_heap, quiet, tools) =
        delete_map_entries_lem s (s + n) (record d { heap = heap }) (omega arith)
          (record { sets = v.sets; states = v.states; locks = v.locks }) in
      (
        d',
        rw (block_end s n (rw same fits)) done,
        record {
          maps = v';
          heap =
              subst (IsHeap (r ∷ log)) (sym same_heap)
                (IsHeap-skip r log heap (λ a. not_allocates r a rel) h);
          entries = λ a o e.
              rw (releases_block r log a n rel nz same)
                (held a o (record { sets = e.sets; states = e.states; locks = e.locks }));
          output = quiet;
          symbolizer = tools;
        },
      )

  null_block :
      (e : (start_address r.op == 0) ≡ true)
      → (not (start_address r.op == 0) && not (freed_bytes r log == 0)) ≡ false
  null_block e = ground arith

  -- A release without a size, by the size in the heap map.
  sizeless :
      IsHeap log d.heap
      → (start_address r.op == 0) ≡ false
      → (size r.op == 0) ≡ true
      → block_fits r log ≡ true
      → (d' : Detector) × (memory_free r d ≡ ok d') × IsReleased r log d d'
  unfolding memory_free
  sizeless h nz e fits =
      let s = start_address r.op in
      let (known, h') = at_or_insert-IsHeap s log d.heap h in
      let freed : freed_bytes r log ≡ known_size s log = rw e refl in
      elim (Bool-cases ((at_or_insert s 0 d.heap).0 == 0)) [
        | inl empty ↦ (
          record d { heap = (at_or_insert s 0 d.heap).1 },
          rw (nz, e, empty) refl,
          kept (at_or_insert s 0 d.heap).1 h' (ground (arith, freed, known, empty)),
        )
        | inr some_bytes ↦
            let (d', done, v') =
              deleted (at_or_insert s 0 d.heap).1 (at_or_insert s 0 d.heap).0 h' nz
                (known ∙ sym freed) fits in
            (d', rw (nz, e, some_bytes) done, v')
      ]

  sized :
      IsHeap log d.heap
      → (start_address r.op == 0) ≡ false
      → (size r.op == 0) ≡ false
      → block_fits r log ≡ true
      → (d' : Detector) × (memory_free r d ≡ ok d') × IsReleased r log d d'
  unfolding memory_free
  sized h nz e fits =
      let freed : freed_bytes r log ≡ size r.op = rw e refl in
      let (d', done, v') = deleted d.heap (size r.op) h nz (sym freed) fits in
      (d', rw (nz, e) done, v')

  null_released :
      IsHeap log d.heap
      → (start_address r.op == 0) ≡ true
      → (d' : Detector) × (memory_free r d ≡ ok d') × IsReleased r log d d'
  unfolding memory_free
  null_released h z = (d, rw z refl, kept d.heap h (null_block z))

  -- `memory_free` runs, and forgets the block that the log gives.
  pub memory_free-IsReleased :
      IsHeap log d.heap
      → block_fits r log ≡ true
      → (d' : Detector) × (memory_free r d ≡ ok d') × IsReleased r log d d'
  memory_free-IsReleased h fits = elim (Bool-cases (start_address r.op == 0)) [
    | inl z ↦ null_released h z
    | inr nz ↦ elim (Bool-cases (size r.op == 0)) [
      | inl e ↦ sizeless h nz e fits
      | inr e ↦ sized h nz e fits
    ]
  ]
