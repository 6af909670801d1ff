-- ===== src/Detect/Blocks/Step.antt =====
-- One record in `offline_detection` (tools/detect.cc), with the memory reuse filter.
use native.Mathlib.Decide.{ℕ_discrete}
use racez.Base.{
  ℕ, subst, ◌≡◌, refl, sym, ◌≢◌, inl, inr, Bool, true, false, List, ◌∷◌, none, arith, ◌==◌,
  if◌then◌else◌, Bool-cases, all,
}
use racez.Record.{Record, RecordType}
use racez.Record.Views.{start_address, size, is_alloc}
use racez.RecordSet.Threads.{fresh}
use racez.AddressMap.{put}
use racez.Detect.{Detector, memory_access, memory_free, memory_allocation}
use racez.Detect.Entries.{Holds}
use racez.Detect.Histories.{accesses, accesses_self, accesses_other, well_formed, Advances}
use racez.Detect.Safe.{Safely, Safely-ok, Safely-map}
use racez.Detect.Access.{memory_access-Advances}
use racez.Detect.Run.{is_memory_op, skips_null, null_accesses}
use racez.Detect.Blocks.{is_event, allocates, is_release, releases, since, block_fits, ended_due}
use racez.Detect.Blocks.Heap.{IsHeap, IsHeap-skip, put-IsHeap}
use racez.Detect.Blocks.Release.{IsReleased, memory_free-IsReleased}
use racez.Detect.Blocks.Histories.{
  EntrySince, IsReuseSound, EntrySince-skip, EntrySince-same, EntrySince-ended, since_accessed,
  no_release, some_entry,
}

pub access_kind :
    (r : Record)
    → r.kind ≡ RecordType.memory_op
    → (is_release r ≡ false) × ((a : ℕ) → allocates a r ≡ false)
access_kind r kind = (ground arith, λ a. ground arith)

event_kind : (r : Record) (a : ℕ) → r.kind ≡ RecordType.memory_alloc → accesses a r ≡ false
event_kind r a kind = ground arith

pub other_kind :
    (r : Record)
    → is_memory_op r.kind ≡ false
    → is_event r.kind ≡ false
    → (is_release r ≡ false) × ((a : ℕ) → allocates a r ≡ false) × ((a : ℕ) → accesses a r ≡ false)
other_kind r e e' = (ground arith, λ a. ground arith, λ a. ground arith)

module _ (r : Record) (log : List Record) (d : Detector) (v : IsReuseSound log d) where
  -- A record that is no event and no access changes nothing.
  pub idle :
      is_release r ≡ false
      → ((a : ℕ) → allocates a r ≡ false)
      → ((a : ℕ) → a ≢ 0 → accesses a r ≡ false)
      → IsReuseSound (r ∷ log) d
  idle rel alloc acc = record {
    maps = v.maps;
    heap = IsHeap-skip r log d.heap alloc v.heap;
    entry = λ a nz.
        EntrySince-skip r log d d a (no_release r log a rel) (acc a nz) (λ o e. e) refl
          (v.entry a nz);
  }

  allocated :
      r.kind ≡ RecordType.memory_alloc
      → is_release r ≡ false
      → ((a : ℕ) → allocates a r ≡ (start_address r.op == a))
      → IsReuseSound (r ∷ log) (record d { heap = put (start_address r.op) (size r.op) d.heap })
  allocated kind rel alloc = record {
    maps = record { sets = v.maps.sets; states = v.maps.states; locks = v.maps.locks };
    heap = put-IsHeap r log d.heap alloc v.heap;
    entry = λ a nz.
        EntrySince-skip r log d _ a (no_release r log a rel) (event_kind r a kind)
          (λ o e. record { sets = e.sets; states = e.states; locks = e.locks }) refl (v.entry a nz);
  }

  released_entry :
      (d' : Detector) (a : ℕ)
      → r.kind ≡ RecordType.memory_alloc
      → IsReleased r log d d'
      → EntrySince log d a
      → (b : Bool) → releases a r log ≡ b
      → EntrySince (r ∷ log) d' a
  released_entry d' a kind rel e true f =
      let (o, held) = some_entry log d a e in
      let held' = rel.entries a o held in
      let gone : Holds d' a none = rw f at held' in
      EntrySince-ended r log d d' a f gone rel.output e
  released_entry d' a kind rel e false f =
      EntrySince-skip r log d d' a f (event_kind r a kind)
        (λ o held. let held' = rel.entries a o held in rw f at held') rel.output e

  released :
      (d' : Detector)
      → r.kind ≡ RecordType.memory_alloc
      → IsReleased r log d d'
      → IsReuseSound (r ∷ log) d'
  released d' kind rel = record {
    maps = rel.maps;
    heap = rel.heap;
    entry = λ a nz. released_entry d' a kind rel (v.entry a nz) (releases a r log) refl;
  }

  accessed_entry :
      (d' : Detector) (b : ℕ)
      → r.kind ≡ RecordType.memory_op
      → Advances r (since r.op.memory_address log) log (ended_due r.op.memory_address log) d d'
      → EntrySince log d b
      → (e : Bool) → (r.op.memory_address == b) ≡ e
      → EntrySince (r ∷ log) d' b
  accessed_entry d' b kind adv old true e =
      let a = r.op.memory_address in
      let rel = no_release r log a (access_kind r kind).0 in
      let at : a ≡ b = ground arith in
      subst (EntrySince (r ∷ log) d') at (
        EntrySince-same r log d' a (r ∷ since a log) rel
          (since_accessed r log a rel (accesses_self r kind)) adv.own)
  accessed_entry d' b kind adv old false e =
      let rel = no_release r log b (access_kind r kind).0 in
      let moved = adv.others b (since b log) (ended_due b log) e old in
      EntrySince-same r log d' b (since b log) rel (rw (rel, accesses_other r b e) refl) moved

  pub access_step :
      r.kind ≡ RecordType.memory_op
      → all well_formed (r ∷ log) ≡ true
      → fresh r log ≡ true
      → Safely (IsReuseSound (r ∷ log)) d (memory_access r d)
  access_step kind wf new = elim (ℕ_discrete r.op.memory_address 0) [
    | yes z ↦
        Safely-ok (IsReuseSound (r ∷ log)) d (memory_access r d) d (skips_null r d z) refl
          (idle (access_kind r kind).0 (access_kind r kind).1 (λ a nz. null_accesses r a z nz))
    | no nz ↦
        let a = r.op.memory_address in
        Safely-map (Advances r (since a log) log (ended_due a log) d) d (IsReuseSound (r ∷ log))
          (memory_access r d)
          (memory_access-Advances r (since a log) log (ended_due a log) d v.maps nz wf new
            (v.entry a nz))
          (λ d' adv. record {
            maps = adv.maps;
            heap =
                subst (IsHeap (r ∷ log)) (sym adv.heap)
                  (IsHeap-skip r log d.heap (access_kind r kind).1 v.heap);
            entry = λ b nb. accessed_entry d' b kind adv (v.entry b nb) (a == b) refl;
          })
  ]

  pub event_step :
      r.kind ≡ RecordType.memory_alloc
      → (if is_release r then block_fits r log else true) ≡ true
      → Safely (IsReuseSound (r ∷ log)) d (memory_allocation r d)
  unfolding memory_allocation
  event_step kind fits = elim (Bool-cases (is_alloc r.op == 0)) [
    | inl rel ↦
        let is : is_release r ≡ true = ground arith in
        let (d', done, gone) = memory_free-IsReleased r log d v.maps is v.heap (rw is at fits) in
        rw rel (
          Safely-ok (IsReuseSound (r ∷ log)) d (memory_free r d) d' done gone.symbolizer
            (released d' kind gone))
    | inr alloc ↦ rw alloc (refl, allocated kind (ground arith) (λ a. ground arith))
  ]
