-- ===== src/Detect/Blocks/Run.antt =====
-- The loop of `main` (tools/detect.cc) over a raw file, with the memory reuse filter.
use racez.Base.{
  subst, sym, ◌≡◌, refl, inl, true, false, List, [], ◌∷◌, arith, if◌then◌else◌, and_split, all, ok,
}
use racez.Record.{Record, RecordType}
use racez.RecordSet.Threads.{fresh}
use racez.AddressMap.{find}
use racez.Detect.{Detector, start, memory_access, memory_allocation, offline_detection, detect_raw}
use racez.Detect.Histories.{well_formed}
use racez.Detect.Run.{distinct, extend, extend_start, is_memory_op}
use racez.Detect.Blocks.{is_event, is_release, block_fits, blocks_fit}
use racez.Detect.Blocks.Heap.{empty-IsHeap}
use racez.Report.Filename.{Symbolizer}
use racez.Detect.Safe.{Safely, Safely-ok, Safely-bind}
use racez.Detect.Blocks.Histories.{IsReuseSound}
use racez.Detect.Blocks.Step.{idle, access_step, event_step, other_kind}

data Kind (k : RecordType) : Type 0 where
  access : k ≡ RecordType.memory_op → Kind k
  event : k ≡ RecordType.memory_alloc → Kind k
  other : is_memory_op k ≡ false → is_event k ≡ false → Kind k

kind_of : (k : RecordType) → Kind k
kind_of RecordType.memory_op = Kind.access refl
kind_of RecordType.memory_alloc = Kind.event refl
kind_of _ = Kind.other refl refl

takes_access :
    (r : Record) (d : Detector)
    → r.kind ≡ RecordType.memory_op
    → offline_detection true r d ≡ memory_access r d
unfolding offline_detection
takes_access r d e = rw e refl

takes_event :
    (r : Record) (d : Detector)
    → r.kind ≡ RecordType.memory_alloc
    → offline_detection true r d ≡ memory_allocation r d
unfolding offline_detection
takes_event r d e = rw e refl

skips_other :
    (r : Record) (d : Detector)
    → is_memory_op r.kind ≡ false
    → is_event r.kind ≡ false
    → offline_detection true r d ≡ ok d
unfolding offline_detection
skips_other r d e e' = ground arith

step-IsReuseSound :
    (r : Record) (log : List Record) (d : Detector)
    → IsReuseSound log d
    → all well_formed (r ∷ log) ≡ true
    → fresh r log ≡ true
    → (if is_release r then block_fits r log else true) ≡ true
    → Safely (IsReuseSound (r ∷ log)) d (offline_detection true r d)
step-IsReuseSound r log d v wf new fits = elim (kind_of r.kind) [
  | access k ↦
      subst (Safely (IsReuseSound (r ∷ log)) d) (sym (takes_access r d k))
        (access_step r log d v k wf new)
  | event k ↦
      subst (Safely (IsReuseSound (r ∷ log)) d) (sym (takes_event r d k))
        (event_step r log d v k fits)
  | other k k' ↦
      let (rel, alloc, acc) = other_kind r k k' in
      Safely-ok (IsReuseSound (r ∷ log)) d (offline_detection true r d) d (skips_other r d k k')
        refl (idle r log d v rel alloc (λ a nz. acc a))
]

pub run-IsReuseSound :
    (rs log : List Record) (d : Detector)
    → IsReuseSound log d
    → all well_formed (extend rs log) ≡ true
    → distinct (extend rs log) ≡ true
    → blocks_fit (extend rs log) ≡ true
    → Safely (IsReuseSound (extend rs log)) d (detect_raw true rs d)
unfolding detect_raw
run-IsReuseSound [] log d v wf ds fits = (refl, v)
run-IsReuseSound (r ∷ rs) log d v wf ds fits =
    let wf' =
      extend_start (all well_formed)
        (λ r log h. (and_split (well_formed r) (all well_formed log) h).1) rs (r ∷ log) wf in
    let ds' =
      extend_start distinct (λ r log h. (and_split (fresh r log) (distinct log) h).1) rs (r ∷ log)
        ds in
    let fits' =
      extend_start blocks_fit (λ r log h. (and_split _ (blocks_fit log) h).1) rs (r ∷ log) fits in
    Safely-bind (IsReuseSound (r ∷ log)) d (IsReuseSound (extend rs (r ∷ log)))
      (offline_detection true r d) _
      (step-IsReuseSound r log d v wf' (and_split (fresh r log) (distinct log) ds').0
        (and_split _ (blocks_fit log) fits').0)
      (λ d₁ v₁. run-IsReuseSound rs (r ∷ log) d₁ v₁ wf ds fits)

pub start-IsReuseSound : (w : Symbolizer) → IsReuseSound [] (start w)
unfolding find
start-IsReuseSound w = record {
  maps = record { sets = tt; states = tt; locks = tt };
  heap = empty-IsHeap;
  entry = λ a nz. inl (refl, record { sets = refl; states = refl; locks = refl }, refl);
}
