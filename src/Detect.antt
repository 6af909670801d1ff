-- ===== src/Detect.antt =====
-- The offline detector, tools/detect.cc: `offline_detection` on one record, and the loops of `main`
-- over the records of its input files. Its standard output, the files and `getopt` are left out.
pub mod Safe
pub mod Entries
pub mod Order
pub mod Second
pub mod Reuse
pub mod Histories
pub mod Access
pub mod Run
pub mod Races
pub mod Warnings
pub mod Blocks
pub mod Command
mod Tests
mod MapTests
use racez.Base.{
  ℕ, ◌+◌, Bool, true, false, List, [], ◌∷◌, Option, none, some, ◌==◌, if◌then◌else◌, rounds,
  ptr_add, Outcome, ok, fault, null_pointer, ◌>>=◌, ◌>>◌, assert,
}
use racez.Record.{Record, Op, RecordType, memory_op, memory_alloc}
use racez.Record.Views.{start_address, size, is_alloc}
use racez.RecordSet
use racez.Eraser.{Location, core_detection, first_access}
use racez.AddressMap.{Map, find, insert, assign, at_or_insert, put, lower_bound, erase_between}
use racez.Report.Filename.{Symbolizer}
use racez.Report.{Warning, report_error}

-- The global variables: the four maps, and the warnings, with the binary and what its commands give. A
-- pointer in a map may be NULL.
pub record Detector : Type 0 where
  pub record_sets : Map (Option (List Record))
  pub rw : Map ℕ
  pub lock_sets : Map (Option (List ℕ))
  pub heap : Map ℕ
  pub warning_count : ℕ
  pub output : List Warning
  pub symbolizer : Symbolizer

abbrev pub start : Symbolizer → Detector
start w = record {
  record_sets = [];
  rw = [];
  lock_sets = [];
  heap = [];
  warning_count = 0;
  output = [];
  symbolizer = w;
}

-- The target of the pointer in a map's entry.
abbrev pub deref {ℓ} : {A : Type ℓ} → Option (Option A) → Outcome A
deref none = fault null_pointer
deref (some none) = fault null_pointer
deref (some (some a)) = ok a

-- What the three maps hold for an address.
unfoldable pub location_at : ℕ → Detector → Outcome Location
location_at a d = do
  records ← deref (find a d.record_sets)
  status ← deref (some (find a d.rw))
  locks ← deref (find a d.lock_sets)
  ok (record { status = status; records = records; locks = locks })

-- The location's status, record set and lock set are written through the entries of the maps.
unfoldable pub store_location : ℕ → Location → Detector → Detector
store_location a loc d = record d {
  record_sets = assign a (some loc.records) d.record_sets;
  rw = assign a loc.status d.rw;
  lock_sets = assign a (some loc.locks) d.lock_sets;
}

unfoldable pub report_if : Bool → ℕ → Location → Detector → Outcome Detector
report_if false a loc d = ok d
report_if true a loc d = do
  (count, warning) ← report_error d.symbolizer loc.records a d.warning_count
  ok (record d { warning_count = count; output = warning ∷ d.output })

-- The address has its entry in the three maps; the flags say which entries are new.
unfoldable pub access_entries : Record → Bool → Bool → Bool → Detector → Outcome Detector
access_entries r new_set true new_locks d = do
  assert new_set
  assert new_locks
  loc ← first_access r
  ok (store_location r.op.memory_address loc d)
access_entries r new_set false new_locks d = do
  loc ← location_at r.op.memory_address d
  (loc', will_report) ← core_detection r loc
  report_if will_report r.op.memory_address loc' (store_location r.op.memory_address loc' d)

-- The branch of `offline_detection` for MEMORY_OP.
unfoldable pub memory_access : Record → Detector → Outcome Detector
memory_access r d =
    let a = r.op.memory_address in
    let (sets, new_set) = insert a none d.record_sets in
    let (rw, new_rw) = insert a 0 d.rw in
    let (locks, new_locks) = insert a none d.lock_sets in
    if a == 0
    then ok d
    else access_entries r new_set new_rw new_locks
        (record d { record_sets = sets; rw = rw; lock_sets = locks })

unfoldable pub delete_map_entries : ℕ → ℕ → Detector → Outcome Detector
delete_map_entries first last d = do
  lock_sets ←
      erase_between (lower_bound first d.lock_sets) (lower_bound last d.lock_sets) d.lock_sets
  record_sets ←
      erase_between (lower_bound first d.record_sets) (lower_bound last d.record_sets) d.record_sets
  rw ← erase_between (lower_bound first d.rw) (lower_bound last d.rw) d.rw
  ok (record d { record_sets = record_sets; rw = rw; lock_sets = lock_sets })

-- The branch for MEMORY_ALLOC, with `enable_memory_reuse`.
unfoldable pub memory_free : Record → Detector → Outcome Detector
memory_free r d =
    let first = start_address r.op in
    let bytes = size r.op in
    let (known, heap) = at_or_insert first 0 d.heap in
    if first == 0
    then ok d
    else if bytes == 0
    then (if known == 0
        then ok (record d { heap = heap })
        else delete_map_entries first (ptr_add first known) (record d { heap = heap }))
    else delete_map_entries first (ptr_add first bytes) d

unfoldable pub memory_allocation : Record → Detector → Outcome Detector
memory_allocation r d =
    if is_alloc r.op == 0
    then memory_free r d
    else ok (record d { heap = put (start_address r.op) (size r.op) d.heap })

unfoldable pub offline_detection : Bool → Record → Detector → Outcome Detector
offline_detection enable_memory_reuse r d = elim r.kind [
  | RecordType.memory_op ↦ memory_access r d
  | RecordType.memory_alloc ↦ if enable_memory_reuse then memory_allocation r d else ok d
  | _ ↦ ok d
]

-- The loop over the raw file alone.
unfoldable pub detect_raw : Bool → List Record → Detector → Outcome Detector
detect_raw reuse [] d = ok d
detect_raw reuse (r ∷ raw) d = do d' ← offline_detection reuse r d; detect_raw reuse raw d'

-- The records of the second file, put into a set.
unfoldable pub read_new : List Record → List Record → List Record
read_new [] set = set
read_new (r ∷ rs) set = read_new rs (RecordSet.insert r set)

-- The loop over both files: the records of the set with the number of the raw record come first. It
-- ends where either is used up.
unfoldable pub detect_both : Bool → List Record → List Record → Detector → Outcome Detector
detect_both reuse [] set d = ok d
detect_both reuse (r ∷ raw) [] d = ok d
detect_both reuse (r ∷ raw) (q ∷ set) d = elim (q.record_no == r.record_no) [
  | true ↦ offline_detection reuse q d >>= λ d'. detect_both reuse (r ∷ raw) set d'
  | false ↦ offline_detection reuse r d >>= λ d'. detect_both reuse raw (q ∷ set) d'
]

-- `main`, from the records of the raw file and of the second file (none: not given, or empty).
unfoldable pub detect : Symbolizer → Bool → List Record → List Record → Outcome Detector
detect w reuse raw [] = detect_raw reuse raw (start w)
detect w reuse raw (q ∷ new) = detect_both reuse raw (read_new (q ∷ new) []) (start w)
