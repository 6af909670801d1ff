-- ===== src/Eraser.antt =====
-- The lock set algorithm for one memory location: `core_detection` of tools/detect.cc, a function for
-- each case of its switch. A location is in state 0 (read by one thread), 1 (written by one thread),
-- 2 (read by several), 3 (shared and written) or 4 (reported).
pub mod Spec
pub mod Switch
pub mod Due
pub mod Candidates
pub mod Tracks
use racez.Base.{
  ℕ, Bool, true, false, ◌&&◌, ◌||◌, List, [], ◌∷◌, Option, none, some, ltb, ◌==◌, if◌then◌else◌,
  rounds, length, load, Outcome, ok, fault, assertion_failed, ◌>>=◌, ◌>>◌, assert,
}
use racez.Record.{Record, Op}
use racez.RecordSet.{insert, erase, set_includes_thread_id}
use racez.LockSet.{collect, set_intersection}

-- What the three maps hold for one address: `*status`, `*record_set` and `*lockset`.
pub record Location : Type 0 where
  pub status : ℕ
  pub records : List Record
  pub locks : List ℕ

-- The variables that the switch assigns: `*status`, `*record_set` and `may_report`.
pub record Switched : Type 0 where
  pub status : ℕ
  pub records : List Record
  pub may_report : Bool

abbrev pub writes : Record → Bool
writes r = r.op.is_write == 1

unfoldable pub exclusive_read : Record → List Record → Outcome Switched
exclusive_read cur set = do
  assert (length set == 1)
  elim (set_includes_thread_id set cur.thread_id) [
    | none ↦ ok (
        if writes cur
        then record { status = 3; records = insert cur set; may_report = true }
        else record { status = 2; records = insert cur set; may_report = false })
    | some i ↦ ok (record {
      status = if writes cur then 1 else 0;
      records = insert cur (erase i set);
      may_report = false;
    })
  ]

unfoldable pub exclusive_write : Record → List Record → Outcome Switched
exclusive_write cur set = do
  assert (length set == 1)
  elim (set_includes_thread_id set cur.thread_id) [
    | none ↦ ok (record { status = 3; records = insert cur set; may_report = true })
    | some i ↦ ok (record {
      status = 1;
      records = if writes cur then insert cur (erase i set) else set;
      may_report = false;
    })
  ]

unfoldable pub shared_read : Record → List Record → Outcome Switched
shared_read cur set = do
  assert (ltb 1 (length set))
  elim (set_includes_thread_id set cur.thread_id) [
    | none ↦ ok (record {
      status = if writes cur then 3 else 2;
      records = insert cur set;
      may_report = writes cur;
    })
    | some i ↦ ok (record {
      status = if writes cur then 3 else 2;
      records = insert cur (erase i set);
      may_report = writes cur;
    })
  ]

unfoldable pub shared_modified : Record → List Record → Outcome Switched
shared_modified cur set = do
  assert (ltb 1 (length set))
  elim (set_includes_thread_id set cur.thread_id) [
    | none ↦ ok (record { status = 3; records = insert cur set; may_report = false })
    | some i ↦ load set i >>= λ old. ok (record {
      status = 3;
      records =
          if writes cur || old.op.is_write == 0 && writes cur
          then insert cur (erase i set)
          else set;
      may_report = true;
    })
  ]

-- State 4: its body stands under `if(0)`.
unfoldable pub reported : List Record → Outcome Switched
reported set = do
  assert (ltb 1 (length set))
  ok (record { status = 4; records = set; may_report = false })

unfoldable pub switch : ℕ → Record → List Record → Outcome Switched
unfolding exclusive_read exclusive_write shared_read shared_modified reported
switch status cur set =
    if status == 0
    then exclusive_read cur set
    else if status == 1
    then exclusive_write cur set
    else if status == 2
    then shared_read cur set
    else if status == 3
    then shared_modified cur set
    else if status == 4
    then reported set
    else fault assertion_failed

abbrev pub is_empty : List ℕ → Bool
is_empty [] = true
is_empty (x ∷ xs) = false

-- The test behind the switch: the location with its new status, and `will_report`.
unfoldable pub conclude : Switched → List ℕ → Location × Bool
conclude s locks =
    if s.may_report && (s.status == 3 && is_empty locks)
    then (record { status = 4; records = s.records; locks = locks }, true)
    else (record { status = s.status; records = s.records; locks = locks }, false)

unfoldable pub core_detection : Record → Location → Outcome (Location × Bool)
core_detection cur loc = do
  s ← switch loc.status cur loc.records
  temp_set ← collect (rounds cur.op.lock_count) cur.op.lockset []
  ok (conclude s (set_intersection loc.locks temp_set))

-- The location at its first access (the `rw_map_status.second` branch of `offline_detection`).
unfoldable pub first_access : Record → Outcome Location
first_access cur = do
  locks ← collect (rounds cur.op.lock_count) cur.op.lockset []
  ok (record { status = cur.op.is_write; records = insert cur []; locks = locks })
