-- ===== src/Eraser/Spec.antt =====
-- What the detector should know of a location, read off the history of its accesses, the latest
-- first: an independent description of the states of tools/detect.cc.
use racez.Base.{
  ℕ, ◌+◌, Bool, true, false, ◌&&◌, ◌||◌, List, [], ◌∷◌, ◌==◌, if◌then◌else◌, rounds, take, contains,
  length, ◌≤◌,
}
use racez.Record.{Record}
use racez.Eraser.{writes}

-- The thread has an access in the history.
abbrev pub occurs : ℕ → List Record → Bool
occurs t [] = false
occurs t (r ∷ h) = r.thread_id == t || occurs t h

-- The number of different threads.
abbrev pub thread_count : List Record → ℕ
thread_count [] = 0
thread_count (r ∷ h) = (if occurs r.thread_id h then 0 else 1) + thread_count h

abbrev pub has_write : List Record → Bool
has_write [] = false
has_write (r ∷ h) = writes r || has_write h

-- The lock is in the lock set of every access.
abbrev pub held_by_all : ℕ → List Record → Bool
held_by_all a [] = true
held_by_all a (r ∷ h) = contains a (take (rounds r.op.lock_count) r.op.lockset) && held_by_all a h

-- The state, by the number of threads and by whether there was a write.
abbrev pub classify : List Record → ℕ
classify h =
    if thread_count h == 1 then if has_write h then 1 else 0 else if has_write h then 3 else 2

-- An access as the profiler writes it: `is_write_` is 0 or 1, and the locks fit their array.
pub record IsAccess (r : Record) : Type 0 where
  pub flag : r.op.is_write ≤ 1
  pub fits : rounds r.op.lock_count ≤ length r.op.lockset
