-- ===== src/Buffer/Interleave.antt =====
-- Calls of `WriteRecord` (racez_bufferdata.cc) by several threads at once: a call takes the next index
-- by an atomic addition, and then fills the entry there. Another thread may run between the two. The
-- flag is set, and the entry is filled in one step: no other thread has its index.
mod Invariant
mod Fills
pub mod Safety
mod Tests
use racez.Base.{
  ℕ, ◌+◌, ◌≡◌, Bool, true, List, [], ◌∷◌, Outcome, ok, ◌==◌, if◌then◌else◌, to_int, int_ltb,
}
use racez.Record.{Record}
use racez.Buffer.{BufferData, buffer_size, atomic_increment_no_barrier, write_entry}
use racez.Buffer.Writes.{is_cell, is_writable}

-- What is left of the call behind the addition.
unfoldable pub finish_write : ℕ → Record → BufferData → Outcome BufferData
finish_write index r b =
    if int_ltb buffer_size (to_int index) then ok b else write_entry index (to_int index) r b

-- Where a thread stands: in no call, or with the index for its record.
pub data Pc : Type 0 where
  idle : Pc
  claimed : (index : ℕ) → Record → Pc

abbrev pub set_pc : (ℕ → Pc) → ℕ → Pc → ℕ → Pc
set_pc pc i a j = if i == j then a else pc j

-- The buffer, the threads, and the calls that have ended, with their indices.
pub record Writers : Type 0 where
  pub buffer : BufferData
  pub pc : ℕ → Pc
  pub written : List (ℕ × Record)

pub data Step (s : Writers) : Writers → Type 0 where
  claim :
      (i : ℕ) (r : Record)
      → s.pc i ≡ Pc.idle
      → is_writable r ≡ true
      → Step s (record s {
        buffer = (atomic_increment_no_barrier s.buffer).1;
        pc = set_pc s.pc i (Pc.claimed (atomic_increment_no_barrier s.buffer).0 r);
      })
  fill :
      (i index : ℕ) (r : Record) {b : BufferData}
      → s.pc i ≡ Pc.claimed index r
      → finish_write index r s.buffer ≡ ok b
      → Step s (record { buffer = b; pc = set_pc s.pc i Pc.idle; written = (index, r) ∷ s.written })

-- From a buffer that `InitBuffer` set up.
pub data Reach (b : BufferData) : Writers → Type 0 where
  first :
      b.global ≡ 0
      → ((j : ℕ) → is_cell (b.cells j) ≡ true)
      → Reach b (record { buffer = b; pc = λ i. Pc.idle; written = [] })
  next : {s t : Writers} → Reach b s → Step s t → Reach b t
