-- ===== src/Buffer.antt =====
-- The log buffer of the profiled process, racez_bufferdata.h and racez_bufferdata.cc. The memory of
-- the buffer is a function from an index to a record; what `malloc` returned and the descriptor of the
-- opened file are arguments. That a `write` to the file fails is not modelled.
pub mod Writes
pub mod Log
pub mod Overrun
pub mod Interleave
mod Tests
use racez.Base.{
  ℕ, zero, suc, ◌+◌, Bool, true, false, List, [], ◌∷◌, Option, none, some, ltb, ◌==◌, if◌then◌else◌,
  to_int, int_ltb, rounds, Outcome, ok, fault, out_of_bounds, null_pointer, assertion_failed,
  exited, cons_ok, ◌>>=◌,
}
use racez.Record.{Record, Op, RecordType}
use racez.Record.Views.{start_address, size, is_alloc, set_mem_alloc}

-- `BUFFERSIZE`: the records that the buffer has room for.
abbrev pub buffer_size : ℕ
buffer_size = 5_000_000

-- `start_` is index 0 and `global_` an index, which may lie behind the end.
pub record BufferData : Type 0 where
  pub cells : ℕ → Record
  pub global : ℕ
  pub fd : ℕ

-- The new value of the pointer, and the buffer with it.
unfoldable pub atomic_increment_no_barrier : BufferData → ℕ × BufferData
atomic_increment_no_barrier b = (b.global + 1, record b { global = b.global + 1 })

-- `for (int i = 0; i < rounds; i++) to[i] = from[i]`
unfoldable pub copy_slots : ℕ → List ℕ → List ℕ → Outcome (List ℕ)
copy_slots zero from to = ok to
copy_slots (suc n) [] to = fault out_of_bounds
copy_slots (suc n) (x ∷ from) [] = fault out_of_bounds
copy_slots (suc n) (x ∷ from) (y ∷ to) = cons_ok x (copy_slots n from to)

-- The operation by the type of the record: of the other types nothing is copied.
unfoldable pub copy_op : RecordType → Op → Op → Outcome Op
copy_op RecordType.memory_op from to = do
  lockset ← copy_slots (rounds from.lock_count) from.lockset to.lockset
  ok (record from { lockset = lockset })
copy_op RecordType.memory_alloc from to =
    ok (set_mem_alloc (start_address from) (size from) (is_alloc from) to)
copy_op _ from to = ok to

-- The assignments of `WriteRecord` to the entry.
unfoldable pub copy_record : ℕ → Record → Record → Outcome Record
copy_record record_no from to = do
  op ← copy_op from.kind from.op to.op
  stack_trace ← copy_slots (rounds from.trace_depth) from.stack_trace to.stack_trace
  ok (record {
    record_no = record_no;
    thread_id = from.thread_id;
    kind = from.kind;
    op = op;
    stack_trace = stack_trace;
    trace_depth = from.trace_depth;
  })

abbrev pub update : (ℕ → Record) → ℕ → Record → ℕ → Record
update cells i r j = if i == j then r else cells j

unfoldable pub write_entry : ℕ → ℕ → Record → BufferData → Outcome BufferData
write_entry index record_no r b =
    if ltb index buffer_size
    then (do
      entry ← copy_record record_no r (b.cells index)
      ok (record b { cells = update b.cells index entry }))
    else fault out_of_bounds

-- `WriteRecord`, with the flag `racez_write_record`.
unfoldable pub write_record : ℕ → Record → Option BufferData → Outcome (Option BufferData)
write_record racez_write_record r none =
    if racez_write_record == 0 then ok none else fault null_pointer
write_record racez_write_record r (some b) =
    let (index, b') = atomic_increment_no_barrier b in
    let record_no = to_int index in
    if racez_write_record == 0
    then ok (some b)
    else if int_ltb buffer_size record_no
    then ok (some b')
    else (do b'' ← write_entry index record_no r b'; ok (some b''))

-- The loop over the entries from `entry` on; `count` of them are left.
unfoldable pub dump : ℕ → ℕ → (ℕ → Record) → Outcome (List Record)
dump zero entry cells = ok []
dump (suc count) entry cells =
    let rest = dump count (suc entry) cells in
    if ltb entry buffer_size then cons_ok (cells entry) rest else fault out_of_bounds

-- `FlushBuffer`: the records written to the file.
unfoldable pub flush_buffer : Option BufferData → Outcome (List Record)
flush_buffer none = fault null_pointer
flush_buffer (some b) = dump (suc b.global) 0 b.cells

-- `StopBuffer`: the records written, the number printed, and the global pointer after it.
unfoldable pub stop_buffer : Option BufferData → Outcome (List Record × ℕ × Option BufferData)
stop_buffer none = fault null_pointer
stop_buffer (some b) = do records ← dump (suc b.global) 0 b.cells; ok (records, suc b.global, none)

-- `InitBuffer`, from whether the header is allocated, the memory of the records, the descriptor and
-- the global pointer.
unfoldable pub init_buffer :
    Bool → Option (ℕ → Record) → Option ℕ → Option BufferData → Outcome (Bool × Option BufferData)
init_buffer header memory fd (some b) = fault assertion_failed
init_buffer false memory fd none = fault exited
init_buffer true none fd none = fault exited
init_buffer true (some cells) none none =
    ok (false, some (record { cells = cells; global = 0; fd = 0 }))
init_buffer true (some cells) (some fd) none =
    ok (true, some (record { cells = cells; global = 0; fd = fd }))
