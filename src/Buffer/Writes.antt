-- ===== src/Buffer/Writes.antt =====
-- What `WriteRecord` (racez_bufferdata.cc) leaves in the buffer.
use racez.Base.{
  ℕ, zero, suc, ◌+◌, ◌<◌, ◌≤◌, ◌≡◌, ◌≢◌, refl, ap, ◌∙◌, Bool, true, false, ◌&&◌, List, [], ◌∷◌,
  some, arith, ltb, leb, ◌==◌, to_int, int_ltb, rounds, length, take, ok,
}
use racez.Record.{Record, Op, RecordType}
use racez.Record.Views.{
  start_address, size, is_alloc, set_mem_alloc, set_mem_alloc_read, size-lt, is_alloc-lt,
}
use racez.Buffer.{
  BufferData, buffer_size, atomic_increment_no_barrier, copy_slots, copy_op, copy_record, update,
  write_entry, write_record,
}

-- The memory of a record has ten slots in both arrays.
abbrev pub is_cell : Record → Bool
is_cell r = length r.op.lockset == 10 && length r.stack_trace == 10

-- A record whose counters stay within the ten slots of its arrays.
abbrev pub is_writable : Record → Bool
is_writable r = is_cell r && leb (rounds r.op.lock_count) 10 && leb (rounds r.trace_depth) 10

-- The operation of an access and of an allocation; of the other types nothing is said.
abbrev pub SameOp : RecordType → Op → Op → Type 0
SameOp RecordType.memory_op a b =
    (b.memory_address ≡ a.memory_address)
    × (b.pip ≡ a.pip)
    × (b.sip ≡ a.sip)
    × (b.is_write ≡ a.is_write)
    × (b.mem_op ≡ a.mem_op)
    × (b.lock_count ≡ a.lock_count)
    × (take (rounds a.lock_count) b.lockset ≡ take (rounds a.lock_count) a.lockset)
SameOp RecordType.memory_alloc a b =
    (start_address b ≡ start_address a) × (size b ≡ size a) × (is_alloc b ≡ is_alloc a)
SameOp _ a b = Unit {0}

-- The entry tells of the record its number, thread, type and trace, and the operation of an access or an
-- allocation.
pub record IsEntry (number : ℕ) (from to : Record) : Type 0 where
  pub number_is : to.record_no ≡ number
  pub thread : to.thread_id ≡ from.thread_id
  pub kind_is : to.kind ≡ from.kind
  pub op_is : SameOp from.kind from.op to.op
  pub depth : to.trace_depth ≡ from.trace_depth
  pub trace :
      take (rounds from.trace_depth) to.stack_trace
      ≡ take (rounds from.trace_depth) from.stack_trace

pub copy_slots_lem :
    (n : ℕ) (from to : List ℕ)
    → n ≤ length from
    → n ≤ length to
    → (xs : List ℕ) × (copy_slots n from to ≡ ok xs)
      × (length xs ≡ length to)
      × (take n xs ≡ take n from)
unfolding copy_slots
copy_slots_lem zero from to h k = (to, refl, refl, refl)
copy_slots_lem (suc n) [] to h k = absurd (omega arith)
copy_slots_lem (suc n) (x ∷ from) [] h k = absurd (omega arith)
copy_slots_lem (suc n) (x ∷ from) (y ∷ to) h k =
    let (xs, e, l, t) = copy_slots_lem n from to (omega arith) (omega arith) in
    (x ∷ xs, rw e, ap suc l, ap (◌∷◌ x) t)

copy_op_lem :
    (k : RecordType) (from to : Op)
    → rounds from.lock_count ≤ length from.lockset
    → length to.lockset ≡ 10
    → rounds from.lock_count ≤ 10
    → (op : Op) × (copy_op k from to ≡ ok op) × SameOp k from op × (length op.lockset ≡ 10)
unfolding copy_op set_mem_alloc
copy_op_lem RecordType.memory_op from to h k b =
    let (xs, e, l, t) =
      copy_slots_lem (rounds from.lock_count) from.lockset to.lockset h (omega arith) in
    (record from { lockset = xs }, rw e, (refl, refl, refl, refl, refl, refl, t), l ∙ k)
copy_op_lem RecordType.memory_alloc from to h k b =
    let read =
      set_mem_alloc_read (start_address from) (size from) (is_alloc from) to (size-lt from)
        (is_alloc-lt from) in
    (set_mem_alloc (start_address from) (size from) (is_alloc from) to, refl, read, k)
copy_op_lem _ from to h k b = (to, refl, tt, k)

pub copy_record_lem :
    (number : ℕ) (from to : Record)
    → is_writable from ≡ true
    → is_cell to ≡ true
    → (r : Record) × (copy_record number from to ≡ ok r)
      × IsEntry number from r
      × (is_cell r ≡ true)
unfolding copy_record
copy_record_lem number from to w c =
    let (op, e, same, l) =
      copy_op_lem from.kind from.op to.op (ground arith) (ground arith) (ground arith) in
    let (trace, e', l', t) =
      copy_slots_lem (rounds from.trace_depth) from.stack_trace to.stack_trace (ground arith)
        (ground arith) in
    (
      record {
        record_no = number;
        thread_id = from.thread_id;
        kind = from.kind;
        op = op;
        stack_trace = trace;
        trace_depth = from.trace_depth;
      },
      rw (e, e'),
      record {
        number_is = refl;
        thread = refl;
        kind_is = refl;
        op_is = same;
        depth = refl;
        trace = t;
      },
      ground (arith, l, l'),
    )

-- The flag is set, and the entry behind `global_` lies in the buffer.
pub write_record_lem :
    (flag : ℕ) (r : Record) (b : BufferData)
    → flag ≢ 0
    → b.global + 1 < buffer_size
    → is_writable r ≡ true
    → ((i : ℕ) → is_cell (b.cells i) ≡ true)
    → (entry : Record) × (write_record flag r (some b)
        ≡ ok (
            some (record b { cells = update b.cells (b.global + 1) entry; global = b.global + 1 })))
      × IsEntry (b.global + 1) r entry
      × (is_cell entry ≡ true)
unfolding write_record write_entry atomic_increment_no_barrier
write_record_lem flag r b set fits w c =
    let (entry, e, copy, cell) =
      copy_record_lem (b.global + 1) r (b.cells (b.global + 1)) w (c (b.global + 1)) in
    let on : (flag == 0) ≡ false = ground arith in
    let small : to_int (b.global + 1) ≡ b.global + 1 = omega arith in
    let early : int_ltb buffer_size (b.global + 1) ≡ false = ground arith in
    let inside : ltb (b.global + 1) buffer_size ≡ true = ground arith in
    (entry, rw (on, small, early, inside, e), copy, cell)
