-- ===== src/Sample/Locks.antt =====
-- The locks in the records of a sample: `write_pebs_info` and `write_ibs_info` of
-- racez_pmuprofiler.cc.
use racez.Base.{
  ℕ, ◌+◌, ◌≤◌, ◌<◌, ◌≡◌, ◌≢◌, refl, sym, ap, ◌∙◌, subst, true, ◌&&◌, List, [], Option, none, some,
  arith, leb, ◌==◌, rounds, length, take, length-take_of_le, ok,
}
use racez.Record.{Record, RecordType}
use racez.Flags.{Flags}
use racez.Lockset.{Lockset, held}
use racez.Lockset.Contents.{IsValid}
use racez.Buffer.{BufferData, buffer_size, update}
use racez.Buffer.Writes.{is_cell, is_writable, SameOp, IsEntry, write_record_lem, copy_slots_lem}
use racez.Sample.{with_locks, write_locked}

abbrev pub locks_held : Option Lockset → List ℕ
locks_held none = []
locks_held (some l) = held l

abbrev pub AreValid : Option Lockset → Type 0
AreValid none = Unit {0}
AreValid (some l) = IsValid l

-- A record with room for the locks, and none entered.
pub record IsBlank (r : Record) : Type 0 where
  pub no_locks : r.op.lock_count ≡ 0
  pub slots_10 : length r.op.lockset ≡ 10
  pub trace_10 : length r.stack_trace ≡ 10
  pub depth_fits : rounds r.trace_depth ≤ 10

-- An entry of the log shows the access of the record, its stack trace and the locks.
pub record Shows (r : Record) (locks : List ℕ) (e : Record) : Type 0 where
  pub thread : e.thread_id ≡ r.thread_id
  pub kind : e.kind ≡ RecordType.memory_op
  pub address : e.op.memory_address ≡ r.op.memory_address
  pub pip : e.op.pip ≡ r.op.pip
  pub sip : e.op.sip ≡ r.op.sip
  pub write : e.op.is_write ≡ r.op.is_write
  pub registers : e.op.mem_op ≡ r.op.mem_op
  pub count : e.op.lock_count ≡ length locks
  pub locks_are : take (length locks) e.op.lockset ≡ locks
  pub depth : e.trace_depth ≡ r.trace_depth
  pub trace : take (rounds r.trace_depth) e.stack_trace ≡ take (rounds r.trace_depth) r.stack_trace

length-held : (l : Lockset) → IsValid l → length (held l) ≡ l.n
length-held l v = length-take_of_le l.n l.slots (omega (arith, v.slots_10, v.bounded))

rounds_small : (n : ℕ) → n ≤ 10 → rounds n ≡ n
rounds_small n h = ground arith

no_rounds : (n : ℕ) → n ≡ 0 → rounds n ≤ 10
no_rounds n h = ground arith

fits_slots :
    (count depth : ℕ) (slots trace : List ℕ)
    → length slots ≡ 10
    → length trace ≡ 10
    → rounds count ≤ 10
    → rounds depth ≤ 10
    → (length slots == 10 && length trace == 10 && leb (rounds count) 10 && leb (rounds depth) 10)
      ≡ true
fits_slots count depth slots trace a b c d = ground arith

with_locks_lem :
    (locks : Option Lockset) (r : Record)
    → AreValid locks
    → IsBlank r
    → r.kind ≡ RecordType.memory_op
    → (r' : Record) × (with_locks locks r ≡ ok r')
      × Shows r (locks_held locks) r'
      × (is_writable r' ≡ true)
unfolding with_locks
with_locks_lem none r v b kind = (
  r,
  refl,
  record {
    thread = refl;
    kind = kind;
    address = refl;
    pip = refl;
    sip = refl;
    write = refl;
    registers = refl;
    count = b.no_locks;
    locks_are = refl;
    depth = refl;
    trace = refl;
  },
  fits_slots r.op.lock_count r.trace_depth r.op.lockset r.stack_trace b.slots_10 b.trace_10
      (no_rounds r.op.lock_count b.no_locks) b.depth_fits,
)
with_locks_lem (some l) r v b kind =
    let small : rounds l.n ≡ l.n = rounds_small l.n v.bounded in
    let (slots, e, len, same) =
      copy_slots_lem (rounds l.n) l.slots r.op.lockset (omega (arith, small, v.slots_10, v.bounded))
        (omega (arith, small, b.slots_10, v.bounded)) in
    (
      record r { op = record (r.op) { lock_count = l.n; lockset = slots } },
      rw e,
      record {
        thread = refl;
        kind = kind;
        address = refl;
        pip = refl;
        sip = refl;
        write = refl;
        registers = refl;
        count = sym (length-held l v);
        locks_are =
            ap (λ k. take k slots) (length-held l v ∙ sym small)
            ∙ same
            ∙ ap (λ k. take k l.slots) small;
        depth = refl;
        trace = refl;
      },
      fits_slots l.n r.trace_depth slots r.stack_trace (len ∙ b.slots_10) b.trace_10
          (omega (arith, small, v.bounded)) b.depth_fits,
    )

shown_by_copy :
    (n : ℕ) (r : Record) (locks : List ℕ) (r' e : Record)
    → length locks ≤ 10
    → Shows r locks r'
    → IsEntry n r' e
    → Shows r locks e
shown_by_copy n r locks r' e small s c =
    let op : SameOp RecordType.memory_op r'.op e.op =
      subst (λ k. SameOp k r'.op e.op) s.kind c.op_is in
    let (address, pip, sip, write, registers, count, same) = op in
    let number : rounds r'.op.lock_count ≡ length locks =
      ap rounds s.count ∙ rounds_small (length locks) small in
    record {
      thread = c.thread ∙ s.thread;
      kind = c.kind_is ∙ s.kind;
      address = address ∙ s.address;
      pip = pip ∙ s.pip;
      sip = sip ∙ s.sip;
      write = write ∙ s.write;
      registers = registers ∙ s.registers;
      count = count ∙ s.count;
      locks_are = subst (λ k. take k e.op.lockset ≡ take k r'.op.lockset) number same ∙ s.locks_are;
      depth = c.depth ∙ s.depth;
      trace =
          subst (λ k. take (rounds k) e.stack_trace ≡ take (rounds k) r'.stack_trace) s.depth
            c.trace
          ∙ s.trace;
    }

few_held : (locks : Option Lockset) → AreValid locks → length (locks_held locks) ≤ 10
few_held none v = omega arith
few_held (some l) v = let e = length-held l v in omega (arith, v.bounded)

abbrev pub HasCells : BufferData → Type 0
HasCells b = (i : ℕ) → is_cell (b.cells i) ≡ true

-- The entry that a write makes, and the buffer behind it.
abbrev pub after_write : BufferData → Record → BufferData
after_write b entry = record b {
  cells = update b.cells (b.global + 1) entry;
  global = b.global + 1;
}

pub write_locked_lem :
    (f : Flags) (locks : Option Lockset) (r : Record) (b : BufferData)
    → f.racez_write_record ≢ 0
    → AreValid locks
    → IsBlank r
    → r.kind ≡ RecordType.memory_op
    → b.global + 1 < buffer_size
    → HasCells b
    → (e : Record) × (write_locked f locks r (some b) ≡ ok (some (after_write b e)))
      × Shows r (locks_held locks) e
      × (is_cell e ≡ true)
unfolding write_locked
write_locked_lem f locks r b on v blank kind room cells =
    let (r', done, shows, w) = with_locks_lem locks r v blank kind in
    let (e, written, copy, cell) = write_record_lem f.racez_write_record r' b on room w cells in
    (
      e,
      rw (done, written),
      shown_by_copy (b.global + 1) r (locks_held locks) r' e (few_held locks v) shows copy,
      cell,
    )
