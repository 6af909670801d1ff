-- ===== src/Preload/Allocation.antt =====
-- The wrappers of `malloc` and `free` (racez_preload.c) and the records that they log.
use racez.Base.{
  or_split, ℕ, ◌+◌, ◌^◌, ◌<◌, ◌≡◌, ◌≢◌, refl, ◌∙◌, Bool, true, false, ◌||◌, some, arith, ◌==◌,
  if◌then◌else◌, to_int, Outcome, ok,
}
use racez.Record.{Record, RecordType}
use racez.Record.Views.{start_address, size, is_alloc, set_mem_alloc, set_mem_alloc_read}
use racez.Buffer.{BufferData, buffer_size, write_record}
use racez.Buffer.Writes.{is_writable, write_record_lem}
use racez.Sample.{zero_op}
use racez.Sample.Locks.{HasCells, after_write}
use racez.Preload.{World, Process, log_if, allocation_record, malloc, free}
use racez.Preload.Mutexes.{once_done}

-- The library is set up, and what `malloc` and `free` log goes to a buffer with room.
pub record IsLogging (p : Process) (b : BufferData) : Type 0 where
  pub initialized : p.initialized ≡ true
  pub allocator_on : (p.flags.racez_memory_allocator == 0) ≡ false
  pub enabled : (p.racez_enable == 0) ≡ false
  pub write_on : p.flags.racez_write_record ≢ 0
  pub malloc_found : (p.real.malloc == 0) ≡ false
  pub free_found : (p.real.free == 0) ≡ false
  pub buffer_is : p.buffer ≡ some b
  pub room : b.global + 1 < buffer_size
  pub cells : HasCells b

abbrev pub with_buffer : BufferData → Process → Process
with_buffer b p = record p { buffer = some b }

-- An entry of the log tells of an allocation or of a release.
pub record Tells (tid start bytes alloc : ℕ) (e : Record) : Type 0 where
  pub thread : e.thread_id ≡ tid
  pub kind : e.kind ≡ RecordType.memory_alloc
  pub start_is : start_address e.op ≡ start
  pub bytes_are : size e.op ≡ bytes
  pub alloc_is : is_alloc e.op ≡ alloc

pub log_if_on :
    (flag : ℕ) (r : Record) (p : Process) (b b' : BufferData)
    → (flag == 0) ≡ false
    → (p.racez_enable == 0) ≡ false
    → p.buffer ≡ some b
    → write_record p.flags.racez_write_record r (some b) ≡ ok (some b')
    → log_if flag r p ≡ ok (with_buffer b' p)
unfolding log_if
log_if_on flag r p b b' on enabled buf written = rw (on, enabled, buf, written)

allocation_record-is_writable :
    (tid start bytes alloc : ℕ) → is_writable (allocation_record tid start bytes alloc) ≡ true
unfolding allocation_record set_mem_alloc
allocation_record-is_writable tid start bytes alloc = refl

to_int-lt : (n : ℕ) → to_int n < 2 ^ 32
to_int-lt n = omega arith

pub log_if_off :
    (flag : ℕ) (r : Record) (p : Process)
    → (flag == 0 || p.racez_enable == 0) ≡ true
    → log_if flag r p ≡ ok p
unfolding log_if
log_if_off flag r p off = skipped (flag == 0) (p.racez_enable == 0) (ok p) _ off
  where
    skipped :
        (a b : Bool) (x y : Outcome Process)
        → (a || b) ≡ true
        → (if a then x else if b then x else y) ≡ x
    skipped true b x y h = refl
    skipped false true x y h = refl
    skipped false false x y h = ground arith

log_allocation :
    (tid start bytes alloc : ℕ) (p : Process) (b : BufferData)
    → IsLogging p b
    → bytes < 2 ^ 32
    → alloc < 2 ^ 32
    → (e : Record) × (log_if p.flags.racez_memory_allocator
          (allocation_record tid start bytes alloc)
          p
        ≡ ok (with_buffer (after_write b e) p))
      × Tells tid start bytes alloc e
unfolding allocation_record
log_allocation tid start bytes alloc p b g h k =
    let (e, written, copy, _) =
      write_record_lem p.flags.racez_write_record (allocation_record tid start bytes alloc) b
        g.write_on g.room (allocation_record-is_writable tid start bytes alloc) g.cells in
    let (starts, sizes, allocs) = copy.op_is in
    let (s, n, a) = set_mem_alloc_read start bytes alloc zero_op h k in
    (
      e,
      log_if_on p.flags.racez_memory_allocator (allocation_record tid start bytes alloc) p b
          (after_write b e) g.allocator_on g.enabled g.buffer_is written,
      record {
        thread = copy.thread;
        kind = copy.kind_is;
        start_is = starts ∙ s;
        bytes_are = sizes ∙ n;
        alloc_is = allocs ∙ a;
      },
    )

-- With the allocator flag on, in an enabled profiler with room in the log, `malloc` returns what the
-- real one returned and logs an entry with the address, the size as an `int` and the flag 1.
pub malloc-Tells :
    (w : World) (tid bytes result : ℕ) (p : Process) (b : BufferData)
    → IsLogging p b
    → (e : Record) × (malloc w tid bytes result p ≡ ok (result, with_buffer (after_write b e) p))
      × Tells tid result (to_int bytes) 1 e
unfolding malloc
malloc-Tells w tid bytes result p b g =
    let (e, done, tells) =
      log_allocation tid result (to_int bytes) 1 p b g (to_int-lt bytes) (omega arith) in
    (e, rw (once_done w p g.initialized, g.malloc_found, g.malloc_found, done), tells)

-- With the allocator flag on, in an enabled profiler with room in the log, `free` logs an entry with
-- the thread, the address, the size 0 and the flag 0.
pub free-Tells :
    (w : World) (tid pointer : ℕ) (p : Process) (b : BufferData)
    → IsLogging p b
    → (e : Record) × (free w tid pointer p ≡ ok (with_buffer (after_write b e) p))
      × Tells tid pointer 0 0 e
unfolding free
free-Tells w tid pointer p b g =
    let (e, done, tells) = log_allocation tid pointer 0 0 p b g (omega arith) (omega arith) in
    (e, rw (once_done w p g.initialized, g.free_found, g.free_found, done), tells)

-- The flag is off or the profiler is disabled: neither wrapper touches the log, also when there is no
-- buffer, as behind `racez_stop`.
pub allocation_silent :
    (w : World) (tid bytes result : ℕ) (p : Process)
    → p.initialized ≡ true
    → (p.real.malloc == 0 || p.real.free == 0) ≡ false
    → (p.flags.racez_memory_allocator == 0 || p.racez_enable == 0) ≡ true
    → (malloc w tid bytes result p ≡ ok (result, p)) × (free w tid result p ≡ ok p)
unfolding malloc free
allocation_silent w tid bytes result p i found off =
    let (m, f) = or_split (p.real.malloc == 0) (p.real.free == 0) found in
    let quiet = λ (r : Record). log_if_off p.flags.racez_memory_allocator r p off in
    (
      rw (once_done w p i, m, m, quiet (allocation_record tid result (to_int bytes) 1)),
      rw (once_done w p i, f, f, quiet (allocation_record tid result 0 0)),
    )
