-- ===== src/Preload/Conditions.antt =====
-- The wrappers of the condition variables (racez_preload.c) and the records that they log.
use racez.Base.{ℕ, ◌+◌, ◌<◌, ◌≡◌, refl, true, false, some, arith, ltb, ◌==◌, to_int, int_ltb, ok}
use racez.Record.{Record, RecordType}
use racez.Buffer.{
  BufferData, buffer_size, atomic_increment_no_barrier, copy_slots, copy_op, copy_record,
  write_entry, write_record,
}
use racez.Sample.Locks.{after_write}
use racez.Preload.{
  World, Process, wait_record, signal_record, pthread_cond_wait, pthread_cond_signal,
}
use racez.Preload.Mutexes.{once_done}
use racez.Preload.Allocation.{with_buffer, log_if_on}

-- The library is set up, and what the two wrappers log goes to a buffer with room.
pub record IsLogging (p : Process) (b : BufferData) : Type 0 where
  pub initialized : p.initialized ≡ true
  pub signal_wait_on : (p.flags.racez_signal_wait == 0) ≡ false
  pub enabled : (p.racez_enable == 0) ≡ false
  pub write_on : (p.flags.racez_write_record == 0) ≡ false
  pub signal_found : (p.real.cond_signal == 0) ≡ false
  pub wait_found : (p.real.cond_wait == 0) ≡ false
  pub buffer_is : p.buffer ≡ some b
  pub room : b.global + 1 < buffer_size

-- The entry of a record without locks and trace whose type is not copied.
abbrev pub labelled : RecordType → ℕ → ℕ → Record → Record
labelled kind number tid old = record old {
  record_no = number;
  thread_id = tid;
  kind = kind;
  trace_depth = 0;
}

write_label :
    (flag : ℕ) (r : Record) (b : BufferData)
    → (flag == 0) ≡ false
    → b.global + 1 < buffer_size
    → copy_record (b.global + 1) r (b.cells (b.global + 1))
      ≡ ok (labelled r.kind (b.global + 1) r.thread_id (b.cells (b.global + 1)))
    → write_record flag r (some b)
      ≡ ok (
          some
            (after_write b (labelled r.kind (b.global + 1) r.thread_id (b.cells (b.global + 1)))))
unfolding write_record write_entry atomic_increment_no_barrier
write_label flag r b on fits e =
    let small : to_int (b.global + 1) ≡ b.global + 1 = omega arith in
    let early : int_ltb buffer_size (b.global + 1) ≡ false = ground arith in
    let inside : ltb (b.global + 1) buffer_size ≡ true = ground arith in
    rw (on, small, early, inside, e)

signal_copied :
    (number tid cond : ℕ) (old : Record)
    → copy_record number (signal_record tid cond) old
      ≡ ok (labelled RecordType.sync_signal number tid old)
unfolding copy_record copy_op copy_slots signal_record
signal_copied number tid cond old = refl

wait_copied :
    (number tid cond mutex : ℕ) (old : Record)
    → copy_record number (wait_record tid cond mutex) old
      ≡ ok (labelled RecordType.sync_wait number tid old)
unfolding copy_record copy_op copy_slots wait_record
wait_copied number tid cond mutex old = refl

-- `pthread_cond_signal`, when the real function returns 0, returns 0 and logs an entry of the type
-- SYNC_SIGNAL with the thread, but not with the condition: the operation and the stack trace are what
-- the memory of the buffer held before, whatever the condition was.
pub cond_signal-labelled :
    (w : World) (tid cond : ℕ) (p : Process) (b : BufferData)
    → IsLogging p b
    → pthread_cond_signal w tid cond 0 p
      ≡ ok (
        0,
        with_buffer
            (after_write b
              (labelled RecordType.sync_signal (b.global + 1) tid (b.cells (b.global + 1))))
            p,
      )
unfolding pthread_cond_signal signal_record
cond_signal-labelled w tid cond p b g =
    let written =
      write_label p.flags.racez_write_record (signal_record tid cond) b g.write_on g.room
        (signal_copied (b.global + 1) tid cond (b.cells (b.global + 1))) in
    let logged =
      log_if_on p.flags.racez_signal_wait (signal_record tid cond) p b _ g.signal_wait_on g.enabled
        g.buffer_is written in
    rw (once_done w p g.initialized, g.signal_found, g.signal_found, logged)

-- `pthread_cond_wait`, when the real function returns 0, returns 0 and logs an entry of the type
-- SYNC_WAIT with the thread, but with neither the condition nor the mutex.
pub cond_wait-labelled :
    (w : World) (tid cond mutex : ℕ) (p : Process) (b : BufferData)
    → IsLogging p b
    → pthread_cond_wait w tid cond mutex 0 p
      ≡ ok (
        0,
        with_buffer
            (after_write b
              (labelled RecordType.sync_wait (b.global + 1) tid (b.cells (b.global + 1))))
            p,
      )
unfolding pthread_cond_wait wait_record
cond_wait-labelled w tid cond mutex p b g =
    let written =
      write_label p.flags.racez_write_record (wait_record tid cond mutex) b g.write_on g.room
        (wait_copied (b.global + 1) tid cond mutex (b.cells (b.global + 1))) in
    let logged =
      log_if_on p.flags.racez_signal_wait (wait_record tid cond mutex) p b _ g.signal_wait_on
        g.enabled g.buffer_is written in
    rw (once_done w p g.initialized, g.wait_found, g.wait_found, logged)
