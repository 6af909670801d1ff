-- ===== src/Buffer/Interleave/Tests.antt =====
-- Two threads that call `WriteRecord` (racez_bufferdata.cc) at once: the second one fills its entry first.
use racez.Base.{ℕ, ◌<◌, ◌≤◌, ◌≡◌, refl, [], ◌∷◌, arith, ok}
use racez.Record.{Record}
use racez.Buffer.{
  BufferData, buffer_size, write_entry, copy_record, copy_op, copy_slots, update,
  atomic_increment_no_barrier,
}
use racez.Buffer.Writes.{IsEntry}
use racez.Buffer.Interleave.{finish_write, Pc, set_pc, Writers, Step, Reach}
use racez.Buffer.Interleave.Invariant.{Among, Belongs}
use racez.Buffer.Interleave.Safety.{Reach-IsSafe, log_complete, call_ends}
use racez.Sample.{zero_record}

abbrev record_of : ℕ → Record
record_of tid = record zero_record { thread_id = tid }

abbrev fresh : BufferData
fresh = record { cells = λ j. zero_record; global = 0; fd = 3 }

start : Reach fresh (record { buffer = fresh; pc = λ i. Pc.idle; written = [] })
start = Reach.first refl (λ j. refl)

abbrev pcs : ℕ → Pc
pcs = set_pc (set_pc (λ i. Pc.idle) 0 (Pc.claimed 1 (record_of 7))) 1 (Pc.claimed 2 (record_of 8))

abbrev two : BufferData
two = record fresh { global = 2 }

-- Both hold an index.
both : Reach fresh (record { buffer = two; pc = pcs; written = [] })
unfolding atomic_increment_no_barrier
both =
    Reach.next (Reach.next start (Step.claim 0 (record_of 7) refl refl))
      (Step.claim 1 (record_of 8) refl refl)

call_ends_example :
    (t : Writers) × Step (record { buffer = two; pc = pcs; written = [] }) t
    × (t.pc 1 ≡ Pc.idle)
    × Among (2, record_of 8) t.written
call_ends_example =
    call_ends fresh (record { buffer = two; pc = pcs; written = [] }) 1 2 (record_of 8) both refl
      (omega arith) (omega arith)

-- The buffer when both have filled their entries.
abbrev filled : ℕ → Record → BufferData → BufferData
filled n r b = record b { cells = update b.cells n (record r { record_no = n }) }

fill_two : finish_write 2 (record_of 8) two ≡ ok (filled 2 (record_of 8) two)
unfolding finish_write write_entry copy_record copy_op copy_slots
fill_two = refl

fill_one :
    finish_write 1 (record_of 7) (filled 2 (record_of 8) two)
    ≡ ok (filled 1 (record_of 7) (filled 2 (record_of 8) two))
unfolding finish_write write_entry copy_record copy_op copy_slots
fill_one = refl

abbrev done : Writers
done = record {
  buffer = filled 1 (record_of 7) (filled 2 (record_of 8) two);
  pc = set_pc (set_pc pcs 1 Pc.idle) 0 Pc.idle;
  written = (1, record_of 7) ∷ (2, record_of 8) ∷ [];
}

done-Reach : Reach fresh done
done-Reach =
    Reach.next (Reach.next both (Step.fill 1 2 (record_of 8) refl fill_two))
      (Step.fill 0 1 (record_of 7) refl fill_one)

Reach-IsSafe_example :
    ((i j n : ℕ) (r q : Record) → done.pc i ≡ Pc.claimed n r → done.pc j ≡ Pc.claimed n q → i ≡ j)
    × ((n : ℕ) (r : Record)
        → Among (n, r) done.written
        → n < buffer_size
        → IsEntry n r (done.buffer.cells n))
    × ((n : ℕ) → 0 < n → n ≤ 2 → Belongs done.pc done.written n)
Reach-IsSafe_example = Reach-IsSafe fresh done done-Reach

all_idle : (i : ℕ) → done.pc i ≡ Pc.idle
all_idle i = ground arith

log_complete_example : (r : Record) × Among (2, r) done.written × IsEntry 2 r (done.buffer.cells 2)
log_complete_example =
    log_complete fresh done done-Reach all_idle (omega arith) 2 (omega arith) (omega arith)
