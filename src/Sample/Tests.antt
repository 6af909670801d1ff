-- ===== src/Sample/Tests.antt =====
-- Instances of the theorems on the records of a sample (racez_pmuprofiler.cc).
use mathlib.Core.List.{Perm}
use racez.Base.{ℕ, ◌≡◌, refl, true, false, List, [], ◌∷◌, some, arith, length, take, rounds, ok}
use racez.Record.{Record, Registers}
use racez.Flags.{Flags, initial_flags}
use racez.Lockset.{Lockset, Tls}
use racez.Lockset.Contents.{IsValid}
use racez.Lockset.History.{Event, lock, unlock, run, bag_run}
use racez.Buffer.{BufferData}
use racez.Sample.{
  Pmu, zero_record, zero_registers, zeros, write_pebs_info, write_ibs_info, with_trace,
}
use racez.Sample.Shown.{ShowsSample}
use racez.Sample.Traces.{with_trace-kept}
use racez.Sample.Locks.{IsBlank, after_write}
use racez.Sample.Writes.{write_ibs_info-Shows, sample-bag}

abbrev on : Flags
on = record initial_flags { racez_write_record = 1; racez_signal_sample = 1; racez_stacktrace = 1 }

abbrev no_locks : Lockset
no_locks = record { n = 0; overflow = false; slots = zeros }

no_locks-IsValid : IsValid no_locks
no_locks-IsValid = record { slots_10 = refl; bounded = omega arith; full = refl }

zero_record-IsBlank : IsBlank zero_record
zero_record-IsBlank = record {
  no_locks = refl;
  slots_10 = refl;
  trace_10 = refl;
  depth_fits = omega arith;
}

abbrev thread : Tls
thread = record { key_created = true; lockset = some no_locks }

abbrev registers : Registers
registers = record zero_registers { ip = 0x400 }

abbrev empty_log : BufferData
empty_log = record { cells = λ i. zero_record; global = 0; fd = 3 }

abbrev greg : ℕ → ℕ
greg i = i

with_trace-kept_example :
    (r' : Record) × (with_trace on (1 ∷ 2 ∷ 3 ∷ 4 ∷ []) zero_record ≡ ok r')
    × (rounds r'.trace_depth ≡ 2)
    × (take 2 r'.stack_trace ≡ 3 ∷ 4 ∷ [])
    × (length r'.stack_trace ≡ 10)
    × (r'.op ≡ zero_record.op)
with_trace-kept_example = with_trace-kept on (1 ∷ 2 ∷ 3 ∷ 4 ∷ []) zero_record (omega arith) refl

write_ibs_info-Shows_example :
    (e : Record) × (write_ibs_info on thread zero_record 7 0x400 64 false 5 (some empty_log)
      ≡ ok (some (after_write empty_log e)))
    × ShowsSample 7 64 0x400 5 1 zero_registers [] [] e
write_ibs_info-Shows_example =
    write_ibs_info-Shows on thread zero_record 7 0x400 64 false 5 empty_log (omega arith)
      no_locks-IsValid zero_record-IsBlank (omega arith) (λ i. refl)

abbrev history : List Event
history = lock 40 ∷ lock 41 ∷ unlock 40 ∷ []

sample-bag_example :
    (l : Lockset) × (e : Record) × (e' : Record) × (run history no_locks ≡ ok l)
    × (write_pebs_info on Pmu.amd64
          (record { key_created = true; lockset = some l })
          zero_record
          7
          registers
          5
          greg
          (some empty_log)
        ≡ ok (some (after_write empty_log e)))
    × (e.op.pip ≡ 0x400)
    × Perm (take e.op.lock_count e.op.lockset) (bag_run history [])
sample-bag_example =
    sample-bag history no_locks on Pmu.amd64 zero_record 7 registers 5 greg empty_log
      no_locks-IsValid refl (omega arith) (omega arith) zero_record-IsBlank (omega arith)
      (λ i. refl)
