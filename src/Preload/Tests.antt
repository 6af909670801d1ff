-- ===== src/Preload/Tests.antt =====
-- Instances of the theorems on the wrappers of the preloaded library (racez_preload.c).
use racez.Base.{◌≡◌, refl, true, false, [], ◌∷◌, none, some, arith, ok}
use racez.Record.{Record, RecordType}
use racez.Flags.{initial_flags}
use racez.Lockset.{Lockset, held}
use racez.Lockset.Contents.{IsValid}
use racez.Buffer.{BufferData}
use racez.Sample.{Pmu, zero_record}
use racez.Sample.Locks.{after_write}
use racez.Preload.{Disposition, World, Process, Pointers, malloc, pthread_cond_signal}
use racez.Preload.Mutexes.{IsReady, lock_unlock, lock_unlock_lem, lock_unlock_disabled}
use racez.Preload.Allocation.{Tells, with_buffer, malloc-Tells, IsLogging as LogsAllocations}
use racez.Preload.Conditions.{labelled, cond_signal-labelled, IsLogging as LogsConditions}

abbrev pointers : Pointers
pointers = record {
  mutex_lock = 1;
  mutex_trylock = 2;
  mutex_unlock = 3;
  create = 4;
  malloc = 5;
  free = 6;
  cond_signal = 7;
  cond_wait = 8;
}

abbrev world : World
world = record {
  environment = record {
    lockset = none;
    signal_wait = some 1;
    memory_allocator = some 1;
    stacktrace = none;
    sampling_adjust = none;
    sample_skid = none;
    signal_sample = none;
    write_record = some 1;
  };
  symbols = pointers;
}

abbrev two_locks : Lockset
two_locks = record { n = 2; overflow = false; slots = 40 ∷ 41 ∷ 0 ∷ 0 ∷ 0 ∷ 0 ∷ 0 ∷ 0 ∷ 0 ∷ 0 ∷ [] }

two_locks-IsValid : IsValid two_locks
two_locks-IsValid = record { slots_10 = refl; bounded = omega arith; full = refl }

abbrev empty_log : BufferData
empty_log = record { cells = λ i. zero_record; global = 0; fd = 3 }

abbrev process : Process
process = record {
  initialized = true;
  flags = record initial_flags {
    racez_signal_wait = 1;
    racez_memory_allocator = 1;
    racez_write_record = 1;
  };
  real = pointers;
  racez_enable = 1;
  tls = λ tid. record { key_created = true; lockset = some two_locks };
  buffer = some empty_log;
  pmu = Pmu.intel_core;
  sig_enable = true;
  disposition = Disposition.handler;
  tid_fd = [];
  num_stat = 0;
}

abbrev disabled : Process
disabled = record process { racez_enable = 0; buffer = none }

process-IsReady : IsReady process 7 two_locks
process-IsReady = record {
  initialized = refl;
  lockset_on = refl;
  lock_found = refl;
  unlock_found = refl;
  created = refl;
  valid = two_locks-IsValid;
}

disabled-IsReady : IsReady disabled 7 two_locks
disabled-IsReady = record {
  initialized = refl;
  lockset_on = refl;
  lock_found = refl;
  unlock_found = refl;
  created = refl;
  valid = two_locks-IsValid;
}

process-LogsAllocations : LogsAllocations process empty_log
process-LogsAllocations = record {
  initialized = refl;
  allocator_on = refl;
  enabled = refl;
  write_on = omega arith;
  malloc_found = refl;
  free_found = refl;
  buffer_is = refl;
  room = omega arith;
  cells = λ i. refl;
}

process-LogsConditions : LogsConditions process empty_log
process-LogsConditions = record {
  initialized = refl;
  signal_wait_on = refl;
  enabled = refl;
  write_on = refl;
  signal_found = refl;
  wait_found = refl;
  buffer_is = refl;
  room = omega arith;
}

lock_unlock_lem_example :
    (p' : Process) × (l' : Lockset) × (lock_unlock world 7 none 50 process ≡ ok (0, p'))
    × (p'.tls 7 ≡ record { key_created = true; lockset = some l' })
    × IsValid l'
    × (held l' ≡ 40 ∷ 41 ∷ [])
    × (p'.tls 8 ≡ record { key_created = true; lockset = some two_locks })
    × (p'.buffer ≡ some empty_log)
lock_unlock_lem_example =
    lock_unlock_lem world 7 8 none 50 process two_locks process-IsReady refl refl refl (omega arith)

lock_unlock_disabled_example :
    (p' : Process) × (l' : Lockset) × (lock_unlock world 7 none 50 disabled ≡ ok (0, p'))
    × (p'.tls 7 ≡ record { key_created = true; lockset = some l' })
    × IsValid l'
    × (held l' ≡ 40 ∷ 41 ∷ 50 ∷ [])
lock_unlock_disabled_example =
    lock_unlock_disabled world 7 none 50 disabled two_locks disabled-IsReady refl

malloc-Tells_example :
    (e : Record) × (malloc world 7 16 0x800 process
      ≡ ok (0x800, with_buffer (after_write empty_log e) process))
    × Tells 7 0x800 16 1 e
malloc-Tells_example = malloc-Tells world 7 16 0x800 process empty_log process-LogsAllocations

cond_signal-labelled_example :
    pthread_cond_signal world 7 60 0 process
    ≡ ok (
      0,
      with_buffer (after_write empty_log (labelled RecordType.sync_signal 1 7 zero_record)) process,
    )
cond_signal-labelled_example =
    cond_signal-labelled world 7 60 process empty_log process-LogsConditions
