-- ===== src/Profiler/Tests.antt =====
-- Instances of the theorems on the profiler (racez_pmuprofiler.cc).
use racez.Base.{
  ℕ, ◌<◌, get_elem?, ◌≡◌, refl, true, false, List, [], ◌∷◌, none, some, arith, length, ok, fault,
  assertion_failed,
}
use racez.Record.{Record, Registers}
use racez.Flags.{initial_flags}
use racez.Lockset.{Lockset, held}
use racez.Lockset.Contents.{IsValid}
use racez.Buffer.{BufferData}
use racez.Sample.{Pmu, Header, zero_record, zero_registers, last_entry}
use racez.Sample.Shown.{ShowsSample, AreInterrupted}
use racez.Sample.Writes.{after_sample}
use racez.Preload.{Disposition, World, Process, Pointers}
use racez.Preload.Mutexes.{IsReady}
use racez.Profiler.{Signal, Start, signal_handler, racez_start, racez_stop}
use racez.Profiler.Signals.{signal_handler-Shows}
use racez.Profiler.Stops.{racez_stop-keeps_mutex, restart_fails}

abbrev pointers : Pointers
pointers = record {
  mutex_lock = 1;
  mutex_trylock = 2;
  mutex_unlock = 3;
  create = 4;
  malloc = 5;
  free = 6;
  cond_signal = 7;
  cond_wait = 8;
}

abbrev pub world : World
world = record {
  environment = record {
    lockset = none;
    signal_wait = none;
    memory_allocator = none;
    stacktrace = some 1;
    sampling_adjust = none;
    sample_skid = none;
    signal_sample = none;
    write_record = some 1;
  };
  symbols = pointers;
}

abbrev pub one_lock : Lockset
one_lock = record { n = 1; overflow = false; slots = 40 ∷ 0 ∷ 0 ∷ 0 ∷ 0 ∷ 0 ∷ 0 ∷ 0 ∷ 0 ∷ 0 ∷ [] }

pub one_lock-IsValid : IsValid one_lock
one_lock-IsValid = record { slots_10 = refl; bounded = omega arith; full = refl }

abbrev empty_log : BufferData
empty_log = record { cells = λ i. zero_record; global = 0; fd = 3 }

abbrev pub process : Process
process = record {
  initialized = true;
  flags = record initial_flags { racez_stacktrace = 1; racez_write_record = 1 };
  real = pointers;
  racez_enable = 1;
  tls = λ tid. record { key_created = true; lockset = some one_lock };
  buffer = some empty_log;
  pmu = Pmu.intel_core;
  sig_enable = true;
  disposition = Disposition.handler;
  tid_fd = (7, 4) ∷ [];
  num_stat = 0;
}

process-IsReady : IsReady process 7 one_lock
process-IsReady = record {
  initialized = refl;
  lockset_on = refl;
  lock_found = refl;
  unlock_found = refl;
  created = refl;
  valid = one_lock-IsValid;
}

abbrev registers : Registers
registers = record zero_registers { ip = 0x400 }

abbrev pub header : Header
header = record { count = 1; entries = registers ∷ [] }

abbrev signal : Signal
signal = record {
  fd = 4;
  tid = 7;
  frames = 1 ∷ 2 ∷ 3 ∷ 4 ∷ [];
  hdr = some header;
  gregs = λ i. i;
  ibs = none;
  is_written = true;
}

last_is_registers : last_entry 1 (registers ∷ []) ≡ ok (some registers)
unfolding last_entry
last_is_registers = refl

signal_handler-Shows_example :
    (p' : Process) × (e : Record) × (e' : Record) × (signal_handler signal process ≡ ok p')
    × (p'.buffer ≡ some (after_sample false empty_log e e'))
    × (p'.num_stat ≡ 1)
    × ShowsSample 7 0 0x400 16 0 registers (40 ∷ []) (3 ∷ 4 ∷ []) e
    × ShowsSample 7 0 16 16 0 e'.op.mem_op (40 ∷ []) [] e'
    × AreInterrupted (λ i. i) e'.op.mem_op
signal_handler-Shows_example =
    signal_handler-Shows signal process header registers empty_log refl (omega arith) refl
      one_lock-IsValid refl last_is_registers refl (omega arith) (λ i. refl)

racez_stop-keeps_mutex_example :
    (records : List Record) × (p' : Process) × (l' : Lockset) × (racez_stop world 90 7 none true
        process
      ≡ ok (records, p'))
    × (length records ≡ 1)
    × ((i : ℕ) → i < 1 → get_elem? records i ≡ some (empty_log.cells i))
    × (p'.racez_enable ≡ 0)
    × (p'.buffer ≡ none)
    × (p'.tls 7 ≡ record { key_created = true; lockset = some l' })
    × (held l' ≡ 40 ∷ 90 ∷ [])
racez_stop-keeps_mutex_example =
    racez_stop-keeps_mutex world 90 7 none true process one_lock empty_log process-IsReady refl refl
      refl refl (omega arith)

abbrev again : Start
again = record {
  pfm_ok = true;
  pmu = Pmu.intel_core;
  header = 100;
  area = 200;
  memory = λ i. zero_record;
  fd = some 5;
  sigaction_ok = true;
  left = 1;
}

restart_fails_example :
    (records : List Record) × (p' : Process) × (racez_stop world 90 7 none true process
      ≡ ok (records, p'))
    × (racez_start world 7 again p' ≡ fault assertion_failed)
restart_fails_example =
    restart_fails world 90 7 none true process one_lock empty_log again 5 process-IsReady refl refl
      refl refl (omega arith) refl refl refl refl refl refl refl
