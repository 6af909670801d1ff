-- ===== src/Flags.antt =====
-- The settings of the preloaded library, racez_preload.c. What `getenv` and `atoi` make of the
-- environment is an argument: the number that a variable holds, or none if it is not set.
use racez.Base.{ℕ, Option, none, some}

pub record Environment : Type 0 where
  pub lockset : Option ℕ
  pub signal_wait : Option ℕ
  pub memory_allocator : Option ℕ
  pub stacktrace : Option ℕ
  pub sampling_adjust : Option ℕ
  pub sample_skid : Option ℕ
  pub signal_sample : Option ℕ
  pub write_record : Option ℕ

pub record Flags : Type 0 where
  pub racez_lockset : ℕ
  pub racez_signal_wait : ℕ
  pub racez_memory_allocator : ℕ
  pub racez_stacktrace : ℕ
  pub racez_sampling_adjust : ℕ
  pub racez_sample_skid : ℕ
  pub racez_signal_sample : ℕ
  pub racez_write_record : ℕ

-- The values of the variables before `preload_init`.
abbrev pub initial_flags : Flags
initial_flags = record {
  racez_lockset = 1;
  racez_signal_wait = 0;
  racez_memory_allocator = 0;
  racez_stacktrace = 0;
  racez_sampling_adjust = 0;
  racez_sample_skid = 0;
  racez_signal_sample = 0;
  racez_write_record = 0;
}

abbrev pub or_default : ℕ → Option ℕ → ℕ
or_default d none = d
or_default d (some v) = v

unfoldable pub read_flags : Environment → Flags
read_flags e = record {
  racez_lockset = or_default 1 e.lockset;
  racez_signal_wait = or_default 0 e.signal_wait;
  racez_memory_allocator = or_default 0 e.memory_allocator;
  racez_stacktrace = or_default 0 e.stacktrace;
  racez_sampling_adjust = or_default 0 e.sampling_adjust;
  racez_sample_skid = or_default 0 e.sample_skid;
  racez_signal_sample = or_default 0 e.signal_sample;
  racez_write_record = or_default 0 e.write_record;
}
