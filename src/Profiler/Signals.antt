-- ===== src/Profiler/Signals.antt =====
-- What the signal handler (racez_pmuprofiler.cc) does with a sample on the PMUs of Intel.
use mathlib.Core.Bool.{true≢false}
use racez.Base.{
  none, not, ℕ, ◌+◌, ◌≤◌, ◌<◌, ◌≡◌, ◌≢◌, refl, sym, ap, ◌∙◌, subst, Bool, true, false, ◌||◌, List,
  [], Option, some, arith, ◌==◌, if◌then◌else◌, Bool-cases, inl, inr, rounds, length, take, drop,
  to_int, Outcome, ok, fault, exited, ◌>>=◌,
}
use racez.Record.{Record, Registers}
use racez.Flags.{Flags}
use racez.Lockset.{Lockset, Tls}
use racez.AddressMap.{at_or_insert}
use racez.Buffer.{BufferData, buffer_size}
use racez.Sample.{
  Pmu, Header, zero_record, zeros, pebs_record, context_record, sampled_locks, write_pebs_info,
  last_entry, process_smpl_buf_pebs, signal_handler_pebs, with_trace,
}
use racez.Sample.Traces.{with_trace-kept, length-take_le}
use racez.Sample.Locks.{locks_held, AreValid, IsBlank, Shows, HasCells}
use racez.Sample.Shown.{
  ShowsSample, Shows-ShowsSample, AreInterrupted, context_registers-AreInterrupted,
}
use racez.Sample.Writes.{is_doubled, after_sample, write_pebs_info-Shows}
use racez.Preload.{Process}
use racez.Profiler.{Signal, handle_pebs, handle, signal_handler}

abbrev pub is_pebs : Pmu → Bool
is_pebs Pmu.intel_core = true
is_pebs Pmu.intel_nhm = true
is_pebs _ = false

-- The frames that the record of a sample shows.
abbrev pub shown_frames : Flags → List ℕ → List ℕ
shown_frames f frames = if f.racez_stacktrace == 0 then [] else take 8 (drop 2 frames)

length-take_8 : (xs : List ℕ) → length (take 8 xs) ≤ 10
length-take_8 xs = let h = length-take_le 8 xs in omega arith

-- The locks that the records of a sample show.
abbrev pub shown_locks : Flags → Tls → List ℕ
shown_locks f t = if f.racez_lockset == 0 then [] else locks_held t.lockset

shown_locks_lem : (f : Flags) (t : Tls) → locks_held (sampled_locks f t) ≡ shown_locks f t
shown_locks_lem f t = choose (f.racez_lockset == 0) t.lockset
  where
    choose :
        (off : Bool) (l : Option Lockset)
        → locks_held (if off then none else l) ≡ (if off then [] else locks_held l)
    choose true l = refl
    choose false l = refl

-- A sample makes a second record.
abbrev pub has_second : Flags → Pmu → Bool
has_second f Pmu.intel_core = not (f.racez_signal_sample == 0)
has_second f _ = false

has_second_lem : (f : Flags) (pmu : Pmu) → is_doubled f pmu ≡ has_second f pmu
has_second_lem f Pmu.intel_core = ground arith
has_second_lem f Pmu.intel_nhm = ground arith
has_second_lem f Pmu.amd64 = ground arith
has_second_lem f (Pmu.other n) = ground arith

untraced :
    (f : Flags) (frames : List ℕ) (r : Record)
    → (f.racez_stacktrace == 0) ≡ true
    → with_trace f frames r ≡ ok r
unfolding with_trace
untraced f frames r h = rw h

shown_if :
    (off : Bool) (xs : List ℕ) (b : Bool)
    → off ≡ b
    → (if off then [] else xs) ≡ (if b then [] else xs)
shown_if off xs b h = ap (λ c. if c then [] else xs) h

nonzero : (n : ℕ) → (n == 0) ≡ false → n ≢ 0
nonzero n h = ground arith

traced :
    (f : Flags) (frames : List ℕ)
    → (r : Record) × (with_trace f frames zero_record ≡ ok r)
      × IsBlank r
      × (rounds r.trace_depth ≡ length (shown_frames f frames))
      × (take (length (shown_frames f frames)) r.stack_trace ≡ shown_frames f frames)
traced f frames = elim (Bool-cases (f.racez_stacktrace == 0)) [
  | inl off ↦
      (let none_shown : [] ≡ shown_frames f frames =
          sym (shown_if (f.racez_stacktrace == 0) (take 8 (drop 2 frames)) true off) in
        (
          zero_record,
          untraced f frames zero_record off,
          record { no_locks = refl; slots_10 = refl; trace_10 = refl; depth_fits = omega arith },
          ap length none_shown,
          ap (λ xs. take (length xs) zeros) (sym none_shown) ∙ none_shown,
        ))
  | inr on ↦
      (let some_shown : take 8 (drop 2 frames) ≡ shown_frames f frames =
          sym (shown_if (f.racez_stacktrace == 0) (take 8 (drop 2 frames)) false on) in
        let (r, done, depth, same, size, op) =
          with_trace-kept f frames zero_record (nonzero f.racez_stacktrace on) refl in
        (
          r,
          done,
          record {
            no_locks = ap (λ o. o.lock_count) op;
            slots_10 = ap (λ o. length o.lockset) op;
            trace_10 = size;
            depth_fits = subst (λ k. k ≤ 10) (sym depth) (length-take_8 (drop 2 frames));
          },
          depth ∙ ap length some_shown,
          ap (λ xs. take (length xs) r.stack_trace) (sym some_shown) ∙ same ∙ some_shown,
        ))
]

handle-is_pebs :
    (f : Flags) (pmu : Pmu) (t : Tls) (r : Record) (s : Signal) (buffer : Option BufferData)
    → is_pebs pmu ≡ true
    → handle f pmu t r s buffer ≡ handle_pebs f pmu t r s buffer
unfolding handle
handle-is_pebs f Pmu.intel_core t r s buffer h = refl
handle-is_pebs f Pmu.intel_nhm t r s buffer h = refl
handle-is_pebs f Pmu.amd64 t r s buffer h = absurd (true≢false (sym h))
handle-is_pebs f (Pmu.other n) t r s buffer h = absurd (true≢false (sym h))

adjusted :
    (off written : Bool) (o : Outcome (Option BufferData)) (x : Option BufferData)
    → (off || written) ≡ true
    → o ≡ ok x
    → (o >>= λ b. if off then ok b else if written then ok b else fault exited) ≡ ok x
adjusted true written o x h e = rw e
adjusted false true o x h e = rw e
adjusted false false o x h e = absurd (true≢false (sym h))

handle_lem :
    (f : Flags) (pmu : Pmu) (t : Tls) (r : Record) (s : Signal) (hdr : Header) (entry : Registers)
    (buffer : Option BufferData) (b : BufferData) (x : Option BufferData)
    → is_pebs pmu ≡ true
    → (f.racez_sampling_adjust == 0 || s.is_written) ≡ true
    → s.hdr ≡ some hdr
    → last_entry hdr.count hdr.entries ≡ ok (some entry)
    → buffer ≡ some b
    → write_pebs_info f pmu t r s.tid entry (s.gregs 16) s.gregs (some b) ≡ ok x
    → handle f pmu t r s buffer ≡ ok x
unfolding handle_pebs signal_handler_pebs process_smpl_buf_pebs
handle_lem f pmu t r s hdr entry buffer b x intel adjust h last buf written =
    let taken : signal_handler_pebs f pmu t r s.tid s.hdr s.gregs buffer ≡ ok x =
      ap (λ o. signal_handler_pebs f pmu t r s.tid o s.gregs buffer) h
      ∙ ap (signal_handler_pebs f pmu t r s.tid (some hdr) s.gregs) buf
      ∙ rw (last, written) in
    handle-is_pebs f pmu t r s buffer intel
    ∙ adjusted (f.racez_sampling_adjust == 0) s.is_written
        (signal_handler_pebs f pmu t r s.tid s.hdr s.gregs buffer) x adjust taken

-- A signal on a PMU of Intel: the thread has a sampling buffer whose last entry can be read, its lock
-- set is valid, the log is on with room for two records, and the counter is not adjusted or can be
-- written. Then the handler runs through, counts the sample, and leaves in the log a record of the
-- registers of the last entry, with the thread, the locks of the thread (none if the lock sets are off)
-- and the third to the tenth frame of its stack (none if stack traces are off), and behind it, for signal
-- samples on a Core, one of the registers of the interrupted code with the same locks and no frame.
pub signal_handler-Shows :
    (s : Signal) (p : Process) (hdr : Header) (entry : Registers) (b : BufferData)
    → is_pebs p.pmu ≡ true
    → p.flags.racez_write_record ≢ 0
    → (p.flags.racez_sampling_adjust == 0 || s.is_written) ≡ true
    → AreValid (p.tls s.tid).lockset
    → s.hdr ≡ some hdr
    → last_entry hdr.count hdr.entries ≡ ok (some entry)
    → p.buffer ≡ some b
    → b.global + 2 < buffer_size
    → HasCells b
    → (p' : Process) × (e : Record) × (e' : Record) × (signal_handler s p ≡ ok p')
      × (p'.buffer ≡ some (after_sample (has_second p.flags p.pmu) b e e'))
      × (p'.num_stat ≡ to_int (p.num_stat + 1))
      × ShowsSample s.tid 0 entry.ip
          (s.gregs 16)
          0
          entry
          (shown_locks p.flags (p.tls s.tid))
          (shown_frames p.flags s.frames)
          e
      × ShowsSample s.tid 0
          (s.gregs 16)
          (s.gregs 16)
          0
          e'.op.mem_op
          (shown_locks p.flags (p.tls s.tid))
          []
          e'
      × AreInterrupted s.gregs e'.op.mem_op
unfolding signal_handler pebs_record context_record
signal_handler-Shows s p hdr entry b intel on adjust v h last buf room cells =
    let (r, traced_r, blank, depth, trace) = traced p.flags s.frames in
    let (e, e', written, shows, shows') =
      write_pebs_info-Shows p.flags p.pmu (p.tls s.tid) r s.tid entry (s.gregs 16) s.gregs b on v
        blank room cells in
    let locks = shown_locks_lem p.flags (p.tls s.tid) in
    let sample = after_sample (is_doubled p.flags p.pmu) b e e' in
    let handled =
      handle_lem p.flags p.pmu (p.tls s.tid) r s hdr entry p.buffer b (some sample) intel adjust h
        last buf written in
    (
      record p {
        tid_fd = (at_or_insert s.tid 0 p.tid_fd).1;
        num_stat = to_int (p.num_stat + 1);
        buffer = some sample;
      },
      e,
      e',
      rw (traced_r, handled),
      ap (λ twice. some (after_sample twice b e e')) (has_second_lem p.flags p.pmu),
      refl,
      Shows-ShowsSample (pebs_record s.tid entry (s.gregs 16) r) e
          (shown_locks p.flags (p.tls s.tid)) (shown_frames p.flags s.frames)
          (subst (λ ls. Shows (pebs_record s.tid entry (s.gregs 16) r) ls e) locks shows) depth
          trace,
      subst
          (λ m.
            ShowsSample s.tid 0 (s.gregs 16) (s.gregs 16) 0 m (shown_locks p.flags (p.tls s.tid)) []
              e')
          (sym shows'.registers)
          (Shows-ShowsSample (context_record s.tid s.gregs (s.gregs 16)) e'
            (shown_locks p.flags (p.tls s.tid)) []
            (subst (λ ls. Shows (context_record s.tid s.gregs (s.gregs 16)) ls e') locks shows')
            refl refl),
      subst (AreInterrupted s.gregs) (sym shows'.registers)
          (context_registers-AreInterrupted s.gregs),
    )
