-- ===== src/Profiler.antt =====
-- The profiler: the signal handler, the start and the stop of racez_pmuprofiler.cc, and their callers
-- in racez_preload.c. What libpfm, the kernel and the real functions return is an argument. Of the
-- three functions that attach a thread to its counter, which set up libpfm, the entry in the map of
-- descriptors is modelled; the installed signal handler itself is not.
pub mod Kernel
pub mod Attach
pub mod Signals
pub mod Stops
mod Tests
mod AttachTests
use racez.Base.{
  ℕ, zero, suc, ◌+◌, ◌*◌, ◌%◌, ◌^◌, Bool, true, false, not, ◌&&◌, List, [], ◌∷◌, Option, none, some,
  ltb, ◌==◌, if◌then◌else◌, to_int, Outcome, ok, fault, null_pointer, assertion_failed, exited,
  ◌>>=◌, ◌>>◌, assert,
}
use racez.Record.{Record}
use racez.Flags.{Flags}
use racez.Lockset.{Tls}
use racez.AddressMap.{Map, at_or_insert, put}
use racez.Buffer.{BufferData, buffer_size, init_buffer, stop_buffer}
use racez.Sample.{Pmu, Header, zero_record, write_ibs_info, signal_handler_pebs, with_trace}
use racez.Preload.{
  World, Disposition, Process, Memory, once, call, malloc, pthread_mutex_lock, pthread_mutex_unlock,
}

-- The IBS registers of a sample: whether it is a load or a store, and what is read of its addresses.
pub record IbsOp : Type 0 where
  pub is_load : Bool
  pub is_store : Bool
  pub ip : Option ℕ
  pub memory_address : Option ℕ

-- What a signal brings: the descriptor, the thread, the frames of the unwinder, the header of the
-- thread's sampling buffer, the interrupted registers, the IBS registers (none if the descriptor or the
-- counter cannot be read), and whether the counter can be written.
pub record Signal : Type 0 where
  pub fd : ℕ
  pub tid : ℕ
  pub frames : List ℕ
  pub hdr : Option Header
  pub gregs : ℕ → ℕ
  pub ibs : Option IbsOp
  pub is_written : Bool

abbrev pub read_pmd : Option ℕ → Outcome ℕ
read_pmd none = fault exited
read_pmd (some v) = ok v

abbrev pub read_ibs : Option IbsOp → Outcome IbsOp
read_ibs none = fault exited
read_ibs (some op) = ok op

unfoldable pub signal_handler_amd_ibs :
    Flags → Tls → Record → Signal → Option BufferData → Outcome (Option BufferData)
signal_handler_amd_ibs f t r s buffer = do
  op ← read_ibs s.ibs
  (if op.is_load
      then (do
        ip ← read_pmd op.ip
        m_addr ← read_pmd op.memory_address
        write_ibs_info f t r s.tid ip m_addr true (s.gregs 16) buffer)
      else if op.is_store
      then (do
        ip ← read_pmd op.ip
        m_addr ← read_pmd op.memory_address
        write_ibs_info f t r s.tid ip m_addr false (s.gregs 16) buffer)
      else ok buffer)

-- The branch for the two PMUs of Intel.
unfoldable pub handle_pebs :
    Flags → Pmu → Tls → Record → Signal → Option BufferData → Outcome (Option BufferData)
handle_pebs f pmu t r s buffer = do
  buffer' ← signal_handler_pebs f pmu t r s.tid s.hdr s.gregs buffer
  (if f.racez_sampling_adjust == 0
      then ok buffer'
      else if s.is_written
      then ok buffer'
      else fault exited)

unfoldable pub handle :
    Flags → Pmu → Tls → Record → Signal → Option BufferData → Outcome (Option BufferData)
handle f Pmu.intel_core t r s buffer = handle_pebs f Pmu.intel_core t r s buffer
handle f Pmu.intel_nhm t r s buffer = handle_pebs f Pmu.intel_nhm t r s buffer
handle f Pmu.amd64 t r s buffer = signal_handler_amd_ibs f t r s buffer
handle f _ t r s buffer = fault exited

-- `signal_handler`: the look-up of the thread's descriptor enters a 0 for a thread that has none.
unfoldable pub signal_handler : Signal → Process → Outcome Process
signal_handler s p = do
  let (known, tid_fd) = at_or_insert s.tid 0 p.tid_fd
  r ← with_trace p.flags s.frames zero_record
  buffer ← handle p.flags p.pmu (p.tls s.tid) r s p.buffer
  ok (record p { tid_fd = tid_fd; num_stat = to_int (p.num_stat + 1); buffer = buffer })

abbrev pub is_supported : Pmu → Bool
is_supported Pmu.intel_core = true
is_supported Pmu.intel_nhm = true
is_supported Pmu.amd64 = true
is_supported _ = false

-- What libpfm, `malloc`, `open` and `sigaction` give at the start; `left` is what the function returns,
-- which has no `return` at its end.
pub record Start : Type 0 where
  pub pfm_ok : Bool
  pub pmu : Pmu
  pub header : ℕ
  pub area : ℕ
  pub memory : ℕ → Record
  pub fd : Option ℕ
  pub sigaction_ok : Bool
  pub left : ℕ

abbrev pub no_buffer : Option BufferData → Bool
no_buffer none = true
no_buffer (some b) = false

-- `InitBuffer` with its two calls of `malloc`, for 24 bytes and for BUFFERSIZE records of 368 bytes.
unfoldable pub start_buffer : World → ℕ → Start → Process → Outcome Process
start_buffer w tid s p₀ = do
  assert (no_buffer p₀.buffer)
  (_, p₁) ← malloc w tid 24 s.header p₀
  (_, p₂) ← if s.header == 0 then ok (0, p₁) else malloc w tid (buffer_size * 368) s.area p₁
  (_, buffer) ←
      init_buffer (not (s.header == 0)) (if s.area == 0 then none else some s.memory) s.fd none
  ok (record p₂ { buffer = buffer })

-- The two calls of `sigaction`, which can fail.
unfoldable pub setup_signal_handler : Bool → Process → Process
setup_signal_handler done p = record p {
  disposition = if done then Disposition.handler else p.disposition;
  sig_enable = if done then true else p.sig_enable;
}

unfoldable pub disable_signal_handler : Bool → Process → Process
disable_signal_handler done p = record p {
  disposition = if done then Disposition.ignored else p.disposition;
}

unfoldable pub pmu_profiler_start : World → ℕ → Start → Process → Outcome (ℕ × Process)
pmu_profiler_start w tid s p =
    if not s.pfm_ok
    then fault exited
    else if is_supported s.pmu
    then (do
      p' ← start_buffer w tid s (record p { pmu = s.pmu })
      assert (not p'.sig_enable)
      ok (s.left, setup_signal_handler s.sigaction_ok p'))
    else ok (0, record p { pmu = s.pmu })

unfoldable pub racez_start : World → ℕ → Start → Process → Outcome (ℕ × Process)
racez_start w tid s p = do
  (started, p') ← pmu_profiler_start w tid s (once w p)
  (if started == 0
      then ok (0, p')
      else (do assert (p'.racez_enable == 0); ok (0, record p' { racez_enable = 1 })))

-- The loop over the descriptors.
unfoldable pub stop_threads : Map ℕ → Outcome (Unit {0})
stop_threads [] = ok tt
stop_threads ((tid, fd) ∷ m) = do assert (not (fd == 0)); stop_threads m

-- The records of the log, and the process; `disabled` is whether `sigaction` succeeds.
unfoldable pub pmu_profiler_stop :
    World → ℕ → ℕ → Option Memory → Bool → Process → Outcome (List Record × Process)
pmu_profiler_stop w mutex tid memory disabled p = do
  (_, p₁) ← pthread_mutex_lock w tid memory mutex 0 p
  stop_threads p₁.tid_fd
  (_, p₂) ← pthread_mutex_unlock w tid memory mutex 0 p₁
  let p₃ = disable_signal_handler disabled p₂
  (records, _, buffer) ← stop_buffer p₃.buffer
  ok (records, record p₃ { buffer = buffer })

unfoldable pub racez_stop :
    World → ℕ → ℕ → Option Memory → Bool → Process → Outcome (List Record × Process)
racez_stop w mutex tid memory disabled p = do
  assert (p.racez_enable == 1)
  pmu_profiler_stop w mutex tid memory disabled (record p { racez_enable = 0 })

-- `pthread_create`, from the address of the 16 bytes of a `START_FUNC`.
unfoldable pub pthread_create : World → ℕ → ℕ → ℕ → Process → Outcome (ℕ × Process)
pthread_create w tid orig_start result p = do
  (_, p₁) ← malloc w tid 16 orig_start (once w p)
  call orig_start
  call p₁.real.create
  ok (result, p₁)
