-- ===== src/Sample.antt =====
-- The records that the signal handler makes of a sample, racez_pmuprofiler.cc. What the kernel and
-- libunwind hand over are arguments: the header of the sampling buffer with the entries behind it, the
-- registers of the interrupted code, and the frames of the unwinder.
pub mod Traces
pub mod Locks
pub mod Shown
pub mod Writes
mod Tests
use racez.Base.{
  ℕ, zero, suc, ◌+◌, ◌-◌, ◌%◌, ◌^◌, Bool, true, false, List, [], ◌∷◌, Option, none, some, ltb, ◌==◌,
  if◌then◌else◌, rounds, drop, store, Outcome, ok, fault, out_of_bounds, ◌>>=◌,
}
use racez.Record.{Record, Op, Registers, RecordType}
use racez.Flags.{Flags}
use racez.Lockset.{Lockset, Tls, get_per_thread_lockset}
use racez.Buffer.{BufferData, copy_slots, write_record}

-- The PMU types of libpfm that the code names; `other` holds any other.
pub data Pmu : Type 0 where
  intel_core intel_nhm amd64 : Pmu
  other : ℕ → Pmu

-- The header of the sampling buffer of a thread, and the entries in the memory behind it.
pub record Header : Type 0 where
  pub count : ℕ
  pub entries : List Registers

abbrev pub zeros : List ℕ
zeros = 0 ∷ 0 ∷ 0 ∷ 0 ∷ 0 ∷ 0 ∷ 0 ∷ 0 ∷ 0 ∷ 0 ∷ []

abbrev pub zero_registers : Registers
zero_registers = record {
  eflags = 0;
  ip = 0;
  eax = 0;
  ebx = 0;
  ecx = 0;
  edx = 0;
  esi = 0;
  edi = 0;
  ebp = 0;
  esp = 0;
  r8 = 0;
  r9 = 0;
  r10 = 0;
  r11 = 0;
  r12 = 0;
  r13 = 0;
  r14 = 0;
  r15 = 0;
}

abbrev pub zero_op : Op
zero_op = record {
  memory_address = 0;
  pip = 0;
  sip = 0;
  is_write = 0;
  mem_op = zero_registers;
  lock_count = 0;
  lockset = zeros;
}

-- `memset(&record, 0, sizeof(record))`; the type 0 names no enumerator.
abbrev pub zero_record : Record
zero_record = record {
  record_no = 0;
  thread_id = 0;
  kind = RecordType.other 0;
  op = zero_op;
  stack_trace = zeros;
  trace_depth = 0;
}

-- The locks of the thread are copied if it has a lock set.
unfoldable pub with_locks : Option Lockset → Record → Outcome Record
with_locks none r = ok r
with_locks (some l) r = do
  slots ← copy_slots (rounds l.n) l.slots r.op.lockset
  ok (record r { op = record (r.op) { lock_count = l.n; lockset = slots } })

unfoldable pub pebs_record : ℕ → Registers → ℕ → Record → Record
pebs_record tid entry sip r = record r {
  thread_id = tid;
  kind = RecordType.memory_op;
  op = record (r.op) {
    memory_address = 0;
    is_write = 0;
    pip = entry.ip;
    sip = sip;
    mem_op = entry;
  };
}

-- The registers by their index in `gregs`.
unfoldable pub context_registers : (ℕ → ℕ) → ℕ → Registers
context_registers gregs sip = record {
  eflags = gregs 17;
  ip = sip;
  eax = gregs 13;
  ebx = gregs 11;
  ecx = gregs 14;
  edx = gregs 12;
  esi = gregs 9;
  edi = gregs 8;
  ebp = gregs 10;
  esp = gregs 15;
  r8 = gregs 0;
  r9 = gregs 1;
  r10 = gregs 2;
  r11 = gregs 3;
  r12 = gregs 4;
  r13 = gregs 5;
  r14 = gregs 6;
  r15 = gregs 7;
}

-- The second record of a sample, from the interrupted code.
unfoldable pub context_record : ℕ → (ℕ → ℕ) → ℕ → Record
context_record tid gregs sip = record zero_record {
  thread_id = tid;
  kind = RecordType.memory_op;
  op = record zero_op { pip = sip; sip = sip; mem_op = context_registers gregs sip };
}

abbrev pub is_core : Pmu → Bool
is_core Pmu.intel_core = true
is_core _ = false

abbrev pub sampled_locks : Flags → Tls → Option Lockset
sampled_locks f t = if f.racez_lockset == 0 then none else t.lockset

unfoldable pub write_locked :
    Flags → Option Lockset → Record → Option BufferData → Outcome (Option BufferData)
write_locked f locks r buffer = do
  filled ← with_locks locks r
  write_record f.racez_write_record filled buffer

unfoldable pub write_pebs_info :
    Flags
    → Pmu
    → Tls
    → Record
    → ℕ
    → Registers
    → ℕ
    → (ℕ → ℕ)
    → Option BufferData
    → Outcome (Option BufferData)
write_pebs_info f pmu t r tid entry sip gregs buffer = do
  buffer' ← write_locked f (sampled_locks f t) (pebs_record tid entry sip r) buffer
  (if f.racez_signal_sample == 0
      then ok buffer'
      else if is_core pmu
      then write_locked f (sampled_locks f t) (context_record tid gregs sip) buffer'
      else ok buffer')

unfoldable pub ibs_record : ℕ → ℕ → ℕ → Bool → ℕ → Record → Record
ibs_record tid ip m_addr is_read sip r = record r {
  thread_id = tid;
  kind = RecordType.memory_op;
  op = record (r.op) {
    memory_address = m_addr;
    is_write = if is_read then 0 else 1;
    pip = ip;
    sip = sip;
  };
}

unfoldable pub write_ibs_info :
    Flags → Tls → Record → ℕ → ℕ → ℕ → Bool → ℕ → Option BufferData → Outcome (Option BufferData)
write_ibs_info f t r tid ip m_addr is_read sip buffer =
    write_locked f (get_per_thread_lockset t) (ibs_record tid ip m_addr is_read sip r) buffer

-- The loop over `count` entries: only the last one is read.
unfoldable pub last_entry : ℕ → List Registers → Outcome (Option Registers)
last_entry zero entries = ok none
last_entry (suc zero) [] = fault out_of_bounds
last_entry (suc zero) (entry ∷ entries) = ok (some entry)
last_entry (suc (suc count)) [] = last_entry (suc count) []
last_entry (suc (suc count)) (entry ∷ entries) = last_entry (suc count) entries

unfoldable pub process_smpl_buf_pebs :
    Flags
    → Pmu
    → Tls
    → Record
    → ℕ
    → Header
    → ℕ
    → (ℕ → ℕ)
    → Option BufferData
    → Outcome (Option BufferData)
process_smpl_buf_pebs f pmu t r tid hdr sip gregs buffer =
    last_entry hdr.count hdr.entries >>= elim [
      | none ↦ ok buffer
      | some entry ↦ write_pebs_info f pmu t r tid entry sip gregs buffer
    ]

unfoldable pub signal_handler_pebs :
    Flags
    → Pmu
    → Tls
    → Record
    → ℕ
    → Option Header
    → (ℕ → ℕ)
    → Option BufferData
    → Outcome (Option BufferData)
signal_handler_pebs f pmu t r tid none gregs buffer = ok buffer
signal_handler_pebs f pmu t r tid (some hdr) gregs buffer =
    process_smpl_buf_pebs f pmu t r tid hdr (gregs 16) gregs buffer

-- The frames of the unwinder, put into the array from slot `i` on.
unfoldable pub get_backtrace : ℕ → ℕ → List ℕ → List ℕ → Outcome (ℕ × List ℕ)
get_backtrace n i [] buffer = ok (i, buffer)
get_backtrace n i (ip ∷ frames) buffer =
    if ltb i n then (do b ← store buffer i ip; get_backtrace n (suc i) frames b) else ok (i, buffer)

-- The part of `signal_handler` on the stack trace: `size - 2` is an `int`.
unfoldable pub with_trace : Flags → List ℕ → Record → Outcome Record
with_trace f frames r = if f.racez_stacktrace == 0 then ok r else (do
  (size, stack_trace) ← get_backtrace 10 0 frames zeros
  trace ← copy_slots (rounds ((size + 2 ^ 32 - 2) % 2 ^ 32)) (drop 2 stack_trace) r.stack_trace
  ok (record r { stack_trace = trace; trace_depth = (size + 2 ^ 32 - 2) % 2 ^ 32 }))
