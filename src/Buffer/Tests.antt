-- ===== src/Buffer/Tests.antt =====
-- Instances of the theorems on the log buffer (racez_bufferdata.cc).
use racez.Base.{ℕ, ◌≡◌, refl, List, [], ◌∷◌, none, some, arith, ok, fault, out_of_bounds}
use racez.Record.{Record, Registers, RecordType}
use racez.Buffer.{BufferData, write_record, stop_buffer}
use racez.Buffer.Log.{session, session-AreEntries, AreEntries}
use racez.Buffer.Overrun.{last_write, write_record-last_write, stop_buffer_beyond}

abbrev ten : List ℕ
ten = 1 ∷ 2 ∷ 3 ∷ 4 ∷ 5 ∷ 6 ∷ 7 ∷ 8 ∷ 9 ∷ 10 ∷ []

abbrev no_registers : Registers
no_registers = record {
  eflags = 0;
  ip = 0;
  eax = 0;
  ebx = 0;
  ecx = 0;
  edx = 0;
  esi = 0;
  edi = 0;
  ebp = 0;
  esp = 0;
  r8 = 0;
  r9 = 0;
  r10 = 0;
  r11 = 0;
  r12 = 0;
  r13 = 0;
  r14 = 0;
  r15 = 0;
}

abbrev cell : ℕ → RecordType → Record
cell count kind = record {
  record_no = 0;
  thread_id = 7;
  kind = kind;
  op = record {
    memory_address = 64;
    pip = 16;
    sip = 0;
    is_write = 1;
    mem_op = no_registers;
    lock_count = count;
    lockset = ten;
  };
  stack_trace = ten;
  trace_depth = count;
}

abbrev records : List Record
records = cell 3 RecordType.memory_op ∷ cell 0 RecordType.memory_alloc ∷ []

abbrev memory : ℕ → Record
memory i = cell 0 RecordType.sync_lock

abbrev full : BufferData
full = record { cells = memory; global = 4_999_999; fd = 3 }

session-AreEntries_example :
    (es : List Record) × (session 1 records memory 3 ≡ ok (memory 0 ∷ es, 3, none))
    × AreEntries 1 records es
session-AreEntries_example =
    session-AreEntries 1 records memory 3 (omega arith) (omega arith) refl (λ i. refl)

write_record-last_write_example :
    write_record 1 (cell 0 RecordType.memory_op) (some full) ≡ last_write full
write_record-last_write_example =
    write_record-last_write 1 (cell 0 RecordType.memory_op) full (omega arith) (omega arith)
      (omega arith)

stop_buffer_beyond_example :
    stop_buffer (some (record { cells = memory; global = 5_000_001; fd = 3 })) ≡ fault out_of_bounds
stop_buffer_beyond_example =
    stop_buffer_beyond (record { cells = memory; global = 5_000_001; fd = 3 }) (omega arith)
