-- ===== src/Record.antt =====
-- `struct Record`, one event of a log (racez_bufferdata.h, repeated in tools/detect.cc,
-- tools/convert.cc and tools/read.cc).
-- The union `op_` is kept as its largest member, `memory_access_`, and the other members are views of
-- the same bytes, by the layout of x86-64 Linux: `memory_address_` at offset 0, `pip_` at offset 8,
-- little-endian. An address is a number below 2 ^ 64, an `int` its bit pattern.
pub mod Views
use racez.Base.{ℕ, List}

-- A value of the enumeration; `other` holds a number that names no enumerator.
pub data RecordType : Type 0 where
  memory_op sync_lock sync_unlock sync_signal sync_wait memory_alloc : RecordType
  other : ℕ → RecordType

-- The registers of a sample that the sources read and write.
pub record Registers : Type 0 where
  pub eflags : ℕ
  pub ip : ℕ
  pub eax : ℕ
  pub ebx : ℕ
  pub ecx : ℕ
  pub edx : ℕ
  pub esi : ℕ
  pub edi : ℕ
  pub ebp : ℕ
  pub esp : ℕ
  pub r8 : ℕ
  pub r9 : ℕ
  pub r10 : ℕ
  pub r11 : ℕ
  pub r12 : ℕ
  pub r13 : ℕ
  pub r14 : ℕ
  pub r15 : ℕ

pub record Op : Type 0 where
  pub memory_address : ℕ
  pub pip : ℕ
  pub sip : ℕ
  pub is_write : ℕ
  pub mem_op : Registers
  pub lock_count : ℕ
  pub lockset : List ℕ

pub record Record : Type 0 where
  pub record_no : ℕ
  pub thread_id : ℕ
  pub kind : RecordType
  pub op : Op
  pub stack_trace : List ℕ
  pub trace_depth : ℕ

-- The slots of `lockset_` and of `stack_trace_`.
abbrev pub array_size : ℕ
array_size = 10
