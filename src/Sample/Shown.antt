-- ===== src/Sample/Shown.antt =====
-- What an entry of the log tells of a sample (racez_pmuprofiler.cc), written out field by field.
use racez.Base.{
  ℕ, ◌≤◌, ◌≡◌, refl, ap, ◌∙◌, subst, sym, List, rounds, length, take, length-take_of_le,
}
use racez.Record.{Record, Registers, RecordType}
use racez.Sample.{context_registers}
use racez.Sample.Locks.{Shows, IsBlank}

-- The entry is of a memory access, with the locks and the frames in the slots that its counters tell.
pub record ShowsSample (tid address pip sip write : ℕ) (registers : Registers)
    (locks frames : List ℕ) (e : Record) : Type 0 where
  pub thread : e.thread_id ≡ tid
  pub kind : e.kind ≡ RecordType.memory_op
  pub address_is : e.op.memory_address ≡ address
  pub pip_is : e.op.pip ≡ pip
  pub sip_is : e.op.sip ≡ sip
  pub write_is : e.op.is_write ≡ write
  pub registers_are : e.op.mem_op ≡ registers
  pub count : e.op.lock_count ≡ length locks
  pub locks_are : take (length locks) e.op.lockset ≡ locks
  pub depth : rounds e.trace_depth ≡ length frames
  pub frames_are : take (length frames) e.stack_trace ≡ frames

pub Shows-ShowsSample :
    (r e : Record) (locks frames : List ℕ)
    → Shows r locks e
    → rounds r.trace_depth ≡ length frames
    → take (length frames) r.stack_trace ≡ frames
    → ShowsSample r.thread_id r.op.memory_address r.op.pip r.op.sip r.op.is_write r.op.mem_op locks
        frames e
Shows-ShowsSample r e locks frames s depth frames_are = record {
  thread = s.thread;
  kind = s.kind;
  address_is = s.address;
  pip_is = s.pip;
  sip_is = s.sip;
  write_is = s.write;
  registers_are = s.registers;
  count = s.count;
  locks_are = s.locks_are;
  depth = ap rounds s.depth ∙ depth;
  frames_are = subst (λ k. take k e.stack_trace ≡ take k r.stack_trace) depth s.trace ∙ frames_are;
}

-- The registers of the interrupted code, by the indices that <sys/ucontext.h> gives them.
pub record AreInterrupted (gregs : ℕ → ℕ) (m : Registers) : Type 0 where
  pub r8 : m.r8 ≡ gregs 0
  pub r9 : m.r9 ≡ gregs 1
  pub r10 : m.r10 ≡ gregs 2
  pub r11 : m.r11 ≡ gregs 3
  pub r12 : m.r12 ≡ gregs 4
  pub r13 : m.r13 ≡ gregs 5
  pub r14 : m.r14 ≡ gregs 6
  pub r15 : m.r15 ≡ gregs 7
  pub rdi : m.edi ≡ gregs 8
  pub rsi : m.esi ≡ gregs 9
  pub rbp : m.ebp ≡ gregs 10
  pub rbx : m.ebx ≡ gregs 11
  pub rdx : m.edx ≡ gregs 12
  pub rax : m.eax ≡ gregs 13
  pub rcx : m.ecx ≡ gregs 14
  pub rsp : m.esp ≡ gregs 15
  pub rip : m.ip ≡ gregs 16
  pub eflags : m.eflags ≡ gregs 17

pub context_registers-AreInterrupted :
    (gregs : ℕ → ℕ) → AreInterrupted gregs (context_registers gregs (gregs 16))
unfolding context_registers
context_registers-AreInterrupted gregs = record {
  r8 = refl;
  r9 = refl;
  r10 = refl;
  r11 = refl;
  r12 = refl;
  r13 = refl;
  r14 = refl;
  r15 = refl;
  rdi = refl;
  rsi = refl;
  rbp = refl;
  rbx = refl;
  rdx = refl;
  rax = refl;
  rcx = refl;
  rsp = refl;
  rip = refl;
  eflags = refl;
}

pub trace_length :
    (r : Record)
    → IsBlank r
    → rounds r.trace_depth ≡ length (take (rounds r.trace_depth) r.stack_trace)
trace_length r b = sym (
    length-take_of_le (rounds r.trace_depth) r.stack_trace
      (subst (λ n. rounds r.trace_depth ≤ n) (sym b.trace_10) b.depth_fits))
