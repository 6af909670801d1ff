-- ===== src/Printer.antt =====
-- The printer of a log, tools/read.cc, on the records of its file. The output is kept as what `printf`
-- is given, line by line: the texts between the numbers are those of the constructors' names.
pub mod Laws
mod Tests
use racez.Base.{
  ℕ, zero, suc, ◌+◌, ◌%◌, ◌^◌, Bool, true, false, not, List, [], ◌∷◌, ◌++◌, ◌==◌, if◌then◌else◌,
  to_int, rounds, Outcome, ok, fault, out_of_bounds, ◌>>=◌, cons_ok,
}
use racez.Record.{Record, Op, Registers, RecordType}
use racez.Record.Views.{start_address, size, is_alloc}

pub data Token : Type 0 where
  record_no : ℕ → Token
  thread_id : ℕ → Token
  memory_op : Token
  ip : ℕ → Token
  sip : ℕ → Token
  m_addr : ℕ → Token
  write : Token
  read : Token
  registers : Registers → Token
  open_set : Token
  lock : ℕ → Token
  close_set : Token
  frame : ℕ → Token
  memory_alloc : Token
  memory_free : Token
  start : ℕ → Token
  bytes : ℕ → Token
  unsupported : Token
  count : ℕ → Token
  read_error : Token

-- `for (int i = 0; i < rounds; i++) printf(..., xs[i])`
unfoldable pub print_slots : (ℕ → Token) → ℕ → List ℕ → Outcome (List Token)
print_slots token zero xs = ok []
print_slots token (suc n) [] = fault out_of_bounds
print_slots token (suc n) (x ∷ xs) = cons_ok (token x) (print_slots token n xs)

unfoldable pub print_access : Record → Outcome (List Token)
print_access r = do
  locks ← print_slots Token.lock (rounds r.op.lock_count) r.op.lockset
  frames ← print_slots Token.frame (rounds r.trace_depth) r.stack_trace
  ok (
      (Token.record_no r.record_no
        ∷ Token.thread_id r.thread_id
        ∷ Token.memory_op
        ∷ Token.ip r.op.pip
        ∷ Token.sip r.op.sip
        ∷ Token.m_addr r.op.memory_address
        ∷ (if r.op.is_write == 0 then Token.read else Token.write)
        ∷ (if r.op.mem_op.ip == 0 then [] else Token.registers r.op.mem_op ∷ []))
      ++ Token.open_set ∷ (locks ++ Token.close_set ∷ frames))

-- An allocation or a release: the size is printed as an `int`.
unfoldable pub print_allocation : Record → List Token
print_allocation r =
    Token.record_no r.record_no
    ∷ Token.thread_id r.thread_id
    ∷ (if is_alloc r.op == 0 then Token.memory_free else Token.memory_alloc)
    ∷ Token.start (start_address r.op)
    ∷ Token.bytes (to_int (size r.op))
    ∷ []

abbrev pub print_by : RecordType → Record → Outcome (List Token)
print_by RecordType.memory_op r = print_access r
print_by RecordType.memory_alloc r = ok (print_allocation r)
print_by _ r = ok (Token.unsupported ∷ [])

unfoldable pub print_record : Record → Outcome (List Token)
print_record r = print_by r.kind r

-- The loop of `main`, from the count of the records before: it ends where the file has no whole record
-- left, with `exit`. Its lines are those of the counts and of the records.
unfoldable pub print_log : ℕ → List Record → Outcome (List (List Token))
print_log counted [] = ok ((Token.count (counted + 1) ∷ []) ∷ (Token.read_error ∷ []) ∷ [])
print_log counted (r ∷ rs) = do
  line ← print_record r
  lines ← print_log (counted + 1) rs
  ok ((Token.count (counted + 1) ∷ []) ∷ line ∷ lines)
