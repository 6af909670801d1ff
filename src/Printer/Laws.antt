-- ===== src/Printer/Laws.antt =====
-- What the printer of tools/read.cc shows of a log.
use mathlib.Core.Path.{ap₂}
use racez.Base.{
  map, ℕ, zero, suc, ◌+◌, ◌≤◌, ◌≡◌, refl, ap, ◌∙◌, Bool, true, false, not, List, [], ◌∷◌, ◌++◌,
  Option, none, some, arith, ◌==◌, if◌then◌else◌, rounds, length, take, all, and_split, ok, cons_ok,
}
use racez.Record.{Record, Registers, RecordType}
use racez.Buffer.Writes.{is_writable}
use racez.Record.Views.{is_alloc}
use racez.Printer.{
  Token, print_slots, print_access, print_allocation, print_by, print_record, print_log,
}

-- The locks and the frames on a line.
pub locks_of : List Token → List ℕ
locks_of [] = []
locks_of (Token.lock a ∷ ts) = a ∷ locks_of ts
locks_of (_ ∷ ts) = locks_of ts

pub frames_of : List Token → List ℕ
frames_of [] = []
frames_of (Token.frame a ∷ ts) = a ∷ frames_of ts
frames_of (_ ∷ ts) = frames_of ts

-- An access as a line tells it.
pub record Seen : Type 0 where
  pub number : ℕ
  pub thread : ℕ
  pub code : ℕ
  pub address : ℕ
  pub is_write : Bool
  pub locks : List ℕ
  pub frames : List ℕ

abbrev is_write_token : Token → Bool
is_write_token Token.write = true
is_write_token _ = false

unfoldable pub see_line : List Token → Option Seen
unfolding locks_of frames_of
see_line
      (Token.record_no n
        ∷ Token.thread_id t
        ∷ Token.memory_op
        ∷ Token.ip i
        ∷ Token.sip s
        ∷ Token.m_addr a
        ∷ k
        ∷ ts) =
    some (record {
      number = n;
      thread = t;
      code = i;
      address = a;
      is_write = is_write_token k;
      locks = locks_of ts;
      frames = frames_of ts;
    })
see_line _ = none

abbrev add_seen : Option Seen → List Seen → List Seen
add_seen none ss = ss
add_seen (some s) ss = s ∷ ss

unfoldable pub see_log : List (List Token) → List Seen
see_log [] = []
see_log (line ∷ lines) = add_seen (see_line line) (see_log lines)

-- The accesses of a log.
abbrev pub seen_of : Record → Seen
seen_of r = record {
  number = r.record_no;
  thread = r.thread_id;
  code = r.op.pip;
  address = r.op.memory_address;
  is_write = not (r.op.is_write == 0);
  locks = take (rounds r.op.lock_count) r.op.lockset;
  frames = take (rounds r.trace_depth) r.stack_trace;
}

abbrev pub seen_if : RecordType → Record → Option Seen
seen_if RecordType.memory_op r = some (seen_of r)
seen_if _ r = none

unfoldable pub accesses : List Record → List Seen
accesses [] = []
accesses (r ∷ rs) = add_seen (seen_if r.kind r) (accesses rs)

print_slots_lem :
    (token : ℕ → Token) (n : ℕ) (xs : List ℕ)
    → n ≤ length xs
    → print_slots token n xs ≡ ok (map token (take n xs))
unfolding print_slots
print_slots_lem token zero xs h = refl
print_slots_lem token (suc n) [] h = absurd (omega arith)
print_slots_lem token (suc n) (x ∷ xs) h =
    ap (cons_ok (token x)) (print_slots_lem token n xs (omega arith))

locks_of-line :
    (xs ys : List ℕ) → locks_of (map Token.lock xs ++ Token.close_set ∷ map Token.frame ys) ≡ xs
unfolding locks_of
locks_of-line [] [] = refl
locks_of-line [] (y ∷ ys) = locks_of-line [] ys
locks_of-line (x ∷ xs) ys = ap (◌∷◌ x) (locks_of-line xs ys)

frames_of-line :
    (xs ys : List ℕ) → frames_of (map Token.lock xs ++ Token.close_set ∷ map Token.frame ys) ≡ ys
unfolding frames_of
frames_of-line [] [] = refl
frames_of-line [] (y ∷ ys) = ap (◌∷◌ y) (frames_of-line [] ys)
frames_of-line (x ∷ xs) ys = frames_of-line xs ys

-- The registers have no part in what is read of a line.
locks_of-registers :
    (b : Bool) (g : Registers) (ts : List Token)
    → locks_of ((if b then [] else Token.registers g ∷ []) ++ Token.open_set ∷ ts) ≡ locks_of ts
unfolding locks_of
locks_of-registers true g ts = refl
locks_of-registers false g ts = refl

frames_of-registers :
    (b : Bool) (g : Registers) (ts : List Token)
    → frames_of ((if b then [] else Token.registers g ∷ []) ++ Token.open_set ∷ ts) ≡ frames_of ts
unfolding frames_of
frames_of-registers true g ts = refl
frames_of-registers false g ts = refl

is_write-token : (b : Bool) → is_write_token (if b then Token.read else Token.write) ≡ not b
is_write-token true = refl
is_write-token false = refl

see_count : (n : ℕ) (ss : List Seen) → add_seen (see_line (Token.count n ∷ [])) ss ≡ ss
unfolding see_line
see_count n ss = refl

see_end : (n : ℕ) → see_log ((Token.count (n + 1) ∷ []) ∷ (Token.read_error ∷ []) ∷ []) ≡ []
unfolding see_log see_line
see_end n = refl

-- The line of an access.
abbrev access_line : Record → List Token
access_line r =
    (Token.record_no r.record_no
      ∷ Token.thread_id r.thread_id
      ∷ Token.memory_op
      ∷ Token.ip r.op.pip
      ∷ Token.sip r.op.sip
      ∷ Token.m_addr r.op.memory_address
      ∷ (if r.op.is_write == 0 then Token.read else Token.write)
      ∷ (if r.op.mem_op.ip == 0 then [] else Token.registers r.op.mem_op ∷ []))
    ++ Token.open_set
      ∷ (map Token.lock (take (rounds r.op.lock_count) r.op.lockset)
          ++ Token.close_set ∷ map Token.frame (take (rounds r.trace_depth) r.stack_trace))

print_access_lem : (r : Record) → is_writable r ≡ true → print_access r ≡ ok (access_line r)
unfolding print_access
print_access_lem r w = rw (
  print_slots_lem Token.lock (rounds r.op.lock_count) r.op.lockset (ground arith),
  print_slots_lem Token.frame (rounds r.trace_depth) r.stack_trace (ground arith),
)

see_access_line : (r : Record) → see_line (access_line r) ≡ some (seen_of r)
unfolding see_line
see_access_line r =
    let taken = take (rounds r.op.lock_count) r.op.lockset in
    let traced = take (rounds r.trace_depth) r.stack_trace in
    let no_registers = r.op.mem_op.ip == 0 in
    let rest = map Token.lock taken ++ Token.close_set ∷ map Token.frame traced in
    rw (
      locks_of-registers no_registers r.op.mem_op rest,
      frames_of-registers no_registers r.op.mem_op rest,
      locks_of-line taken traced,
      frames_of-line taken traced,
      is_write-token (r.op.is_write == 0),
    )

-- The line of a record by its type.
abbrev line_by : RecordType → Record → List Token
line_by RecordType.memory_op r = access_line r
line_by RecordType.memory_alloc r = print_allocation r
line_by _ r = Token.unsupported ∷ []

print_by_lem :
    (k : RecordType) (r : Record) → is_writable r ≡ true → print_by k r ≡ ok (line_by k r)
print_by_lem RecordType.memory_op r w = print_access_lem r w
print_by_lem RecordType.memory_alloc r w = refl
print_by_lem _ r w = refl

see_allocation :
    (n t : ℕ) (b : Bool) (ts : List Token)
    → see_line (
        Token.record_no n
        ∷ Token.thread_id t
        ∷ (if b then Token.memory_free else Token.memory_alloc)
        ∷ ts)
      ≡ none
unfolding see_line
see_allocation n t true ts = refl
see_allocation n t false ts = refl

see_line_by : (k : RecordType) (r : Record) → see_line (line_by k r) ≡ seen_if k r
unfolding see_line print_allocation
see_line_by RecordType.memory_op r = see_access_line r
see_line_by RecordType.memory_alloc r =
    see_allocation r.record_no r.thread_id (is_alloc r.op == 0) _
see_line_by _ r = refl

-- The printer shows every access of a log of records whose counters stay within their arrays, in their
-- order, each with its number, thread, code address, address, kind, locks and frames, leaves no array,
-- and ends where the file has no record left.
pub print_log-shows :
    (counted : ℕ) (rs : List Record)
    → all is_writable rs ≡ true
    → (lines : List (List Token)) × (print_log counted rs ≡ ok lines)
      × (see_log lines ≡ accesses rs)
unfolding print_log print_record see_log accesses
print_log-shows counted [] h = (_, refl, see_end counted)
print_log-shows counted (r ∷ rs) h =
    let (first, more) = and_split (is_writable r) (all is_writable rs) h in
    let (lines, done, seen) = print_log-shows (counted + 1) rs more in
    (
      (Token.count (counted + 1) ∷ []) ∷ line_by r.kind r ∷ lines,
      rw (print_by_lem r.kind r first, done),
      see_count (counted + 1) _ ∙ ap₂ add_seen (see_line_by r.kind r) seen,
    )
