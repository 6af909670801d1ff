-- ===== src/Buffer/Interleave/Safety.antt =====
-- What calls of `WriteRecord` (racez_bufferdata.cc) by several threads leave in the log buffer.
use native.Mathlib.Decide.{dec_lt}
use racez.Base.{
  ℕ, ◌^◌, ◌<◌, ◌≤◌, ◌≡◌, ◌≢◌, refl, ◌∙◌, Bool, true, false, ◌∷◌, Option, some, arith, ◌==◌, to_int,
  int_ltb, Outcome, ok, ◌>>=◌, if◌then◌else◌,
}
use racez.Record.{Record}
use racez.Buffer.{BufferData, buffer_size, atomic_increment_no_barrier, write_record}
use racez.Buffer.Writes.{is_cell, is_writable, IsEntry}
use racez.Buffer.Interleave.{finish_write, Pc, set_pc, Writers, Step, Reach}
use racez.Buffer.Interleave.Invariant.{
  All-Among, Among, newest, IsWritten, Belongs, pending, ended, Inv, claim-Inv, finish_write-inside,
  set_pc_self,
}
use racez.Buffer.Interleave.Fills.{fill_lem, fill-Inv}

Reach-Inv : (b : BufferData) (s : Writers) → Reach b s → Inv s
Reach-Inv b s (Reach.first fresh c) = record {
  cells = c;
  taken = λ i n r h. absurd cc;
  writable = λ i n r h. absurd cc;
  unique = λ i j n r q h g. absurd cc;
  written = tt;
  belongs = λ n pos h. absurd (omega arith);
}
Reach-Inv b t (Reach.next {s} r (Step.claim i q idle w)) = claim-Inv s i q (Reach-Inv b s r) idle w
Reach-Inv b t (Reach.next {s} r (Step.fill i n q {b = b'} claims done)) =
    let inv = Reach-Inv b s r in
    fill-Inv s i n q b' inv claims
      (fill_lem n q s.buffer b' (inv.writable i n q claims) inv.cells done)

moved :
    (t : Bool) (o : Outcome BufferData) (b : BufferData)
    → (if t then ok (some b) else (o >>= λ c. ok (some c)))
      ≡ ((if t then ok b else o) >>= λ c. ok (some c))
moved true o b = refl
moved false o b = refl

unless : (t : Bool) (x y : Outcome (Option BufferData)) → t ≡ false → (if t then x else y) ≡ y
unless t x y h = rw h

-- `WriteRecord` without another thread between its parts.
pub write_record-parts :
    (flag : ℕ) (r : Record) (b : BufferData)
    → flag ≢ 0
    → write_record flag r (some b) ≡ (
        finish_write (atomic_increment_no_barrier b).0 r (atomic_increment_no_barrier b).1 >>= λ b'.
        ok (some b'))
unfolding write_record finish_write
write_record-parts flag r b on =
    let set : (flag == 0) ≡ false = ground arith in
    unless (flag == 0) _ _ set
    ∙ moved (int_ltb buffer_size (to_int (atomic_increment_no_barrier b).0)) _ _

-- Threads call WriteRecord at once, interleaved in any order, from a buffer that was set up. Then no two
-- of them hold the same index, a call that has ended has left at its index (if that is in the buffer) the
-- thread, the type and the trace of its record, and the operation of an access or an allocation, which no
-- other call overwrites, and each index up to the global pointer belongs to a call.
pub Reach-IsSafe :
    (b : BufferData) (s : Writers)
    → Reach b s
    → ((i j n : ℕ) (r q : Record) → s.pc i ≡ Pc.claimed n r → s.pc j ≡ Pc.claimed n q → i ≡ j)
      × ((n : ℕ) (r : Record)
          → Among (n, r) s.written
          → n < buffer_size
          → IsEntry n r (s.buffer.cells n))
      × ((n : ℕ) → 0 < n → n ≤ s.buffer.global → Belongs s.pc s.written n)
Reach-IsSafe b s reach =
    let inv = Reach-Inv b s reach in
    (inv.unique, λ n r a. (All-Among (IsWritten s.buffer s.pc) a inv.written).copied, inv.belongs)

-- When no call is under way and the buffer is not overrun, each entry of the log from 1 to the global
-- pointer has its number and the thread, the type and the trace of a record that a call wrote, and its
-- operation if it is an access or an allocation.
pub log_complete :
    (b : BufferData) (s : Writers)
    → Reach b s
    → ((i : ℕ) → s.pc i ≡ Pc.idle)
    → s.buffer.global < buffer_size
    → (n : ℕ) → 0 < n
    → n ≤ s.buffer.global
    → (r : Record) × Among (n, r) s.written × IsEntry n r (s.buffer.cells n)
log_complete b s reach quiet room n pos h =
    let inv = Reach-Inv b s reach in
    elim (inv.belongs n pos h) [
      | pending i r claims ↦ absurd (let q = quiet i in cc)
      | ended r a ↦ (r, a, (All-Among (IsWritten s.buffer s.pc) a inv.written).copied (omega arith))
    ]

finish_write-ends :
    (n : ℕ) (r : Record) (b : BufferData)
    → is_writable r ≡ true
    → is_cell (b.cells n) ≡ true
    → n ≢ buffer_size
    → n < 2 ^ 31
    → (b' : BufferData) × (finish_write n r b ≡ ok b')
unfolding finish_write
finish_write-ends n r b w c other small = elim (dec_lt n buffer_size) [
  | yes inside ↦ (let (entry, e, _, _) = finish_write-inside n r b inside w c in (_, e))
  | no outside ↦
      (let same : to_int n ≡ n = omega arith in
        let late : int_ltb buffer_size n ≡ true = ground arith in (b, rw (same, late)))
]

-- Whatever the other threads do, a call that holds an index ends with its next step, but for the index
-- at the very end of the buffer: no call waits for another.
pub call_ends :
    (b : BufferData) (s : Writers) (i n : ℕ) (r : Record)
    → Reach b s
    → s.pc i ≡ Pc.claimed n r
    → n ≢ buffer_size
    → n < 2 ^ 31
    → (t : Writers) × Step s t × (t.pc i ≡ Pc.idle) × Among (n, r) t.written
call_ends b s i n r reach claims inside small =
    let inv = Reach-Inv b s reach in
    let (b', done) =
      finish_write-ends n r s.buffer (inv.writable i n r claims) (inv.cells n) inside small in
    (
      record { buffer = b'; pc = set_pc s.pc i Pc.idle; written = (n, r) ∷ s.written },
      Step.fill i n r claims done,
      set_pc_self s.pc i Pc.idle,
      newest,
    )
