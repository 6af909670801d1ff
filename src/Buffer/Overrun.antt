-- ===== src/Buffer/Overrun.antt =====
-- The end of the log buffer: the last writes of a full buffer and its dump (racez_bufferdata.cc).
use racez.Base.{
  ℕ, zero, suc, ◌+◌, ◌<◌, ◌≤◌, ◌≡◌, ◌≢◌, true, false, Bool-cases, inl, inr, Option, some, arith,
  ltb, ◌==◌, if◌then◌else◌, to_int, int_ltb, Outcome, ok, fault, out_of_bounds,
}
use racez.Record.{Record}
use racez.Buffer.{
  BufferData, buffer_size, write_entry, write_record, dump, stop_buffer,
  atomic_increment_no_barrier,
}

-- What a call of `WriteRecord` on a nearly full or a full buffer does, by the global pointer. The
-- call that gets the number `BUFFERSIZE` passes the test of the code and writes behind the end.
abbrev pub last_write : BufferData → Outcome (Option BufferData)
last_write b =
    if b.global + 1 == buffer_size
    then fault out_of_bounds
    else ok (some (record b { global = b.global + 1 }))

-- With the flag set, and as long as the number of the record fits an `int`: the write with the number
-- `BUFFERSIZE` is out of bounds, and each later one changes nothing but the global pointer.
pub write_record-last_write :
    (flag : ℕ) (r : Record) (b : BufferData)
    → flag ≢ 0
    → buffer_size ≤ b.global + 1
    → b.global + 1 < 2_147_483_648
    → write_record flag r (some b) ≡ last_write b
unfolding write_record write_entry atomic_increment_no_barrier
write_record-last_write flag r b set full small =
    let on : (flag == 0) ≡ false = ground arith in
    let number : to_int (b.global + 1) ≡ b.global + 1 = ground arith in
    let outside : ltb (b.global + 1) buffer_size ≡ false = ground arith in
    elim (Bool-cases (b.global + 1 == buffer_size)) [
      | inl at_end ↦
          (let early : int_ltb buffer_size (b.global + 1) ≡ false = ground arith in
            rw (on, number, early, outside, at_end))
      | inr behind ↦
          (let late : int_ltb buffer_size (b.global + 1) ≡ true = ground arith in
            rw (on, number, late, behind))
    ]

dump_beyond :
    (n i : ℕ) (cells : ℕ → Record)
    → buffer_size < n + i
    → i ≤ buffer_size
    → dump n i cells ≡ fault out_of_bounds
unfolding dump
dump_beyond zero i cells h k = absurd (omega arith)
dump_beyond (suc n) i cells h k = elim (Bool-cases (ltb i buffer_size)) [
  | inl inside ↦ rw (inside, dump_beyond n (suc i) cells (omega arith) (ground arith))
  | inr outside ↦ rw outside
]

-- `StopBuffer` of a buffer whose global pointer has come to the end or behind it reads out of
-- bounds, however many of the records were dropped.
pub stop_buffer_beyond :
    (b : BufferData) → buffer_size ≤ b.global → stop_buffer (some b) ≡ fault out_of_bounds
unfolding stop_buffer
stop_buffer_beyond b h = rw (dump_beyond (suc b.global) 0 b.cells (omega arith) (omega arith))
