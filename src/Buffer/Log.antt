-- ===== src/Buffer/Log.antt =====
-- The log file of a run: `InitBuffer`, calls of `WriteRecord` one after the other, and `StopBuffer`
-- (racez_bufferdata.cc).
use racez.Base.{
  get_elem?, and_split, ℕ, zero, suc, ◌+◌, ◌<◌, ◌≤◌, ◌≡◌, ◌≢◌, refl, ap, sym, ◌∙◌, subst, Bool,
  true, false, List, [], ◌∷◌, Option, none, some, arith, ltb, ◌==◌, if◌then◌else◌, length, all,
  Outcome, ok, ◌>>=◌,
}
use racez.Record.{Record}
use racez.Buffer.{BufferData, buffer_size, update, write_record, dump, init_buffer, stop_buffer}
use racez.Buffer.Writes.{is_cell, is_writable, IsEntry, write_record_lem}

-- Calls of `WriteRecord`, one after the other.
unfoldable pub write_all : ℕ → List Record → Option BufferData → Outcome (Option BufferData)
write_all flag [] g = ok g
write_all flag (r ∷ rs) g = write_record flag r g >>= write_all flag rs

-- The entries tell of the records, numbered from `i`.
abbrev pub AreEntries : ℕ → List Record → List Record → Type 0
AreEntries i [] [] = Unit {0}
AreEntries i [] (e ∷ es) = ⊥
AreEntries i (r ∷ rs) [] = ⊥
AreEntries i (r ∷ rs) (e ∷ es) = IsEntry i r e × AreEntries (suc i) rs es

abbrev pub slice : ℕ → ℕ → (ℕ → Record) → List Record
slice zero i cells = []
slice (suc n) i cells = cells i ∷ slice n (suc i) cells

dump-slice :
    (n i : ℕ) (cells : ℕ → Record) → n + i ≤ buffer_size → dump n i cells ≡ ok (slice n i cells)
unfolding dump
dump-slice zero i cells h = refl
dump-slice (suc n) i cells h =
    let inside : ltb i buffer_size ≡ true = ground arith in
    rw (inside, dump-slice n (suc i) cells (omega arith))

pub update_below :
    (cells : ℕ → Record) (i j : ℕ) (r : Record) → j < i → update cells i r j ≡ cells j
update_below cells i j r h = let other : (i == j) ≡ false = ground arith in rw other

pub is_cell-update :
    (cells : ℕ → Record) (i : ℕ) (r : Record)
    → is_cell r ≡ true
    → ((j : ℕ) → is_cell (cells j) ≡ true)
    → (j : ℕ) → is_cell (update cells i r j) ≡ true
is_cell-update cells i r h c j = if_cell (i == j) r (cells j) h (c j)
  where
    if_cell :
        (t : Bool) (r r' : Record)
        → is_cell r ≡ true
        → is_cell r' ≡ true
        → is_cell (if t then r else r') ≡ true
    if_cell true r r' h h' = h
    if_cell false r r' h h' = h'

pub update_at : (cells : ℕ → Record) (i j : ℕ) (r : Record) → j ≡ i → update cells i r j ≡ r
update_at cells i j r h = let same : (i == j) ≡ true = ground arith in rw same

IsEntry-at : (i j : ℕ) (r a b : Record) → j ≡ i → IsEntry i r a → b ≡ a → IsEntry j r b
IsEntry-at i j r a b e c h = subst (λ k. IsEntry k r b) (sym e) (subst (IsEntry i r) (sym h) c)

write_all-AreEntries :
    (flag : ℕ) (rs : List Record) (b : BufferData) (next : ℕ)
    → next ≡ b.global + 1
    → flag ≢ 0
    → b.global + length rs < buffer_size
    → all is_writable rs ≡ true
    → ((i : ℕ) → is_cell (b.cells i) ≡ true)
    → (b' : BufferData) × (write_all flag rs (some b) ≡ ok (some b'))
      × (b'.global ≡ b.global + length rs)
      × ((i : ℕ) → i < next → b'.cells i ≡ b.cells i)
      × AreEntries next rs (slice (length rs) next b'.cells)
unfolding write_all
write_all-AreEntries flag [] b next e set fits w c = (b, refl, omega arith, λ i h. refl, tt)
write_all-AreEntries flag (r ∷ rs) b next e set fits w c =
    let (entry, done, copy, cell) =
      write_record_lem flag r b set (omega arith)
        (and_split (is_writable r) (all is_writable rs) w).0 c in
    let b₁ : BufferData = record b {
      cells = update b.cells (b.global + 1) entry;
      global = b.global + 1;
    } in
    let (b', more, total, kept, copies) =
      write_all-AreEntries flag rs b₁ (suc next) (omega arith) set (omega arith)
        (and_split (is_writable r) (all is_writable rs) w).1
        (is_cell-update b.cells (b.global + 1) entry cell c) in
    (
      b',
      rw (done, more),
      omega arith,
      λ i h. kept i (omega arith) ∙ update_below b.cells (b.global + 1) i entry (omega arith),
      (
        IsEntry-at (b.global + 1) next r entry (b'.cells next) e copy
            (kept next (omega arith) ∙ update_at b.cells (b.global + 1) next entry e),
        copies,
      ),
    )

-- A session: the buffer is set up, the records are written, the buffer is stopped.
unfoldable pub session :
    ℕ → List Record → (ℕ → Record) → ℕ → Outcome (List Record × ℕ × Option BufferData)
session flag rs memory fd = do
  started ← init_buffer true (some memory) (some fd) none
  written ← write_all flag rs (started.1)
  stop_buffer written

pub stop_buffer_of :
    (b : BufferData)
    → b.global < buffer_size
    → stop_buffer (some b) ≡ ok (slice (suc b.global) 0 b.cells, suc b.global, none)
unfolding stop_buffer
stop_buffer_of b h = rw (dump-slice (suc b.global) 0 b.cells (omega arith))

pub get_elem?-slice :
    (n i j : ℕ) (cells : ℕ → Record) → j < n → get_elem? (slice n i cells) j ≡ some (cells (i + j))
get_elem?-slice zero i j cells h = absurd (omega arith)
get_elem?-slice (suc n) i zero cells h = ap (λ k. some (cells k)) {x = i} {y = i + 0} (omega arith)
get_elem?-slice (suc n) i (suc j) cells h =
    get_elem?-slice n (suc i) j cells (omega arith)
    ∙ ap (λ k. some (cells k)) {x = suc i + j} {y = i + suc j} (omega arith)

pub length-slice : (n i : ℕ) (cells : ℕ → Record) → length (slice n i cells) ≡ n
length-slice zero i cells = refl
length-slice (suc n) i cells = ap suc (length-slice n (suc i) cells)

zero_add : (n : ℕ) → 0 + n ≡ n
zero_add n = omega arith

stop_buffer-slice :
    (b : BufferData) (n : ℕ) (memory : ℕ → Record)
    → b.global ≡ n
    → n < buffer_size
    → b.cells 0 ≡ memory 0
    → stop_buffer (some b) ≡ ok (memory 0 ∷ slice n 1 b.cells, suc n, none)
unfolding stop_buffer
stop_buffer-slice b n memory e h k = rw (e, dump-slice (suc n) 0 b.cells (omega arith), k)

-- In a session that calls `WriteRecord` with the flag set, for fewer than `BUFFERSIZE` records whose
-- counters stay within their arrays, no call faults. The log is the entry 0 of the fresh memory,
-- which nobody wrote, and behind it an entry for every record in the order of the calls, numbered from 1,
-- which tells its thread, its type and its trace, and the operation of an access or an allocation.
-- The number printed is the number of calls and one, and the global pointer is null again.
pub session-AreEntries :
    (flag : ℕ) (rs : List Record) (memory : ℕ → Record) (fd : ℕ)
    → flag ≢ 0
    → length rs < buffer_size
    → all is_writable rs ≡ true
    → ((i : ℕ) → is_cell (memory i) ≡ true)
    → (es : List Record) × (session flag rs memory fd ≡ ok (memory 0 ∷ es, suc (length rs), none))
      × AreEntries 1 rs es
unfolding session init_buffer
session-AreEntries flag rs memory fd set fits w c =
    let b : BufferData = record { cells = memory; global = 0; fd = fd } in
    let (b', written, total, kept, copies) =
      write_all-AreEntries flag rs b 1 refl set (omega arith) w c in
    (
      slice (length rs) 1 b'.cells,
      rw (
        written,
        stop_buffer-slice b' (length rs) memory (total ∙ zero_add (length rs)) fits
            (kept 0 (omega arith)),
      ),
      copies,
    )
