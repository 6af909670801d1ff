-- ===== src/Sample/Writes.antt =====
-- What a sample leaves in the log: `write_pebs_info` and `write_ibs_info` of racez_pmuprofiler.cc.
use mathlib.Core.List.{Perm}
use mathlib.Core.List.Perm
use racez.Base.{
  rounds, ℕ, zero, suc, ◌+◌, ◌-◌, ◌<◌, ◌≡◌, ◌≢◌, refl, sym, ap, ◌∙◌, subst, Bool, true, false, not,
  ◌&&◌, List, [], ◌∷◌, Option, none, some, arith, ltb, ◌==◌, if◌then◌else◌, length, take, get_elem?,
  Outcome, ok, fault, out_of_bounds, ◌>>=◌,
}
use racez.Record.{Record, Registers}
use racez.Flags.{Flags}
use racez.Lockset.{Lockset, Tls, held, get_per_thread_lockset}
use racez.Lockset.Contents.{IsValid}
use racez.Lockset.History.{Event, run, bag_run, run-bag}
use racez.Buffer.{BufferData, buffer_size}
use racez.Buffer.Writes.{is_cell}
use racez.Buffer.Log.{is_cell-update}
use racez.Sample.{
  Pmu, Header, pebs_record, context_record, is_core, sampled_locks, write_locked, write_pebs_info,
  ibs_record, write_ibs_info, last_entry,
}
use racez.Sample.Shown.{ShowsSample, Shows-ShowsSample, trace_length}
use racez.Sample.Locks.{
  locks_held, AreValid, IsBlank, Shows, HasCells, after_write, write_locked_lem,
}

pebs_record-IsBlank :
    (tid : ℕ) (entry : Registers) (sip : ℕ) (r : Record)
    → IsBlank r
    → IsBlank (pebs_record tid entry sip r)
unfolding pebs_record
pebs_record-IsBlank tid entry sip r b = record {
  no_locks = b.no_locks;
  slots_10 = b.slots_10;
  trace_10 = b.trace_10;
  depth_fits = b.depth_fits;
}

context_record-IsBlank :
    (tid : ℕ) (gregs : ℕ → ℕ) (sip : ℕ) → IsBlank (context_record tid gregs sip)
unfolding context_record
context_record-IsBlank tid gregs sip = record {
  no_locks = refl;
  slots_10 = refl;
  trace_10 = refl;
  depth_fits = omega arith;
}

sampled_locks-AreValid : (f : Flags) (t : Tls) → AreValid t.lockset → AreValid (sampled_locks f t)
sampled_locks-AreValid f t v = choose (f.racez_lockset == 0) t.lockset v
  where
    choose :
        (off : Bool) (locks : Option Lockset)
        → AreValid locks
        → AreValid (if off then none else locks)
    choose true locks v = tt
    choose false locks v = v

-- The second record of a sample is written too.
abbrev pub is_doubled : Flags → Pmu → Bool
is_doubled f pmu = not (f.racez_signal_sample == 0) && is_core pmu

abbrev pub after_sample : Bool → BufferData → Record → Record → BufferData
after_sample twice b e e' = if twice then after_write (after_write b e) e' else after_write b e

choose_second :
    (off core : Bool) (m : Outcome (Option BufferData))
    (n : Option BufferData → Outcome (Option BufferData)) (b : BufferData) (e e' : Record)
    → m ≡ ok (some (after_write b e))
    → n (some (after_write b e)) ≡ ok (some (after_write (after_write b e) e'))
    → (m >>= λ b'. if off then ok b' else if core then n b' else ok b')
      ≡ ok (some (after_sample (not off && core) b e e'))
choose_second true core m n b e e' h k = rw h
choose_second false true m n b e e' h k = rw (h, k)
choose_second false false m n b e e' h k = rw h

HasCells-after_write :
    (b : BufferData) (e : Record) → is_cell e ≡ true → HasCells b → HasCells (after_write b e)
HasCells-after_write b e h c = is_cell-update b.cells (b.global + 1) e h c

-- With the log switched on, room for two records and a valid lock set, `write_pebs_info` writes a
-- record that shows the sampled registers and the locks of the thread (none if `racez_lockset` is
-- off), and behind it, if signal samples are on and the PMU is that of a Core, a second one that shows
-- the registers of the interrupted code and the same locks.
pub write_pebs_info-Shows :
    (f : Flags) (pmu : Pmu) (t : Tls) (r : Record) (tid : ℕ) (entry : Registers) (sip : ℕ)
    (gregs : ℕ → ℕ) (b : BufferData)
    → f.racez_write_record ≢ 0
    → AreValid t.lockset
    → IsBlank r
    → b.global + 2 < buffer_size
    → HasCells b
    → (e : Record) × (e' : Record) × (write_pebs_info f pmu t r tid entry sip gregs (some b)
        ≡ ok (some (after_sample (is_doubled f pmu) b e e')))
      × Shows (pebs_record tid entry sip r) (locks_held (sampled_locks f t)) e
      × Shows (context_record tid gregs sip) (locks_held (sampled_locks f t)) e'
unfolding write_pebs_info pebs_record context_record
write_pebs_info-Shows f pmu t r tid entry sip gregs b on v blank room cells =
    let valid = sampled_locks-AreValid f t v in
    let (e, first, shows, cell) =
      write_locked_lem f (sampled_locks f t) (pebs_record tid entry sip r) b on valid
        (pebs_record-IsBlank tid entry sip r blank) refl (omega arith) cells in
    let (e', second, shows', cell') =
      write_locked_lem f (sampled_locks f t) (context_record tid gregs sip) (after_write b e) on
        valid (context_record-IsBlank tid gregs sip) refl (omega arith)
        (HasCells-after_write b e cell cells) in
    (
      e,
      e',
      choose_second (f.racez_signal_sample == 0) (is_core pmu) _
          (write_locked f (sampled_locks f t) (context_record tid gregs sip)) b e e' first second,
      shows,
      shows',
    )

-- With the log switched on, room for a record, blank arrays and a valid lock set, `write_ibs_info` writes
-- one record, of the thread, the code address, the address and the kind of access that the counter gives,
-- and with the registers and the trace of the record that it is given; it enters the locks of the thread
-- whatever `racez_lockset` is.
pub write_ibs_info-Shows :
    (f : Flags) (t : Tls) (r : Record) (tid ip m_addr : ℕ) (is_read : Bool) (sip : ℕ)
    (b : BufferData)
    → f.racez_write_record ≢ 0
    → AreValid t.lockset
    → IsBlank r
    → b.global + 1 < buffer_size
    → HasCells b
    → (e : Record) × (write_ibs_info f t r tid ip m_addr is_read sip (some b)
        ≡ ok (some (after_write b e)))
      × ShowsSample tid m_addr ip sip
          (if is_read then 0 else 1)
          r.op.mem_op
          (locks_held t.lockset)
          (take (rounds r.trace_depth) r.stack_trace)
          e
unfolding write_ibs_info ibs_record get_per_thread_lockset
write_ibs_info-Shows f t r tid ip m_addr is_read sip b on v blank room cells =
    let blank' : IsBlank (ibs_record tid ip m_addr is_read sip r) = record {
      no_locks = blank.no_locks;
      slots_10 = blank.slots_10;
      trace_10 = blank.trace_10;
      depth_fits = blank.depth_fits;
    } in
    let (e, done, shows, _) =
      write_locked_lem f t.lockset (ibs_record tid ip m_addr is_read sip r) b on v blank' refl room
        cells in
    let frames = take (rounds r.trace_depth) r.stack_trace in
    let size = trace_length r blank in
    (
      e,
      done,
      Shows-ShowsSample (ibs_record tid ip m_addr is_read sip r) e (locks_held t.lockset) frames
          shows size (ap (λ k. take k r.stack_trace) (sym size)),
    )

-- Of the entries of the sampling buffer the loop takes the last one, and none if the count is 0; with
-- a count beyond the entries in the memory it reads out of bounds.
abbrev pub expected_entry : Header → Outcome (Option Registers)
expected_entry hdr =
    if hdr.count == 0
    then ok none
    else if ltb (length hdr.entries) hdr.count
    then fault out_of_bounds
    else ok (get_elem? hdr.entries (hdr.count - 1))

pub last_entry-expected_entry :
    (count : ℕ) (entries : List Registers)
    → last_entry count entries ≡ expected_entry (record { count = count; entries = entries })
unfolding last_entry
last_entry-expected_entry zero entries = refl
last_entry-expected_entry (suc zero) [] = ground arith
last_entry-expected_entry (suc zero) (entry ∷ entries) = ground arith
last_entry-expected_entry (suc (suc count)) [] =
    last_entry-expected_entry (suc count) [] ∙ ground arith
last_entry-expected_entry (suc (suc count)) (entry ∷ entries) =
    last_entry-expected_entry (suc count) entries ∙ ground arith

perm_shown :
    (f : Flags) (l : Lockset) (bag : List ℕ) (r e : Record)
    → f.racez_lockset ≢ 0
    → Shows r (locks_held (sampled_locks f (record { key_created = true; lockset = some l }))) e
    → Perm (held l) bag
    → Perm (take e.op.lock_count e.op.lockset) bag
perm_shown f l bag r e on s p =
    let lit : (f.racez_lockset == 0) ≡ false = ground arith in
    let locks : locks_held (if f.racez_lockset == 0 then none else some l) ≡ held l = rw lit in
    let shown : take e.op.lock_count e.op.lockset ≡ held l =
      ap (λ k. take k e.op.lockset) s.count ∙ s.locks_are ∙ locks in
    subst (λ xs. Perm xs bag) (sym shown) p

-- A thread that starts with an empty lock set, takes and releases locks, and is then sampled: the
-- record in the log holds, up to order, the locks of a bag of ten over the same history.
pub sample-bag :
    (es : List Event) (start : Lockset) (f : Flags) (pmu : Pmu) (r : Record) (tid : ℕ)
    (entry : Registers) (sip : ℕ) (gregs : ℕ → ℕ) (b : BufferData)
    → IsValid start
    → held start ≡ []
    → f.racez_lockset ≢ 0
    → f.racez_write_record ≢ 0
    → IsBlank r
    → b.global + 2 < buffer_size
    → HasCells b
    → (l : Lockset) × (e : Record) × (e' : Record) × (run es start ≡ ok l)
      × (write_pebs_info f pmu
            (record { key_created = true; lockset = some l })
            r
            tid
            entry
            sip
            gregs
            (some b)
          ≡ ok (some (after_sample (is_doubled f pmu) b e e')))
      × (e.op.pip ≡ entry.ip)
      × Perm (take e.op.lock_count e.op.lockset) (bag_run es [])
unfolding pebs_record
sample-bag es start f pmu r tid entry sip gregs b v empty locks on blank room cells =
    let (l, done, valid, same) =
      run-bag es start [] v (subst (Perm (held start)) empty (Perm.refl (held start))) in
    let (e, e', written, shows, _) =
      write_pebs_info-Shows f pmu (record { key_created = true; lockset = some l }) r tid entry sip
        gregs b on valid blank room cells in
    (
      l,
      e,
      e',
      done,
      written,
      shows.pip,
      perm_shown f l (bag_run es []) (pebs_record tid entry sip r) e locks shows same,
    )
