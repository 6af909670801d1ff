-- ===== src/Detect/Access.antt =====
-- One access in `offline_detection` (tools/detect.cc): the first one of an address, and a later one.
use racez.Base.{
  subst, inl, inr, and_split, ℕ, ◌+◌, ◌≡◌, refl, sym, ap, ◌∙◌, ◌≢◌, Bool, true, false, not, ◌&&◌,
  ◌||◌, List, [], ◌∷◌, none, some, arith, ◌==◌, if◌then◌else◌, all, ok,
}
use racez.Record.{Record}
use racez.RecordSet.Threads.{differ, fresh}
use racez.Report.{Warning}
use racez.Report.{report_error}
use racez.Report.Laws.{showable, report_error_lem, OrUnnamed-bind}
use racez.Detect.Safe.{Safely, Safely-ok, Safely-map}
use racez.Eraser.{Location}
use racez.Eraser.Spec.{IsAccess}
use racez.Eraser.Switch.{may_warn}
use racez.Eraser.Due.{no_common_lock, was_due, was_due_first, is_empty-no_common_lock}
use racez.Eraser.Tracks.{Tracks, warns, core_step, first_access-Tracks}
use racez.Detect.{Detector, store_location, report_if, access_entries, memory_access}
use racez.Detect.Entries.{
  Holds, MapsSorted, entered, location_at-Holds, flags_new, flag_old, entered-Holds,
}
use racez.Detect.Histories.{
  warnings_for, well_formed, Entry, Advances, after_access, after_access-Advances,
}

pub well_formed-IsAccess : (r : Record) → well_formed r ≡ true → IsAccess r
well_formed-IsAccess r e = record { flag = ground arith; fits = ground arith }

first_of_all :
    (p : Record → Bool) (r : Record) (log : List Record)
    → all p (r ∷ log) ≡ true
    → all p (r ∷ []) ≡ true
first_of_all p r log h = ground arith

count_open : (w n : ℕ) (b : Bool) → b ≡ false → w ≡ n → w ≡ (if b then 1 else 0) + n
count_open w n b e h = ground arith

due_step :
    (s s' m e k w : Bool) → s' ≡ (not s && (m && e) || s) → e ≡ k → s ≡ w → s' ≡ (m && k || w)
due_step s s' m e k w step same old = ground arith

access_new :
    (r : Record) (log : List Record) (n : ℕ) (d : Detector)
    → MapsSorted d
    → r.op.memory_address ≢ 0
    → well_formed r ≡ true
    → Holds d r.op.memory_address none
    → warnings_for r.op.memory_address d.output ≡ n
    → (d' : Detector) × (memory_access r d ≡ ok d') × Advances r [] log n d d'
unfolding memory_access access_entries store_location
access_new r log n d v nz wf none_yet w =
    let (f, f', f'') = flags_new r.op.memory_address d v none_yet in
    let acc = well_formed-IsAccess r wf in
    let (loc, e, t, single, unreported) = first_access-Tracks r acc in
    let nonzero : (r.op.memory_address == 0) ≡ false = ground arith in
    (
      after_access r loc d.warning_count d.output d,
      rw (nonzero, f, f', f'', e),
      after_access-Advances r [] log n d v loc d.warning_count d.output none none_yet t
          (unreported ∙ sym (was_due_first r)) (count_open _ n _ unreported w)
          (λ p ps. rw single (first_of_all p r log ps)) (λ b ne. refl),
    )

-- The warnings after `report_if`.
abbrev Reports : Bool → ℕ → Detector → Detector → Type 0
Reports rep a d d' =
    (count : ℕ) × (out : List Warning) × (d' ≡ record d { warning_count = count; output = out })
    × ((b : ℕ) → warnings_for b out ≡ (if rep && a == b then 1 else 0) + warnings_for b d.output)

warned_more :
    (a b c : ℕ) (n : ℕ)
    → c ≡ a
    → (if c == b then 1 else 0) + n ≡ (if true && a == b then 1 else 0) + n
warned_more a b c n e = ground arith

report_cases :
    (rep : Bool) (a : ℕ) (loc : Location) (d : Detector)
    → all showable loc.records ≡ true
    → Safely (Reports rep a d) d (report_if rep a loc d)
unfolding report_if
report_cases false a loc d h = (refl, (d.warning_count, d.output, refl, λ b. ground arith))
report_cases true a loc d h =
    OrUnnamed-bind d.symbolizer _ _ (report_error d.symbolizer loc.records a d.warning_count) _
      (report_error_lem d.symbolizer loc.records a d.warning_count h)
      (λ p v. (
        refl,
        (
          p.0,
          p.1 ∷ d.output,
          refl,
          λ b. warned_more a b p.1.location (warnings_for b d.output) v.location,
        ),
      ))

all-showable : (log : List Record) → all well_formed log ≡ true → all showable log ≡ true
all-showable [] h = refl
all-showable (r ∷ log) h = ground (arith, all-showable log)

well_formed_split :
    (r : Record) (log : List Record)
    → all well_formed (r ∷ log) ≡ true
    → IsAccess r × (showable r ≡ true) × (all showable log ≡ true)
well_formed_split r log h =
    let (first, rest) = and_split (well_formed r) (all well_formed log) h in
    (well_formed-IsAccess r first, (and_split _ (showable r) first).1, all-showable log rest)

count_self :
    (a n m k : ℕ) (w b c : Bool)
    → n ≡ (if w && a == a then 1 else 0) + m
    → m ≡ (if b then 1 else 0) + k
    → w ≡ (not b && c)
    → n ≡ (if w || b then 1 else 0) + k
count_self a n m k w b c e f g = ground arith

count_other :
    (a b n m : ℕ) (w : Bool) → n ≡ (if w && a == b then 1 else 0) + m → (a == b) ≡ false → n ≡ m
count_other a b n m w e ne = ground arith

nonzero_test : (a : ℕ) → a ≢ 0 → (a == 0) ≡ false
nonzero_test a h = ground arith

access_old :
    (r : Record) (h log : List Record) (n : ℕ) (d : Detector) (loc : Location)
    → MapsSorted d
    → r.op.memory_address ≢ 0
    → all well_formed (r ∷ log) ≡ true
    → fresh r log ≡ true
    → Holds d r.op.memory_address (some loc)
    → Tracks h loc
    → (loc.status == 4) ≡ was_due h
    → warnings_for r.op.memory_address d.output ≡ (if loc.status == 4 then 1 else 0) + n
    → ((p : Record → Bool) → all p log ≡ true → all p loc.records ≡ true)
    → Safely (Advances r h log n d) d (memory_access r d)
unfolding memory_access access_entries store_location
access_old r h log n d loc v nz wf new held t due warned from =
    let a = r.op.memory_address in
    let (acc, shown, all_shown) = well_formed_split r log wf in
    let old = flag_old a d v loc held in
    let found = location_at-Holds (entered a d) a loc (entered-Holds a d v loc held) in
    let (loc', e, t', keeps, becomes) = core_step r h loc t acc (from (differ r) new) in
    let shows = keeps showable (from showable all_shown) shown in
    let stored = store_location a loc' (entered a d) in
    let reported = report_cases (warns r h loc loc') a loc' stored shows in
    rw (nonzero_test a nz, old, found, e)
      (Safely-map _ d (Advances r h log n d) (report_if (warns r h loc loc') a loc' stored) reported
        (λ d' (count, out, e', counts). subst (Advances r h log n d) (sym e') (
          after_access-Advances r h log n d v loc' count out (some loc) held t'
            (due_step (loc.status == 4) _ (may_warn r h) _ (no_common_lock (r ∷ h)) (was_due h)
              becomes (is_empty-no_common_lock r h loc'.locks t'.locks.common) due)
            (count_self a _ _ n _ (loc.status == 4) _ (counts a) warned refl
              ∙ ap (λ (b : Bool). (if b then 1 else 0) + n) (sym becomes))
            (λ p ps.
              let (first, rest) = and_split (p r) (all p log) ps in keeps p (from p rest) first)
            (λ b ne. count_other a b _ _ _ (counts b) ne))))

pub memory_access-Advances :
    (r : Record) (h log : List Record) (n : ℕ) (d : Detector)
    → MapsSorted d
    → r.op.memory_address ≢ 0
    → all well_formed (r ∷ log) ≡ true
    → fresh r log ≡ true
    → Entry h log n d r.op.memory_address
    → Safely (Advances r h log n d) d (memory_access r d)
memory_access-Advances r h log n d v nz wf new (inl (none_yet, held, w)) =
    let (d', e, s) =
      access_new r log n d v nz (and_split (well_formed r) (all well_formed log) wf).0 held w in
    Safely-ok _ d (memory_access r d) d' e (s.symbolizer)
      (subst (λ h. Advances r h log n d d') (sym none_yet) s)
memory_access-Advances r h log n d v nz wf new (inr (loc, held, t, due, w, from)) =
    access_old r h log n d loc v nz wf new held t due w from
