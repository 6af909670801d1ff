-- ===== src/Detect/Warnings.antt =====
-- The warnings of tools/detect.cc against the log that it reads, without memory reuse.
use racez.Base.{
  suc, ◌+◌, ℕ, ◌<◌, ◌≡◌, ◌≢◌, refl, sym, ap, ◌∙◌, inl, inr, Bool, true, false, ◌&&◌, ◌||◌, not,
  List, [], ◌∷◌, arith, ◌==◌, if◌then◌else◌, all, contains, ok,
}
use racez.Record.{Record}
use racez.RecordSet.Threads.{fresh}
use racez.Eraser.{Location, is_empty, core_detection}
use racez.Eraser.Spec.{occurs, thread_count, has_write, held_by_all, classify, IsAccess}
use racez.Eraser.Due.{was_due}
use racez.Eraser.Tracks.{Tracks, warn_due, core_step}
use racez.Eraser.Switch.{may_warn}
use racez.Detect.Races.{IsRacy, was_due-IsRacy}
use racez.Report.Filename.{Symbolizer}
use racez.Detect.Safe.{Safely, Safely-result}
use racez.Detect.{Detector, start, detect_raw}
use racez.Detect.Histories.{accesses_to, warnings_for, well_formed, Entry, IsSound}
use racez.Detect.Run.{distinct, extend, run-IsSound, start-IsSound}

contains_none : (xs : List ℕ) → is_empty xs ≡ true → (a : ℕ) → contains a xs ≡ false
contains_none [] e a = refl
contains_none (x ∷ xs) e a = cc

none_common :
    (h : List Record) (xs : List ℕ)
    → ((l : ℕ) → contains l xs ≡ held_by_all l h)
    → ((l : ℕ) → held_by_all l h ≡ false)
    → is_empty xs ≡ true
none_common h [] c n = refl
none_common h (x ∷ xs) c n =
    let first : contains x (x ∷ xs) ≡ true = ground arith in ground (arith, c x, n x, first)

open_count : (w n s : ℕ) → w ≡ (if s == 4 then 1 else 0) + n → s ≡ 4 → w ≡ suc n
open_count w n s e f = ground arith

both_true : (b c : Bool) → b ≡ true → c ≡ true → (b && c) ≡ false → ⊥
both_true b c p q r = ground arith

several_none : (h : List Record) → h ≡ [] → 1 < thread_count h → ⊥
several_none h e pos = let none_left : 1 < thread_count [] = rw e at pos in omega arith

counted :
    (w n s : ℕ) (b : Bool)
    → w ≡ (if s == 4 then 1 else 0) + n
    → (s == 4) ≡ b
    → w ≡ (if b then 1 else 0) + n
counted w n s b e f = ground arith

none_due : (h : List Record) (w n : ℕ) → h ≡ [] → w ≡ n → w ≡ (if was_due h then 1 else 0) + n
none_due h w n e same = let no : was_due h ≡ false = ap was_due e in ground (arith, no, same)

-- The warnings for an address: those from before the history, and one if it was due.
pub due_count :
    (h log : List Record) (n : ℕ) (d : Detector) (a : ℕ)
    → Entry h log n d a
    → warnings_for a d.output ≡ (if was_due h then 1 else 0) + n
due_count h log n d a (inl (e, _, w)) = none_due h (warnings_for a d.output) n e w
due_count h log n d a (inr (loc, _, _, due, w, _)) =
    counted (warnings_for a d.output) n loc.status (was_due h) w due

-- A race at whose last access a warning is due has had it.
pub due_warned :
    (h log : List Record) (n : ℕ) (d : Detector) (a : ℕ)
    → Entry h log n d a
    → IsRacy h
    → warn_due h ≡ true
    → warnings_for a d.output ≡ suc n
due_warned h log n d a (inl (e, _, _)) r due = absurd (several_none h e r.several)
due_warned h log n d a (inr (loc, _, t, _, w, _)) r due = elim t.phase [
  | inl live ↦ absurd (
      both_true (warn_due h) (is_empty loc.locks) due
        (none_common h loc.locks t.locks.common r.unlocked) live.quiet)
  | inr rep ↦ open_count (warnings_for a d.output) n loc.status w rep.state
]

one_due : (w : ℕ) (b : Bool) → w ≡ (if b then 1 else 0) → 0 < w → (b ≡ true) × (w ≡ 1)
one_due w b e pos = ground arith

add_none : (n : ℕ) → n + 0 ≡ n
add_none n = omega arith

-- On every log of distinct, well-formed records the detector runs through, or it stops in a call of
-- `get_filename`: nothing else fails an assertion, reads a NULL pointer or leaves an array. After the run
-- what it holds of each address is true to the accesses of the log to it.
pub detect_raw-IsSound :
    (w : Symbolizer) (rs : List Record)
    → all well_formed (extend rs []) ≡ true
    → distinct (extend rs []) ≡ true
    → Safely (IsSound (extend rs [])) (start w) (detect_raw false rs (start w))
detect_raw-IsSound w rs wf ds = run-IsSound rs [] (start w) (start-IsSound w) wf ds

module _ (w : Symbolizer) (rs : List Record) (d : Detector) (a : ℕ)
    (wf : all well_formed (extend rs []) ≡ true) (ds : distinct (extend rs []) ≡ true)
    (done : detect_raw false rs (start w) ≡ ok d) (nz : a ≢ 0) where
  Entry-of : Entry (accesses_to a (extend rs [])) (extend rs []) 0 d a
  Entry-of =
      (Safely-result (IsSound (extend rs [])) (start w) (detect_raw false rs (start w)) d
          (detect_raw-IsSound w rs wf ds) done).entry
        a nz

  -- After a run over such a log an address that is not 0 has exactly one warning if at some access to it
  -- in the log one was due, and none otherwise: the location was shared and written then, with no
  -- lock held at all accesses so far, and the access had made it shared and written or was by a thread
  -- with an access before.
  pub warnings-exact :
      warnings_for a d.output ≡ (if was_due (accesses_to a (extend rs [])) then 1 else 0)
  warnings-exact =
      due_count (accesses_to a (extend rs [])) (extend rs []) 0 d a Entry-of ∙ add_none _

  -- After a run over such a log an address that is not 0 has at most one warning, and one only if the
  -- accesses of the log to it are a race: by two threads or more, with a write among them, and with no
  -- lock held at all of them.
  pub warning-IsRacy :
      0 < warnings_for a d.output
      → IsRacy (accesses_to a (extend rs [])) × (warnings_for a d.output ≡ 1)
  warning-IsRacy pos =
      let h = accesses_to a (extend rs []) in
      let (due, one) = one_due (warnings_for a d.output) (was_due h) warnings-exact pos in
      (was_due-IsRacy h due, one)

  -- A race is reported after the run, with exactly one warning, if the last access to the address is by a
  -- thread that had one before, or is the one that made the location shared and written.
  pub race-warned :
      IsRacy (accesses_to a (extend rs []))
      → warn_due (accesses_to a (extend rs [])) ≡ true
      → warnings_for a d.output ≡ 1
  race-warned r due = due_warned (accesses_to a (extend rs [])) (extend rs []) 0 d a Entry-of r due

unnoticed :
    (r : Record) (h : List Record) (s : ℕ) (b : Bool)
    → s ≡ 3
    → classify h ≡ 3
    → occurs r.thread_id h ≡ false
    → (not (s == 4) && (may_warn r h && b)) ≡ false
unnoticed r h s b st shared new = rw (shared, new) (ground arith)

still_open : (w : Bool) (s : ℕ) → w ≡ false → s ≡ 3 → (w || s == 4) ≡ false
still_open w s e st = ground arith

three_four : (s : ℕ) → s ≡ 3 → s ≡ 4 → ⊥
three_four s e f = omega arith

grown :
    (r : Record) (h : List Record)
    → classify h ≡ 3
    → 0 < thread_count h
    → (1 < thread_count (r ∷ h)) × (has_write (r ∷ h) ≡ true)
grown r h e pos = ground arith

class_3 :
    (r : Record) (h : List Record) → classify h ≡ 3 → 0 < thread_count h → classify (r ∷ h) ≡ 3
class_3 r h e pos = ground arith

four_test : (s : ℕ) → s ≡ 4 → (s == 4) ≡ false → ⊥
four_test s e ne = ground arith

stays_3 :
    (r : Record) (h : List Record) (loc : Location)
    → Tracks (r ∷ h) loc
    → classify h ≡ 3
    → 0 < thread_count h
    → (loc.status == 4) ≡ false
    → loc.status ≡ 3
stays_3 r h loc t e pos ne = elim t.phase [
  | inl live ↦ live.state ∙ class_3 r h e pos
  | inr rep ↦ absurd (four_test loc.status rep.state ne)
]

-- What the state machine misses: an access of a thread that is new to a location in state 3, at which no
-- lock is left that all accesses held, brings no warning and leaves the state, though it completes a race.
pub new_thread_unnoticed :
    (r : Record) (h : List Record) (loc : Location)
    → Tracks h loc
    → IsAccess r
    → fresh r loc.records ≡ true
    → loc.status ≡ 3
    → occurs r.thread_id h ≡ false
    → ((l : ℕ) → held_by_all l (r ∷ h) ≡ false)
    → (loc' : Location) × (core_detection r loc ≡ ok (loc', false))
      × (loc'.status ≡ 3)
      × IsRacy (r ∷ h)
new_thread_unnoticed r h loc t acc f st new none_left = elim t.phase [
  | inl live ↦
      let (loc', e, t', _, becomes) = core_step r h loc t acc f in
      let shared : classify h ≡ 3 = sym live.state ∙ st in
      let silent = unnoticed r h loc.status (is_empty loc'.locks) st shared new in
      let pos : 0 < thread_count h = rw live.threads.size at live.some_record in
      let race : (1 < thread_count (r ∷ h)) × (has_write (r ∷ h) ≡ true) = grown r h shared pos in
      (
        loc',
        e ∙ ap (λ b. ok (loc', b)) silent,
        stays_3 r h loc' t' shared pos (becomes ∙ still_open _ _ silent st),
        record { several = race.0; written = race.1; unlocked = none_left },
      )
  | inr rep ↦ absurd (three_four loc.status st rep.state)
]
