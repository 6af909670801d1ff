-- ===== src/Detect/Blocks/Histories.antt =====
-- What the detector of tools/detect.cc holds of an address with the memory reuse filter.
use racez.Base.{
  ◌+◌, ℕ, subst, ◌≡◌, refl, sym, ◌∙◌, ◌≢◌, inl, inr, true, false, List, [], ◌∷◌, Option, none, some,
  arith, if◌then◌else◌,
}
use racez.Record.{Record}
use racez.Eraser.{Location}
use racez.Eraser.Due.{was_due}
use racez.Detect.{Detector}
use racez.Detect.Entries.{Holds, MapsSorted}
use racez.Detect.Histories.{accesses, warnings_for, Entry, Entry-skip, some_location}
use racez.Detect.Warnings.{due_count}
use racez.Detect.Blocks.{is_release, releases, since, ended_due}
use racez.Detect.Blocks.Heap.{IsHeap}

-- What the detector holds of an address is true to the accesses since the last release of a block with
-- it, and the warnings from before are those due to the histories that ended.
abbrev pub EntrySince : List Record → Detector → ℕ → Type 0
EntrySince log d a = Entry (since a log) log (ended_due a log) d a

pub record IsReuseSound (log : List Record) (d : Detector) : Type 0 where
  pub maps : MapsSorted d
  pub heap : IsHeap log d.heap
  pub entry : (a : ℕ) → a ≢ 0 → EntrySince log d a

Entry-moved :
    (h log : List Record) (n : ℕ) (d d' : Detector) (a : ℕ)
    → ((o : Option Location) → Holds d a o → Holds d' a o)
    → d'.output ≡ d.output
    → Entry h log n d a
    → Entry h log n d' a
Entry-moved h log n d d' a move same (inl (e, held, w)) = inl (e, move none held, rw same w)
Entry-moved h log n d d' a move same (inr (loc, held, t, due, w, from)) =
    inr (loc, move (some loc) held, t, due, rw same w, from)

pub some_entry :
    (log : List Record) (d : Detector) (a : ℕ)
    → EntrySince log d a
    → (o : Option Location) × Holds d a o
some_entry log d a e = some_location (since a log) log (ended_due a log) d a e

module _ (r : Record) (log : List Record) where
  same_due : (a : ℕ) → releases a r log ≡ false → ended_due a (r ∷ log) ≡ ended_due a log
  same_due a e = ground (arith, e)

  -- Without a release the histories that ended are the same.
  pub EntrySince-same :
      (d : Detector) (a : ℕ) (h : List Record)
      → releases a r log ≡ false
      → since a (r ∷ log) ≡ h
      → Entry h (r ∷ log) (ended_due a log) d a
      → EntrySince (r ∷ log) d a
  EntrySince-same d a h rel same e =
      subst (λ n. Entry (since a (r ∷ log)) (r ∷ log) n d a) (sym (same_due a rel))
        (subst (λ h. Entry h (r ∷ log) (ended_due a log) d a) (sym same) e)

  -- The record adds nothing to the history of the address.
  pub EntrySince-skip :
      (d d' : Detector) (a : ℕ)
      → releases a r log ≡ false
      → accesses a r ≡ false
      → ((o : Option Location) → Holds d a o → Holds d' a o)
      → d'.output ≡ d.output
      → EntrySince log d a
      → EntrySince (r ∷ log) d' a
  EntrySince-skip d d' a rel acc move quiet e =
      EntrySince-same d' a (since a log) rel (rw (rel, acc) refl) (
        Entry-moved (since a log) (r ∷ log) (ended_due a log) d d' a move quiet
          (Entry-skip r (since a log) log (ended_due a log) d a e))

  ended_due_more :
      (a w : ℕ)
      → releases a r log ≡ true
      → w ≡ (if was_due (since a log) then 1 else 0) + ended_due a log
      → w ≡ ended_due a (r ∷ log)
  ended_due_more a w rel e = rw rel e

  -- The release of a block with the address ends the history.
  pub EntrySince-ended :
      (d d' : Detector) (a : ℕ)
      → releases a r log ≡ true
      → Holds d' a none
      → d'.output ≡ d.output
      → EntrySince log d a
      → EntrySince (r ∷ log) d' a
  EntrySince-ended d d' a rel held quiet e =
      let empty : since a (r ∷ log) ≡ [] = rw rel refl in
      let count : warnings_for a d'.output ≡ warnings_for a d.output = rw quiet refl in
      let due = due_count (since a log) log (ended_due a log) d a e in
      inl (empty, held, ended_due_more a (warnings_for a d'.output) rel (count ∙ due))

  pub since_accessed :
      (a : ℕ) → releases a r log ≡ false → accesses a r ≡ true → since a (r ∷ log) ≡ r ∷ since a log
  since_accessed a e e' = rw (e, e') refl

  pub no_release : (a : ℕ) → is_release r ≡ false → releases a r log ≡ false
  no_release a e = rw e refl
