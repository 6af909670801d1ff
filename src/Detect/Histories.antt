-- ===== src/Detect/Histories.antt =====
-- A run of the detector (tools/detect.cc) without memory reuse: what it knows of each address is what
-- the accesses of the log to that address say, and its warnings are true to them.
use racez.Base.{
  refl, and_split, ℕ, ◌+◌, ◌≡◌, ◌∙◌, ◌≢◌, ◌⊎◌, inl, inr, Bool, true, false, ◌&&◌, List, [], ◌∷◌,
  Option, none, some, arith, leb, ◌==◌, if◌then◌else◌, all,
}
use racez.Record.{Record, RecordType}
use racez.Report.{Warning}
use racez.Report.Laws.{showable}
use racez.Eraser.{Location}
use racez.Eraser.Due.{was_due}
use racez.Eraser.Tracks.{Tracks}
use racez.Detect.{Detector, store_location}
use racez.Detect.Entries.{Holds, MapsSorted, entered, store-Holds, store-MapsSorted}

-- The record is an access to the address.
abbrev pub accesses : ℕ → Record → Bool
accesses a r = elim r.kind [ RecordType.memory_op ↦ r.op.memory_address == a | _ ↦ false ]

-- The accesses of a log to an address; logs have their latest record first.
abbrev pub accesses_to : ℕ → List Record → List Record
accesses_to a [] = []
accesses_to a (r ∷ log) = if accesses a r then r ∷ accesses_to a log else accesses_to a log

abbrev pub warnings_for : ℕ → List Warning → ℕ
warnings_for a [] = 0
warnings_for a (w ∷ ws) = (if w.location == a then 1 else 0) + warnings_for a ws

-- An access whose flag is 0 or 1; every record's locks and trace fit their arrays.
abbrev pub well_formed : Record → Bool
well_formed r = leb r.op.is_write 1 && showable r

-- What the detector holds of an address is true to the history of accesses `h`, from records of the log;
-- `n` warnings for the address came before this history.
abbrev pub Entry : List Record → List Record → ℕ → Detector → ℕ → Type 0
Entry h log n d a =
    ((h ≡ []) × Holds d a none × (warnings_for a d.output ≡ n))
    ⊎ ((loc : Location) × Holds d a (some loc)
        × Tracks h loc
        × ((loc.status == 4) ≡ was_due h)
        × (warnings_for a d.output ≡ (if loc.status == 4 then 1 else 0) + n)
        × ((p : Record → Bool) → all p log ≡ true → all p loc.records ≡ true))

pub record IsSound (log : List Record) (d : Detector) : Type 0 where
  pub maps : MapsSorted d
  pub entry : (a : ℕ) → a ≢ 0 → Entry (accesses_to a log) log 0 d a

pub eq_refl : (a : ℕ) → (a == a) ≡ true
eq_refl a = ground arith

pub accesses_self :
    (r : Record) → r.kind ≡ RecordType.memory_op → accesses r.op.memory_address r ≡ true
accesses_self r e = rw e (eq_refl r.op.memory_address)

pub accesses_other :
    (r : Record) (b : ℕ) → (r.op.memory_address == b) ≡ false → accesses b r ≡ false
accesses_other r b e = ground arith

pub some_location :
    (h log : List Record) (n : ℕ) (d : Detector) (a : ℕ)
    → Entry h log n d a
    → (o : Option Location) × Holds d a o
some_location h log n d a (inl e) = (none, e.1)
some_location h log n d a (inr e) = (some e.0, e.1)

-- The detector after an access: the location is stored, and the warnings are those given.
abbrev pub after_access : Record → Location → ℕ → List Warning → Detector → Detector
after_access r loc count out d =
    record (store_location r.op.memory_address loc (entered r.op.memory_address d)) {
      warning_count = count;
      output = out;
    }

-- An access adds its record to the history of its address, and leaves those of the others.
pub record Advances (r : Record) (h log : List Record) (n : ℕ) (d d' : Detector) : Type 0 where
  pub maps : MapsSorted d'
  pub heap : d'.heap ≡ d.heap
  pub symbolizer : d'.symbolizer ≡ d.symbolizer
  pub own : Entry (r ∷ h) (r ∷ log) n d' r.op.memory_address
  pub others :
      (b : ℕ) (g : List Record) (m : ℕ)
      → (r.op.memory_address == b) ≡ false
      → Entry g log m d b
      → Entry g (r ∷ log) m d' b

-- The histories are from the log however it grows.
pub Entry-skip :
    (r : Record) (h log : List Record) (n : ℕ) (d : Detector) (a : ℕ)
    → Entry h log n d a
    → Entry h (r ∷ log) n d a
Entry-skip r h log n d a (inl e) = inl e
Entry-skip r h log n d a (inr (l, e, t, due, w, from)) =
    inr (l, e, t, due, w, λ p ps. from p (and_split (p r) (all p log) ps).1)

module _ (r : Record) (h log : List Record) (n : ℕ) (d : Detector) (v : MapsSorted d)
    (loc : Location) (count : ℕ) (out : List Warning) where
  Holds-after :
      (b : ℕ) (o : Option Location)
      → Holds d b o
      → Holds (after_access r loc count out d) b (if r.op.memory_address == b then some loc else o)
  Holds-after b o e =
      let e' = store-Holds r.op.memory_address d v loc b o e in
      record { sets = e'.sets; states = e'.states; locks = e'.locks }

  Entry-other :
      (b : ℕ) (g : List Record) (m : ℕ)
      → (r.op.memory_address == b) ≡ false
      → warnings_for b out ≡ warnings_for b d.output
      → Entry g log m d b
      → Entry g (r ∷ log) m (after_access r loc count out d) b
  Entry-other b g m e w (inl (none_yet, held, no_warning)) =
      let e' = Holds-after b none held in
      let e'' : Holds (after_access r loc count out d) b none = rw e at e' in
      inl (none_yet, e'', w ∙ no_warning)
  Entry-other b g m e w (inr (l, held, t, due, own, from)) =
      let e' = Holds-after b (some l) held in
      let e'' : Holds (after_access r loc count out d) b (some l) = rw e at e' in
      inr (l, e'', t, due, w ∙ own, λ p ps. from p (and_split (p r) (all p log) ps).1)

  pub after_access-Advances :
      (o : Option Location)
      → Holds d r.op.memory_address o
      → Tracks (r ∷ h) loc
      → (loc.status == 4) ≡ was_due (r ∷ h)
      → warnings_for r.op.memory_address out ≡ (if loc.status == 4 then 1 else 0) + n
      → ((p : Record → Bool) → all p (r ∷ log) ≡ true → all p loc.records ≡ true)
      → ((b : ℕ)
          → (r.op.memory_address == b) ≡ false
          → warnings_for b out ≡ warnings_for b d.output)
      → Advances r h log n d (after_access r loc count out d)
  unfolding store_location
  after_access-Advances o held t due own from others =
      let a = r.op.memory_address in
      let m = store-MapsSorted a d v loc in
      let e = Holds-after a o held in
      let e' : Holds (after_access r loc count out d) a (some loc) = rw (eq_refl a) at e in
      record {
        maps = record { sets = m.sets; states = m.states; locks = m.locks };
        heap = refl;
        symbolizer = refl;
        own = inr (loc, e', t, due, own, from);
        others = λ b g k ne. Entry-other b g k ne (others b ne);
      }
