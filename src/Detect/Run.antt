-- ===== src/Detect/Run.antt =====
-- The loop of `main` (tools/detect.cc) over a raw file, without memory reuse.
use native.Mathlib.Decide.{ℕ_discrete}
use racez.Base.{
  Bool-cases, and_split, ℕ, subst, ◌≡◌, refl, sym, ◌≢◌, ◌⊎◌, inl, inr, Bool, true, false, ◌&&◌,
  List, [], ◌∷◌, arith, ◌==◌, all, ok,
}
use racez.Record.{Record, RecordType}
use racez.RecordSet.Threads.{fresh}
use racez.AddressMap.{find}
use racez.Detect.{Detector, start, memory_access, offline_detection, detect_raw}
use racez.Detect.Histories.{
  accesses, accesses_to, accesses_self, accesses_other, well_formed, Entry, Entry-skip, Advances,
  IsSound,
}
use racez.Report.Filename.{Symbolizer}
use racez.Detect.Safe.{Safely, Safely-ok, Safely-map, Safely-bind}
use racez.Detect.Access.{memory_access-Advances}

abbrev pub is_memory_op : RecordType → Bool
is_memory_op k = elim k [ RecordType.memory_op ↦ true | _ ↦ false ]

pub kind_cases : (k : RecordType) → (k ≡ RecordType.memory_op) ⊎ (is_memory_op k ≡ false)
kind_cases k = ground arith

pub skips :
    (r : Record) (d : Detector) → is_memory_op r.kind ≡ false → offline_detection false r d ≡ ok d
unfolding offline_detection
skips r d e = ground arith

pub takes :
    (r : Record) (d : Detector)
    → r.kind ≡ RecordType.memory_op
    → offline_detection false r d ≡ memory_access r d
unfolding offline_detection
takes r d e = rw e

pub skips_null : (r : Record) (d : Detector) → r.op.memory_address ≡ 0 → memory_access r d ≡ ok d
unfolding memory_access
skips_null r d e = let zero_test : (r.op.memory_address == 0) ≡ true = ground arith in rw zero_test

not_accesses : (r : Record) (a : ℕ) → is_memory_op r.kind ≡ false → accesses a r ≡ false
not_accesses r a e = ground arith

pub null_accesses : (r : Record) (a : ℕ) → r.op.memory_address ≡ 0 → a ≢ 0 → accesses a r ≡ false
null_accesses r a e nz = ground arith

IsSound-skip :
    (r : Record) (log : List Record) (d : Detector)
    → IsSound log d
    → ((a : ℕ) → a ≢ 0 → accesses a r ≡ false)
    → IsSound (r ∷ log) d
IsSound-skip r log d v e = record {
  maps = v.maps;
  entry = λ a nz.
      let same : accesses_to a (r ∷ log) ≡ accesses_to a log = rw (e a nz) in
      subst (λ h. Entry h (r ∷ log) 0 d a) (sym same)
        (Entry-skip r (accesses_to a log) log 0 d a (v.entry a nz));
}

IsSound-Advances :
    (r : Record) (log : List Record) (d d' : Detector)
    → IsSound log d
    → r.kind ≡ RecordType.memory_op
    → Advances r (accesses_to r.op.memory_address log) log 0 d d'
    → IsSound (r ∷ log) d'
IsSound-Advances r log d d' v kind s = record {
  maps = s.maps;
  entry = λ b nb. elim (Bool-cases (r.op.memory_address == b)) [
    | inl e ↦
        let at : r.op.memory_address ≡ b = ground arith in
        let same : accesses_to r.op.memory_address (r ∷ log)
            ≡ r ∷ accesses_to r.op.memory_address log =
          rw (accesses_self r kind) in
        subst (λ b. Entry (accesses_to b (r ∷ log)) (r ∷ log) 0 d' b) at
          (subst (λ h. Entry h (r ∷ log) 0 d' r.op.memory_address) (sym same) s.own)
    | inr e ↦
        let same : accesses_to b (r ∷ log) ≡ accesses_to b log = rw (accesses_other r b e) in
        subst (λ h. Entry h (r ∷ log) 0 d' b) (sym same)
          (s.others b (accesses_to b log) 0 e (v.entry b nb))
  ];
}

access-IsSound :
    (r : Record) (log : List Record) (d : Detector)
    → IsSound log d
    → r.kind ≡ RecordType.memory_op
    → all well_formed (r ∷ log) ≡ true
    → fresh r log ≡ true
    → Safely (IsSound (r ∷ log)) d (memory_access r d)
access-IsSound r log d v kind wf new = elim (ℕ_discrete r.op.memory_address 0) [
  | yes z ↦
      Safely-ok (IsSound (r ∷ log)) d (memory_access r d) d (skips_null r d z) refl
        (IsSound-skip r log d v (λ a nz. null_accesses r a z nz))
  | no nz ↦
      Safely-map (Advances r (accesses_to r.op.memory_address log) log 0 d) d (IsSound (r ∷ log))
        (memory_access r d)
        (memory_access-Advances r (accesses_to r.op.memory_address log) log 0 d v.maps nz wf new
          (v.entry r.op.memory_address nz))
        (λ d' s. IsSound-Advances r log d d' v kind s)
]

-- One record: an access at address 0 and a record of another kind change nothing.
step-IsSound :
    (r : Record) (log : List Record) (d : Detector)
    → IsSound log d
    → all well_formed (r ∷ log) ≡ true
    → fresh r log ≡ true
    → Safely (IsSound (r ∷ log)) d (offline_detection false r d)
step-IsSound r log d v wf new = elim (kind_cases r.kind) [
  | inl kind ↦
      subst (Safely (IsSound (r ∷ log)) d) (sym (takes r d kind))
        (access-IsSound r log d v kind wf new)
  | inr other ↦
      Safely-ok (IsSound (r ∷ log)) d (offline_detection false r d) d (skips r d other) refl
        (IsSound-skip r log d v (λ a nz. not_accesses r a other))
]

-- No two records of the log are equivalent in the order of the record sets.
abbrev pub distinct : List Record → Bool
distinct [] = true
distinct (r ∷ log) = fresh r log && distinct log

-- The log after some more records.
abbrev pub extend : List Record → List Record → List Record
extend [] log = log
extend (r ∷ rs) log = extend rs (r ∷ log)

pub extend_start :
    (p : List Record → Bool)
    → ((r : Record) (log : List Record) → p (r ∷ log) ≡ true → p log ≡ true)
    → (rs log : List Record) → p (extend rs log) ≡ true
    → p log ≡ true
extend_start p down [] log h = h
extend_start p down (r ∷ rs) log h = down r log (extend_start p down rs (r ∷ log) h)

pub run-IsSound :
    (rs log : List Record) (d : Detector)
    → IsSound log d
    → all well_formed (extend rs log) ≡ true
    → distinct (extend rs log) ≡ true
    → Safely (IsSound (extend rs log)) d (detect_raw false rs d)
unfolding detect_raw
run-IsSound [] log d v wf ds = (refl, v)
run-IsSound (r ∷ rs) log d v wf ds =
    let wf' =
      extend_start (all well_formed)
        (λ r log h. (and_split (well_formed r) (all well_formed log) h).1) rs (r ∷ log) wf in
    let ds' =
      extend_start distinct (λ r log h. (and_split (fresh r log) (distinct log) h).1) rs (r ∷ log)
        ds in
    Safely-bind (IsSound (r ∷ log)) d (IsSound (extend rs (r ∷ log))) (offline_detection false r d)
      _ (step-IsSound r log d v wf' (and_split (fresh r log) (distinct log) ds').0)
      (λ d₁ v₁. run-IsSound rs (r ∷ log) d₁ v₁ wf ds)

pub start-IsSound : (w : Symbolizer) → IsSound [] (start w)
unfolding find
start-IsSound w = record {
  maps = record { sets = tt; states = tt; locks = tt };
  entry = λ a nz. inl (refl, record { sets = refl; states = refl; locks = refl }, refl);
}
