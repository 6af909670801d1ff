-- ===== src/Eraser/Tracks.antt =====
-- `core_detection` of tools/detect.cc on one location, against the history of its accesses.
use racez.Base.{
  ℕ, ◌<◌, ◌≡◌, refl, ap, ◌∙◌, ◌⊎◌, inl, inr, Bool, true, false, not, ◌&&◌, ◌||◌, List, [], ◌∷◌,
  arith, ◌==◌, Bool-cases, rounds, length, all, ok,
}
use racez.Record.{Record}
use racez.RecordSet.{insert}
use racez.RecordSet.Threads.{fresh}
use racez.LockSet.{set_intersection}
use racez.LockSet.Meet.{collect_lem}
use racez.Eraser.{
  Location, Switched, reported, switch, is_empty, conclude, core_detection, first_access,
}
use racez.Eraser.Spec.{thread_count, has_write, classify, IsAccess}
use racez.Eraser.Switch.{HasThreads, may_warn, switch_lem}
use racez.Eraser.Candidates.{HasLocks, meet-HasLocks, is_empty_inter}

-- The last access of the history is one at which `core_detection` may warn.
abbrev pub warn_due : List Record → Bool
warn_due [] = false
warn_due (cur ∷ h) = may_warn cur h

-- No warning yet, and none was due at the last access: the state and the records are those of the history.
pub record IsLive (h : List Record) (loc : Location) : Type 0 where
  pub state : loc.status ≡ classify h
  pub threads : HasThreads h loc.records
  pub some_record : 0 < length loc.records
  pub quiet : (warn_due h && is_empty loc.locks) ≡ false

-- After the warning: the history is shared and written, and no lock is left.
pub record IsReported (h : List Record) (loc : Location) : Type 0 where
  pub state : loc.status ≡ 4
  pub shared : 1 < length loc.records
  pub several : 1 < thread_count h
  pub written : has_write h ≡ true
  pub unlocked : is_empty loc.locks ≡ true

pub record Tracks (h : List Record) (loc : Location) : Type 0 where
  pub locks : HasLocks h loc.locks
  pub phase : IsLive h loc ⊎ IsReported h loc

-- The step puts no record but the new one into the set.
abbrev pub KeepsAll : Record → List Record → List Record → Type 0
KeepsAll cur set set' = (p : Record → Bool) → all p set ≡ true → p cur ≡ true → all p set' ≡ true

conclude_live :
    (cur : Record) (h : List Record) (s : Switched) (locks : List ℕ)
    → s.status ≡ classify (cur ∷ h)
    → s.may_report ≡ may_warn cur h
    → HasThreads (cur ∷ h) s.records
    → 0 < length s.records
    → HasLocks (cur ∷ h) locks
    → (loc' : Location) × (conclude s locks ≡ (loc', may_warn cur h && is_empty loc'.locks))
      × Tracks (cur ∷ h) loc'
      × (loc'.records ≡ s.records)
      × ((loc'.status == 4) ≡ (may_warn cur h && is_empty loc'.locks))
unfolding conclude
conclude_live cur h s locks st mr threads pos l =
    elim (Bool-cases (may_warn cur h && is_empty locks)) [
      | inl warn ↦ (
        record { status = 4; records = s.records; locks = locks },
        ground arith,
        record {
          locks = l;
          phase = inr (record {
            state = refl;
            shared = ground (arith, threads.size);
            several = ground (arith, threads.size);
            written = ground arith;
            unlocked = ground arith;
          });
        },
        refl,
        ground arith,
      )
      | inr quiet ↦ (
        record { status = s.status; records = s.records; locks = locks },
        ground arith,
        record {
          locks = l;
          phase = inl (record { state = st; threads = threads; some_record = pos; quiet = quiet });
        },
        refl,
        ground arith,
      )
    ]

live_step :
    (cur : Record) (h : List Record) (loc : Location)
    → HasLocks h loc.locks
    → IsLive h loc
    → IsAccess cur
    → fresh cur loc.records ≡ true
    → (loc' : Location) × (core_detection cur loc
        ≡ ok (loc', may_warn cur h && is_empty loc'.locks))
      × Tracks (cur ∷ h) loc'
      × KeepsAll cur loc.records loc'.records
      × ((loc'.status == 4) ≡ (may_warn cur h && is_empty loc'.locks))
unfolding core_detection
live_step cur h loc l v acc f =
    let (s, moved, st, mr, threads, keeps) =
      switch_lem cur h loc.records v.threads v.some_record f in
    let (temp, collected, l') = meet-HasLocks cur h loc.locks l acc in
    let pos : 0 < length s.records = ground (arith, threads.size, v.threads.size, v.some_record) in
    let (loc', done, t, same, becomes) =
      conclude_live cur h s (set_intersection loc.locks temp) st mr threads pos l' in
    (loc', rw (v.state, moved, collected, done), t, λ p ps pc. rw same (keeps p ps pc), becomes)

reported_step :
    (cur : Record) (h : List Record) (loc : Location)
    → HasLocks h loc.locks
    → IsReported h loc
    → IsAccess cur
    → (loc' : Location) × (core_detection cur loc ≡ ok (loc', false))
      × Tracks (cur ∷ h) loc'
      × (loc'.records ≡ loc.records)
      × ((loc'.status == 4) ≡ true)
unfolding core_detection switch reported conclude
reported_step cur h loc l v acc =
    let (temp, collected, l') = meet-HasLocks cur h loc.locks l acc in
    (
      record { status = 4; records = loc.records; locks = set_intersection loc.locks temp },
      ground (arith, v.state, v.shared, collected),
      record {
        locks = l';
        phase = inr (record {
          state = refl;
          shared = v.shared;
          several = ground (arith, v.several);
          written = ground (arith, v.written);
          unlocked = is_empty_inter loc.locks temp v.unlocked;
        });
      },
      refl,
      refl,
    )

-- What a step must report: a warning where it is due, once.
abbrev pub warns : Record → List Record → Location → Location → Bool
warns cur h loc loc' = not (loc.status == 4) && (may_warn cur h && is_empty loc'.locks)

pub core_step :
    (cur : Record) (h : List Record) (loc : Location)
    → Tracks h loc
    → IsAccess cur
    → fresh cur loc.records ≡ true
    → (loc' : Location) × (core_detection cur loc ≡ ok (loc', warns cur h loc loc'))
      × Tracks (cur ∷ h) loc'
      × KeepsAll cur loc.records loc'.records
      × ((loc'.status == 4) ≡ (warns cur h loc loc' || loc.status == 4))
core_step cur h loc t acc f = elim t.phase [
  | inl v ↦
      let (loc', done, t', k, becomes) = live_step cur h loc t.locks v acc f in
      (
        loc',
        done ∙ ap (λ b. ok (loc', b)) (ground (arith, v.state)),
        t',
        k,
        ground (arith, v.state),
      )
  | inr v ↦
      let (loc', done, t', same, becomes) = reported_step cur h loc t.locks v acc in
      (
        loc',
        done ∙ ap (λ b. ok (loc', b)) (ground (arith, v.state)),
        t',
        λ p ps pc. rw same ps,
        ground (arith, v.state),
      )
]

-- `core_detection` on an access whose record is new to the set never fails an assertion or leaves an
-- array, and the location stays true to its history: the state is the one of the history (or 4, for
-- a shared and written location with no lock left), the records are one of each thread, and the
-- candidate locks are those of every access. It reports exactly if no warning was given before, the
-- location is shared and written with no candidate lock left, and either the access made it so or the
-- thread is an old one.
pub core_detection-Tracks :
    (cur : Record) (h : List Record) (loc : Location)
    → Tracks h loc
    → IsAccess cur
    → fresh cur loc.records ≡ true
    → (loc' : Location) × (core_detection cur loc ≡ ok (loc', warns cur h loc loc'))
      × Tracks (cur ∷ h) loc'
core_detection-Tracks cur h loc t acc f =
    let (loc', done, t', _, _) = core_step cur h loc t acc f in (loc', done, t')

-- The first access makes a location that is true to the history of this access alone.
pub first_access-Tracks :
    (cur : Record)
    → IsAccess cur
    → (loc : Location) × (first_access cur ≡ ok loc)
      × Tracks (cur ∷ []) loc
      × (loc.records ≡ cur ∷ [])
      × ((loc.status == 4) ≡ false)
unfolding first_access insert
first_access-Tracks cur acc =
    let (locks, done, rise, mem) =
      collect_lem (rounds cur.op.lock_count) cur.op.lockset [] acc.fits tt in
    (
      record { status = cur.op.is_write; records = cur ∷ []; locks = locks },
      rw done,
      record {
        locks = record { rising = rise; common = λ a. ground (arith, mem a) };
        phase = inl (record {
          state = ground (arith, acc.flag);
          threads = record { one_each = λ t. ground arith; size = refl };
          some_record = omega arith;
          quiet = ground arith;
        });
      },
      refl,
      ground (arith, acc.flag),
    )
