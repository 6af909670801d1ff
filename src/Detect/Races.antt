-- ===== src/Detect/Races.antt =====
-- The races that the lock set method of tools/detect.cc looks for, and the warnings due by a history.
use racez.Base.{
  ℕ, ◌<◌, ◌≡◌, Bool, true, false, not, ◌&&◌, List, [], ◌∷◌, arith, ◌==◌, rounds, take, contains,
  all, subst, Bool-cases, inl, inr, and_split,
}
use racez.Record.{Record}
use racez.Eraser.Spec.{occurs, thread_count, has_write, held_by_all}
use racez.Eraser.Switch.{may_warn}
use racez.Eraser.Due.{no_common_lock, was_due}

-- A data race in the sense of the lock set method: several threads, a write, and no common lock.
pub record IsRacy (h : List Record) : Type 0 where
  pub several : 1 < thread_count h
  pub written : has_write h ≡ true
  pub unlocked : (l : ℕ) → held_by_all l h ≡ false

IsRacy-longer : (r : Record) (h : List Record) → IsRacy h → IsRacy (r ∷ h)
IsRacy-longer r h v = record {
  several = ground (arith, v.several);
  written = ground (arith, v.written);
  unlocked = λ l. ground (arith, v.unlocked l);
}

members_true :
    (p : ℕ → Bool) (xs : List ℕ) (a : ℕ) → all p xs ≡ true → contains a xs ≡ true → p a ≡ true
members_true p [] a h m = absurd (ground arith)
members_true p (x ∷ xs) a h m = elim (Bool-cases (x == a)) [
  | inl same ↦
      let at : x ≡ a = ground arith in subst (λ b. p b ≡ true) at (and_split (p x) (all p xs) h).0
  | inr other ↦ members_true p xs a (and_split (p x) (all p xs) h).1 (ground arith)
]

occurs_count : (t : ℕ) (h : List Record) → occurs t h ≡ true → 0 < thread_count h
occurs_count t [] e = absurd (ground arith)
occurs_count t (r ∷ h) e = ground (arith, occurs_count r.thread_id h)

no_common_lock_lem :
    (r : Record) (h : List Record) (l : ℕ)
    → no_common_lock (r ∷ h) ≡ true
    → held_by_all l (r ∷ h) ≡ false
no_common_lock_lem r h l none = ground (
  arith,
  members_true (λ l. not (held_by_all l h)) (take (rounds r.op.lock_count) r.op.lockset) l none,
)

IsRacy-now :
    (r : Record) (h : List Record)
    → may_warn r h ≡ true
    → no_common_lock (r ∷ h) ≡ true
    → IsRacy (r ∷ h)
IsRacy-now r h warn none = record {
  several = ground (arith, occurs_count r.thread_id h);
  written = ground arith;
  unlocked = λ l. no_common_lock_lem r h l none;
}

-- A history in which a warning was due is a race.
pub was_due-IsRacy : (h : List Record) → was_due h ≡ true → IsRacy h
was_due-IsRacy [] e = absurd (ground arith)
was_due-IsRacy (r ∷ h) e = elim (Bool-cases (was_due h)) [
  | inl before ↦ IsRacy-longer r h (was_due-IsRacy h before)
  | inr first ↦
      let now : (may_warn r h && no_common_lock (r ∷ h)) ≡ true = ground arith in
      let (warn, none) = and_split (may_warn r h) (no_common_lock (r ∷ h)) now in
      IsRacy-now r h warn none
]
