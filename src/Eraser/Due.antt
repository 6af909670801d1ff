-- ===== src/Eraser/Due.antt =====
-- When tools/detect.cc should have warned of a location, by the history of its accesses.
use racez.Base.{
  ℕ, ◌≡◌, refl, sym, ◌∙◌, ap, Bool, true, false, not, ◌&&◌, ◌||◌, List, [], ◌∷◌, arith, ◌==◌,
  rounds, take, contains, all, Bool-cases, inl, inr, and_split,
}
use racez.Record.{Record}
use racez.Eraser.{is_empty}
use racez.Eraser.Spec.{held_by_all}
use racez.Eraser.Switch.{may_warn}

-- No lock of the last access was held at all of them.
abbrev pub no_common_lock : List Record → Bool
no_common_lock [] = false
no_common_lock (r ∷ h) =
    all (λ l. not (held_by_all l h)) (take (rounds r.op.lock_count) r.op.lockset)

-- At some access of the history the location was shared and written, without a common lock, and the
-- access had made it so or was by a thread with an access before.
abbrev pub was_due : List Record → Bool
was_due [] = false
was_due (r ∷ h) = (may_warn r h && no_common_lock (r ∷ h)) || was_due h

pub was_due_first : (r : Record) → was_due (r ∷ []) ≡ false
was_due_first r = ground arith

all_members :
    (p : ℕ → Bool) (xs : List ℕ) → ((a : ℕ) → contains a xs ≡ true → p a ≡ true) → all p xs ≡ true
all_members p [] h = refl
all_members p (x ∷ xs) h =
    let first : contains x (x ∷ xs) ≡ true = ground arith in
    let rest = all_members p xs (λ a m. h a (ground arith)) in ground (arith, h x first, rest)

not_all :
    (p : ℕ → Bool) (xs : List ℕ) (a : ℕ) → contains a xs ≡ true → p a ≡ false → all p xs ≡ false
not_all p [] a m e = absurd (ground arith)
not_all p (x ∷ xs) a m e = elim (Bool-cases (x == a)) [
  | inl same ↦
      let at : a ≡ x = ground arith in let first : p x ≡ false = ap p (sym at) ∙ e in rw first refl
  | inr other ↦
      let rest : contains a xs ≡ true = ground arith in ground (arith, not_all p xs a rest e)
]

pub is_empty-no_common_lock :
    (r : Record) (h : List Record) (locks : List ℕ)
    → ((a : ℕ) → contains a locks ≡ held_by_all a (r ∷ h))
    → is_empty locks ≡ no_common_lock (r ∷ h)
is_empty-no_common_lock r h [] c =
    sym (all_members _ (take (rounds r.op.lock_count) r.op.lockset) (λ a m. ground (arith, c a, m)))
is_empty-no_common_lock r h (x ∷ locks) c =
    let first : contains x (x ∷ locks) ≡ true = ground arith in
    let (own, rest) =
      and_split (contains x (take (rounds r.op.lock_count) r.op.lockset)) (held_by_all x h)
        (sym (c x) ∙ first) in
    sym (
      not_all (λ l. not (held_by_all l h)) (take (rounds r.op.lock_count) r.op.lockset) x own
        (ap not rest))
