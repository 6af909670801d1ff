-- ===== src/Eraser/Candidates.antt =====
-- The candidate locks of a location in tools/detect.cc, against the history of its accesses.
use racez.Base.{ℕ, ◌≡◌, refl, true, List, [], ◌∷◌, arith, rounds, contains, ok}
use racez.Record.{Record}
use racez.LockSet.{collect, set_intersection}
use racez.LockSet.Meet.{IsRising, collect_lem, inter-IsRising, contains-set_intersection}
use racez.Eraser.{is_empty}
use racez.Eraser.Spec.{held_by_all, IsAccess}

-- The candidate locks are those that every access held.
pub record HasLocks (h : List Record) (locks : List ℕ) : Type 0 where
  pub rising : IsRising locks
  pub common : (a : ℕ) → contains a locks ≡ held_by_all a h

pub meet-HasLocks :
    (cur : Record) (h : List Record) (locks : List ℕ)
    → HasLocks h locks
    → IsAccess cur
    → (temp : List ℕ) × (collect (rounds cur.op.lock_count) cur.op.lockset [] ≡ ok temp)
      × HasLocks (cur ∷ h) (set_intersection locks temp)
meet-HasLocks cur h locks v acc =
    let (temp, done, rise, mem) =
      collect_lem (rounds cur.op.lock_count) cur.op.lockset [] acc.fits tt in
    (
      temp,
      done,
      record {
        rising = inter-IsRising locks temp v.rising;
        common = λ a.
            ground (arith, contains-set_intersection a locks temp v.rising rise, mem a, v.common a);
      },
    )

pub is_empty_inter :
    (xs ys : List ℕ) → is_empty xs ≡ true → is_empty (set_intersection xs ys) ≡ true
unfolding set_intersection
is_empty_inter [] ys e = refl
is_empty_inter (x ∷ xs) ys e = cc
