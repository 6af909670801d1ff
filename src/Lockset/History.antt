-- ===== src/Lockset/History.antt =====
-- Whole histories of locks and unlocks by one thread (racez_mutex.cc), against a bag that holds ten
-- locks at most.
use mathlib.Core.List.{Perm, Permᴰ, erase, perm_middle, append-nil, cons-perm_iff_perm-erase}
use mathlib.Core.List.Perm
use mathlib.Core.Logic.{∥∥₁_elim}
use native.Mathlib.Decide.{ℕ_discrete}
use native.Mathlib.Nat.{ℕ_set}
use racez.Base.{
  ℕ, suc, ◌≡◌, refl, sym, ap, ◌∙◌, inl, inr, true, false, List, [], ◌∷◌, ◌++◌, arith, ltb,
  if◌then◌else◌, Bool-cases, length, length-take_of_le, contains, Outcome, ok, ◌>>=◌,
}
use racez.Lockset.{Lockset, held, add_locked, remove_locked}
use racez.Lockset.Contents.{IsValid, add_locked_lem, remove_locked_hit, remove_locked_miss}

pub data Event : Type 0 where
  lock unlock : ℕ → Event

unfoldable pub step : Event → Lockset → Outcome Lockset
step (lock m) l = add_locked m l
step (unlock m) l = remove_locked m l

unfoldable pub run : List Event → Lockset → Outcome Lockset
run [] l = ok l
run (e ∷ es) l = step e l >>= run es

-- The specification: a bag of ten at most, in which an eleventh lock is not noted.
unfoldable pub bag_step : Event → List ℕ → List ℕ
bag_step (lock m) b = if ltb (length b) 10 then m ∷ b else b
bag_step (unlock m) b = erase ℕ_discrete b m

unfoldable pub bag_run : List Event → List ℕ → List ℕ
bag_run [] b = b
bag_run (e ∷ es) b = bag_run es (bag_step e b)

Permᴰ-length {ℓ} : {A : Type ℓ} {xs ys : List A} → Permᴰ xs ys → length xs ≡ length ys
Permᴰ-length Permᴰ.nil = refl
Permᴰ-length (Permᴰ.cons e p) = ap suc (Permᴰ-length p)
Permᴰ-length (Permᴰ.swap e f) = refl
Permᴰ-length (Permᴰ.trans p q) = Permᴰ-length p ∙ Permᴰ-length q

Perm-length {ℓ} : {A : Type ℓ} {xs ys : List A} → Perm xs ys → length xs ≡ length ys
Perm-length p = ∥∥₁_elim p (ℕ_set _ _) Permᴰ-length

erase_absent : (m : ℕ) (xs : List ℕ) → contains m xs ≡ false → erase ℕ_discrete xs m ≡ xs
erase_absent m [] h = refl
erase_absent m (x ∷ xs) h = ground (arith, erase_absent m xs)

lock-perm :
    (m : ℕ) (l : Lockset) (b : List ℕ)
    → IsValid l
    → Perm (held l) b
    → Perm (if l.overflow then held l else held l ++ m ∷ []) (bag_step (lock m) b)
unfolding bag_step
lock-perm m l b v p =
    let size : length b ≡ l.n =
      sym (Perm-length p) ∙ length-take_of_le l.n l.slots (omega (arith, v.slots_10, v.bounded)) in
    elim (Bool-cases l.overflow) [
      | inl full ↦
          let same : ltb (length b) 10 ≡ false = ground (arith, v.full) in rw (full, same) p
      | inr free ↦
          let room : ltb (length b) 10 ≡ true = ground (arith, v.full, v.bounded) in
          rw (free, room) (Perm.trans (end_first m (held l)) (Perm.cons m p))
    ]
  where
    end_first : (m : ℕ) (xs : List ℕ) → Perm (xs ++ m ∷ []) (m ∷ xs)
    end_first m xs =
        let p : Perm (xs ++ m ∷ []) (m ∷ (xs ++ [])) = perm_middle xs [] in rw append-nil at p

unlock-perm :
    (m : ℕ) (xs ys b : List ℕ) → Perm xs (m ∷ ys) → Perm xs b → Perm ys (bag_step (unlock m) b)
unfolding bag_step
unlock-perm m xs ys b p q =
    Perm.trans ((cons-perm_iff_perm-erase ℕ_discrete).0 (Perm.symm p)).1 (Perm.erase ℕ_discrete m q)

step-bag :
    (e : Event) (l : Lockset) (b : List ℕ)
    → IsValid l
    → Perm (held l) b
    → (l' : Lockset) × (step e l ≡ ok l') × IsValid l' × Perm (held l') (bag_step e b)
unfolding step
step-bag (lock m) l b v p =
    let (l', done, v', e) = add_locked_lem m l v in (l', done, v', rw e (lock-perm m l b v p))
step-bag (unlock m) l b v p = elim (Bool-cases (contains m (held l))) [
  | inl hit ↦
      let (l', done, v', q) = remove_locked_hit m l v hit in
      (l', done, v', unlock-perm m (held l) (held l') b q p)
  | inr miss ↦ (
    l,
    remove_locked_miss m l v miss,
    v,
    unfold bag_step in rw (← erase_absent m (held l) miss) (Perm.erase ℕ_discrete m p),
  )
]

-- Over any history the set holds, up to order, what a bag of ten locks holds: no access to the array
-- is out of bounds, and the set stays valid.
pub run-bag :
    (es : List Event) (l : Lockset) (b : List ℕ)
    → IsValid l
    → Perm (held l) b
    → (l' : Lockset) × (run es l ≡ ok l') × IsValid l' × Perm (held l') (bag_run es b)
unfolding run bag_run
run-bag [] l b v p = (l, refl, v, p)
run-bag (e ∷ es) l b v p =
    let (l₁, done, v₁, p₁) = step-bag e l b v p in rw done (run-bag es l₁ (bag_step e b) v₁ p₁)
