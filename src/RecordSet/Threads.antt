-- ===== src/RecordSet/Threads.antt =====
-- The threads of the records in a record set of tools/detect.cc, and the records that are new to it.
use racez.Base.{
  ℕ, zero, suc, ◌+◌, ◌≡◌, refl, ◌⊎◌, inl, inr, Bool, true, ◌||◌, List, [], ◌∷◌, none, some, arith,
  ◌==◌, if◌then◌else◌, Bool-cases, length, get_elem?, all,
}
use racez.Record.{Record}
use racez.RecordSet.{record_lt, insert, erase, set_includes_thread_id}

-- The records of a thread, counted.
abbrev pub count_thread : ℕ → List Record → ℕ
count_thread t [] = 0
count_thread t (x ∷ xs) = (if x.thread_id == t then 1 else 0) + count_thread t xs

-- Neither record comes before the other in the order of the set.
abbrev pub differ : Record → Record → Bool
differ a b = record_lt a b || record_lt b a

-- No record of the list is equivalent to `r`.
abbrev pub fresh : Record → List Record → Bool
fresh r = all (differ r)

pub length-insert :
    (r : Record) (s : List Record) → fresh r s ≡ true → length (insert r s) ≡ suc (length s)
unfolding insert
length-insert r [] h = refl
length-insert r (x ∷ xs) h = ground (arith, length-insert r xs)

pub count_thread-insert :
    (t : ℕ) (r : Record) (s : List Record)
    → fresh r s ≡ true
    → count_thread t (insert r s) ≡ (if r.thread_id == t then 1 else 0) + count_thread t s
unfolding insert
count_thread-insert t r [] h = refl
count_thread-insert t r (x ∷ xs) h = ground (arith, count_thread-insert t r xs)

pub all-insert :
    (p : Record → Bool) (r : Record) (s : List Record)
    → p r ≡ true
    → all p s ≡ true
    → all p (insert r s) ≡ true
unfolding insert
all-insert p r [] d h = ground arith
all-insert p r (x ∷ xs) d h = ground (arith, all-insert p r xs)

pub all-erase :
    (p : Record → Bool) (i : ℕ) (s : List Record) → all p s ≡ true → all p (erase i s) ≡ true
unfolding erase
all-erase p i [] h = refl
all-erase p zero (x ∷ xs) h = ground arith
all-erase p (suc i) (x ∷ xs) h = ground (arith, all-erase p i xs)

-- What the search finds: a record of the thread, or that there is none.
pub includes_cases :
    (t : ℕ) (s : List Record)
    → ((set_includes_thread_id s t ≡ none) × (count_thread t s ≡ 0))
      ⊎ ((i : ℕ) × (r : Record) × (set_includes_thread_id s t ≡ some i)
          × (get_elem? s i ≡ some r)
          × (r.thread_id ≡ t))
unfolding set_includes_thread_id
includes_cases t [] = inl (refl, refl)
includes_cases t (x ∷ xs) = elim (Bool-cases (x.thread_id == t)) [
  | inl hit ↦ inr (0, x, rw hit, refl, ground arith)
  | inr miss ↦ elim (includes_cases t xs) [
    | inl (e, c) ↦ inl (rw (miss, e), rw miss (omega arith))
    | inr (i, r, e, at, own) ↦ inr (suc i, r, rw (miss, e), at, own)
  ]
]

pub length-erase :
    (i : ℕ) (s : List Record) (r : Record)
    → get_elem? s i ≡ some r
    → suc (length (erase i s)) ≡ length s
unfolding erase
length-erase i [] r h = cc
length-erase zero (x ∷ xs) r h = refl
length-erase (suc i) (x ∷ xs) r h = ground (arith, length-erase i xs r)

pub count_thread-erase :
    (t i : ℕ) (s : List Record) (r : Record)
    → get_elem? s i ≡ some r
    → (if r.thread_id == t then 1 else 0) + count_thread t (erase i s) ≡ count_thread t s
unfolding erase
count_thread-erase t i [] r h = cc
count_thread-erase t zero (x ∷ xs) r h = ground arith
count_thread-erase t (suc i) (x ∷ xs) r h = omega (arith, count_thread-erase t i xs r h)
