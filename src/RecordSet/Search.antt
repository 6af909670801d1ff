-- ===== src/RecordSet/Search.antt =====
-- The order of a std::set of records in tools/detect.cc, and what a search in it finds.
use racez.Base.{
  ◌≡◌, refl, ap, sym, inl, inr, Bool, true, false, not, ◌&&◌, ◌^◌, List, [], ◌∷◌, Option, none,
  some, arith, ltb, all, and_split, if◌then◌else◌, Bool-cases,
}
use racez.Record.{Record}
use racez.RecordSet.{record_lt, insert}
use racez.RecordSet.Threads.{all-insert}

-- Neither comes before the other: the same index and the same code address.
abbrev pub same_key : Record → Record → Bool
same_key a b = not (record_lt a b) && not (record_lt b a)

-- The index is an int.
abbrev pub has_index : Record → Bool
has_index r = ltb r.record_no (2 ^ 32)

-- Each record comes before all behind it.
abbrev pub IsRising : List Record → Type 0
IsRising [] = Unit {0}
IsRising (x ∷ xs) = (all (record_lt x) xs ≡ true) × IsRising xs

-- The first record with the key of the given one.
unfoldable pub find_key : Record → List Record → Option Record
find_key r [] = none
find_key r (x ∷ xs) = let rest = find_key r xs in if same_key r x then some x else rest

abbrev pub or_else : Option Record → Option Record → Option Record
or_else none b = b
or_else (some a) b = some a

abbrev pub only_if : Bool → Record → Option Record
only_if b q = if b then some q else none

pub or_else-none : (a : Option Record) → or_else a none ≡ a
or_else-none none = refl
or_else-none (some a) = refl

pub or_else_assoc : (a b c : Option Record) → or_else (or_else a b) c ≡ or_else a (or_else b c)
or_else_assoc none b c = refl
or_else_assoc (some a) b c = refl

lt_trans :
    (a b c : Record)
    → record_lt a b ≡ true
    → record_lt b c ≡ true
    → has_index a ≡ true
    → has_index b ≡ true
    → has_index c ≡ true
    → record_lt a c ≡ true
unfolding record_lt
lt_trans a b c h k ra rb rc = ground arith

same_lt :
    (r q x : Record)
    → same_key r q ≡ true
    → record_lt q x ≡ true
    → has_index r ≡ true
    → has_index q ≡ true
    → has_index x ≡ true
    → same_key r x ≡ false
unfolding record_lt
same_lt r q x h k rr rq rx = ground arith

same_key_other :
    (r q x : Record)
    → same_key q x ≡ true
    → same_key r x ≡ false
    → has_index r ≡ true
    → has_index q ≡ true
    → has_index x ≡ true
    → same_key r q ≡ false
unfolding record_lt
same_key_other r q x h k rr rq rx = ground arith

below_all :
    (q x : Record) (xs : List Record)
    → record_lt q x ≡ true
    → all (record_lt x) xs ≡ true
    → all has_index (q ∷ x ∷ xs) ≡ true
    → all (record_lt q) xs ≡ true
below_all q x [] h k i = refl
below_all q x (y ∷ ys) h k i =
    let (rq, i') = and_split (has_index q) (all has_index (x ∷ y ∷ ys)) i in
    let (rx, i'') = and_split (has_index x) (all has_index (y ∷ ys)) i' in
    let (ry, is) = and_split (has_index y) (all has_index ys) i'' in
    let (first, more) = and_split (record_lt x y) (all (record_lt x) ys) k in
    rw (lt_trans q x y h first rq rx ry) (below_all q x ys h more (rw (rq, rx) is))

find_below :
    (r q : Record) (xs : List Record)
    → same_key r q ≡ true
    → all (record_lt q) xs ≡ true
    → has_index r ≡ true
    → all has_index (q ∷ xs) ≡ true
    → find_key r xs ≡ none
unfolding find_key
find_below r q [] h k rr i = refl
find_below r q (x ∷ xs) h k rr i =
    let (rq, i') = and_split (has_index q) (all has_index (x ∷ xs)) i in
    let (rx, is) = and_split (has_index x) (all has_index xs) i' in
    let (first, more) = and_split (record_lt q x) (all (record_lt q) xs) k in
    rw (same_lt r q x h first rr rq rx) (find_below r q xs h more rr (rw rq is))

pub insert-IsRising :
    (q : Record) (xs : List Record)
    → IsRising xs
    → all has_index (q ∷ xs) ≡ true
    → IsRising (insert q xs)
unfolding insert
insert-IsRising q [] s i = (refl, tt)
insert-IsRising q (x ∷ xs) (first, rest) i =
    let (rq, i') = and_split (has_index q) (all has_index (x ∷ xs)) i in
    let (rx, is) = and_split (has_index x) (all has_index xs) i' in
    elim (Bool-cases (record_lt q x)) [
      | inl less ↦ rw less (rw less (below_all q x xs less first i), (first, rest))
      | inr other ↦ elim (Bool-cases (record_lt x q)) [
        | inl more ↦
            rw (other, more)
              (all-insert (record_lt x) q xs more first, insert-IsRising q xs rest (rw rq is))
        | inr same ↦ rw (other, same) (first, rest)
      ]
    ]

-- A record that is inserted is found by its key, unless one with that key is there.
pub find_key-insert :
    (r q : Record) (xs : List Record)
    → IsRising xs
    → has_index r ≡ true
    → all has_index (q ∷ xs) ≡ true
    → find_key r (insert q xs) ≡ or_else (find_key r xs) (only_if (same_key r q) q)
unfolding insert find_key
find_key-insert r q [] s rr i = refl
find_key-insert r q (x ∷ xs) (first, rest) rr i =
    let (rq, i') = and_split (has_index q) (all has_index (x ∷ xs)) i in
    let (rx, is) = and_split (has_index x) (all has_index xs) i' in
    elim (Bool-cases (record_lt q x)) [
      | inl less ↦ elim (Bool-cases (same_key r q)) [
        | inl same ↦
            let below : all (record_lt q) (x ∷ xs) ≡ true =
              rw less (below_all q x xs less first i) in
            let gone = find_below r q (x ∷ xs) same below rr i in
            rw (less, same) (ap (λ o. or_else o (some q)) (sym gone))
        | inr other ↦ rw (less, other) (sym (or_else-none (find_key r (x ∷ xs))))
      ]
      | inr not_less ↦ elim (Bool-cases (record_lt x q)) [
        | inl more ↦ elim (Bool-cases (same_key r x)) [
          | inl same ↦ rw (not_less, more, same) refl
          | inr other ↦ rw (not_less, more, other) (find_key-insert r q xs rest rr (rw rq is))
        ]
        | inr equal ↦ elim (Bool-cases (same_key r x)) [
          | inl same ↦ rw (not_less, equal, same) refl
          | inr other ↦
              let key : same_key q x ≡ true = rw (not_less, equal) refl in
              rw (not_less, equal, other, same_key_other r q x key other rr rq rx)
                (sym (or_else-none (find_key r xs)))
        ]
      ]
    ]
