-- ===== src/Convert/Nearest.antt =====
-- The function that `ConvertIP` of tools/convert.cc finds for a code address.
use native.Mathlib.Decide.{ℕ_discrete}
use racez.Base.{
  and_split, ℕ, suc, ◌+◌, ◌-◌, ◌%◌, ◌^◌, ◌≤◌, ◌<◌, ◌≡◌, ◌≢◌, refl, ap, ◌∙◌, inl, inr, Bool, true,
  false, ◌&&◌, ◌||◌, List, [], ◌∷◌, some, arith, ltb, leb, ◌==◌, Bool-cases, get_elem?, all, ok,
  ◌>>=◌,
}
use racez.Convert.{RacezFunctionEntry, FunctionLine, lower_bound, entry_at, convert_offset}

abbrev pub IsSorted : List RacezFunctionEntry → Type 0
IsSorted [] = Unit {0}
IsSorted (x ∷ xs) = (all (λ y. leb x.offset y.offset) xs ≡ true) × IsSorted xs

-- Every entry is at the chosen one or before it, or behind the address.
abbrev pub none_nearer : ℕ → RacezFunctionEntry → List RacezFunctionEntry → Bool
none_nearer a e xs = all (λ y. leb y.offset e.offset || ltb a y.offset) xs

at_least :
    (a : ℕ) (e : RacezFunctionEntry) (xs : List RacezFunctionEntry)
    → e.offset ≡ a
    → none_nearer a e xs ≡ true
at_least a e [] h = refl
at_least a e (x ∷ xs) h = ground (arith, at_least a e xs h)

all_behind :
    (a : ℕ) (e x : RacezFunctionEntry) (xs : List RacezFunctionEntry)
    → a < x.offset
    → all (λ y. leb x.offset y.offset) xs ≡ true
    → none_nearer a e xs ≡ true
all_behind a e x [] h s = refl
all_behind a e x (y ∷ xs) h s = ground (arith, all_behind a e x xs h)

record Found (a : ℕ) (xs : List RacezFunctionEntry) : Type 0 where
  pub entry : RacezFunctionEntry
  pub position : ℕ
  pub done : entry_at a (lower_bound a xs) xs ≡ ok entry
  pub is_there : get_elem? xs position ≡ some entry
  pub at_or_before : entry.offset ≤ a
  pub nearest : none_nearer a entry xs ≡ true

entry_at-first :
    (a : ℕ) (e : RacezFunctionEntry) (xs : List RacezFunctionEntry)
    → e.offset ≡ a
    → entry_at a (lower_bound a (e ∷ xs)) (e ∷ xs) ≡ ok e
unfolding lower_bound entry_at
entry_at-first a e xs h =
    let first : ltb e.offset a ≡ false = ground arith in
    let at : (e.offset == a) ≡ true = ground arith in rw (first, at)

entry_at-only :
    (a : ℕ) (e : RacezFunctionEntry)
    → e.offset < a
    → entry_at a (lower_bound a (e ∷ [])) (e ∷ []) ≡ ok e
unfolding lower_bound entry_at
entry_at-only a e h = let less : ltb e.offset a ≡ true = ground arith in rw less

entry_at-between :
    (a : ℕ) (e x : RacezFunctionEntry) (xs : List RacezFunctionEntry)
    → e.offset ≤ a
    → e.offset ≢ a
    → a < x.offset
    → entry_at a (lower_bound a (e ∷ x ∷ xs)) (e ∷ x ∷ xs) ≡ ok e
unfolding lower_bound entry_at
entry_at-between a e x xs h n k =
    let less : ltb e.offset a ≡ true = ground arith in
    let behind : ltb x.offset a ≡ false = ground arith in
    let other : (x.offset == a) ≡ false = ground arith in rw (less, behind, other)

entry_at-later :
    (a : ℕ) (e x : RacezFunctionEntry) (xs : List RacezFunctionEntry)
    → e.offset ≤ a
    → e.offset ≢ a
    → x.offset ≤ a
    → entry_at a (lower_bound a (e ∷ x ∷ xs)) (e ∷ x ∷ xs)
      ≡ entry_at a (lower_bound a (x ∷ xs)) (x ∷ xs)
unfolding lower_bound entry_at
entry_at-later a e x xs h n k =
    let less : ltb e.offset a ≡ true = ground arith in
    elim (Bool-cases (ltb x.offset a)) [
      | inl below ↦ rw (less, below)
      | inr not_below ↦ (let at : (x.offset == a) ≡ true = ground arith in rw (less, not_below, at))
    ]

nearest_at :
    (a : ℕ) (e : RacezFunctionEntry) (xs : List RacezFunctionEntry)
    → none_nearer a e xs ≡ true
    → none_nearer a e (e ∷ xs) ≡ true
nearest_at a e xs h = let own : leb e.offset e.offset ≡ true = ground arith in rw (own, h)

nearest_later :
    (a : ℕ) (e x r : RacezFunctionEntry) (xs : List RacezFunctionEntry)
    → leb e.offset x.offset ≡ true
    → x.offset ≤ a
    → none_nearer a r (x ∷ xs) ≡ true
    → none_nearer a r (e ∷ x ∷ xs) ≡ true
nearest_later a e x r xs le h n =
    let head : leb e.offset r.offset ≡ true = below_found (all_of xs) n in rw (head, n)
  where
    all_of : List RacezFunctionEntry → Bool
    all_of xs = none_nearer a r xs

    below_found :
        (rest : Bool)
        → ((leb x.offset r.offset || ltb a x.offset) && rest) ≡ true
        → leb e.offset r.offset ≡ true
    below_found rest n = ground arith

first-Found :
    (a : ℕ) (e : RacezFunctionEntry) (xs : List RacezFunctionEntry)
    → e.offset ≡ a
    → Found a (e ∷ xs)
first-Found a e xs h = record {
  entry = e;
  position = 0;
  done = entry_at-first a e xs h;
  is_there = refl;
  at_or_before = omega arith;
  nearest = nearest_at a e xs (at_least a e xs h);
}

only-Found : (a : ℕ) (e : RacezFunctionEntry) → e.offset ≤ a → e.offset ≢ a → Found a (e ∷ [])
only-Found a e le n = record {
  entry = e;
  position = 0;
  done = entry_at-only a e (omega arith);
  is_there = refl;
  at_or_before = le;
  nearest = nearest_at a e [] refl;
}

between-Found :
    (a : ℕ) (e x : RacezFunctionEntry) (xs : List RacezFunctionEntry)
    → IsSorted (x ∷ xs)
    → e.offset ≤ a
    → e.offset ≢ a
    → a < x.offset
    → Found a (e ∷ x ∷ xs)
between-Found a e x xs s le n behind = record {
  entry = e;
  position = 0;
  done = entry_at-between a e x xs le n behind;
  is_there = refl;
  at_or_before = le;
  nearest =
      nearest_at a e (x ∷ xs) (behind_all (none_nearer a e xs) (all_behind a e x xs behind s.0));
}
  where
    behind_all :
        (rest : Bool) → rest ≡ true → ((leb x.offset e.offset || ltb a x.offset) && rest) ≡ true
    behind_all rest h = ground (arith, behind)

later-Found :
    (a : ℕ) (e x : RacezFunctionEntry) (xs : List RacezFunctionEntry)
    → IsSorted (e ∷ x ∷ xs)
    → e.offset ≤ a
    → e.offset ≢ a
    → x.offset ≤ a
    → Found a (x ∷ xs)
    → Found a (e ∷ x ∷ xs)
later-Found a e x xs s le n below f = record {
  entry = f.entry;
  position = suc f.position;
  done = entry_at-later a e x xs le n below ∙ f.done;
  is_there = f.is_there;
  at_or_before = f.at_or_before;
  nearest =
      nearest_later a e x f.entry xs (and_split (leb e.offset x.offset) _ s.0).0 below f.nearest;
}

find_entry :
    (a : ℕ) (e : RacezFunctionEntry) (xs : List RacezFunctionEntry)
    → IsSorted (e ∷ xs)
    → e.offset ≤ a
    → Found a (e ∷ xs)
find_entry a e [] s le = elim (ℕ_discrete e.offset a) [
  | yes at ↦ first-Found a e [] at
  | no other ↦ only-Found a e le other
]
find_entry a e (x ∷ xs) s le = elim (ℕ_discrete e.offset a) [
  | yes at ↦ first-Found a e (x ∷ xs) at
  | no other ↦ elim (Bool-cases (ltb a x.offset)) [
    | inl behind ↦ between-Found a e x xs s.1 le other (ltb_lt a x.offset behind)
    | inr below ↦
        (let h = not_ltb a x.offset below in
          later-Found a e x xs s le other h (find_entry a x xs s.1 h))
  ]
]
  where
    ltb_lt : (n m : ℕ) → ltb n m ≡ true → n < m
    ltb_lt n m h = ground arith

    not_ltb : (n m : ℕ) → ltb n m ≡ false → m ≤ n
    not_ltb n m h = ground arith

offset_in : (a o : ℕ) → a < 2 ^ 63 → o ≤ a → (a + 2 ^ 64 - o) % 2 ^ 64 ≡ a - o
offset_in a o h k = omega arith

-- In a sorted table whose first entry is not behind the address, the address is converted, with no
-- access outside the table, to a function of the table at or before it, with the distance from its
-- start; every other entry of the table is at or before that start, or behind the address.
pub convert_offset-nearest :
    (a : ℕ) (first : RacezFunctionEntry) (functions : List RacezFunctionEntry)
    → IsSorted (first ∷ functions)
    → first.offset ≤ a
    → a < 2 ^ 63
    → (e : RacezFunctionEntry) × (i : ℕ) × (convert_offset (first ∷ functions) a
        ≡ ok (FunctionLine.function e.function_name (a - e.offset)))
      × (get_elem? (first ∷ functions) i ≡ some e)
      × (e.offset ≤ a)
      × (none_nearer a e (first ∷ functions) ≡ true)
unfolding convert_offset
convert_offset-nearest a first functions s le h =
    let f = find_entry a first functions s le in
    (
      f.entry,
      f.position,
      ap
            (λ o. o >>= λ e.
              ok (FunctionLine.function e.function_name ((a + 2 ^ 64 - e.offset) % 2 ^ 64)))
            f.done
          ∙ ap (λ n. ok (FunctionLine.function f.entry.function_name n))
              (offset_in a f.entry.offset h f.at_or_before),
      f.is_there,
      f.at_or_before,
      f.nearest,
    )
