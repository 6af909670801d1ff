-- ===== src/Convert/Main/Functions.antt =====
-- The functions that `ConvertIP` of tools/convert.cc finds for the lines of ip.txt, and their texts.
use racez.Base.{
  ℕ, zero, suc, ◌+◌, ◌/◌, ◌%◌, ◌^◌, ◌≤◌, ◌<◌, ◌≡◌, ◌≢◌, ◌-◌, refl, inl, inr, Bool, true, false, not,
  ◌||◌, List, [], ◌∷◌, ◌++◌, some, arith, ltb, ◌==◌, Bool-cases, get_elem?, all, and_split, length,
  length-append, ok, map, subst, if◌then◌else◌,
}
use racez.Convert.{
  RawLine, FunctionLine, RacezFunctionEntry, convert_offset, convert_line, convert_lines,
}
use racez.Convert.Files.{newline, fits, invalid_word}
use racez.Convert.Numbers.{digit, decimal_digits, decimal}
use racez.Convert.Numbers.Digits.{is_digit, decimal_digits-all}
use racez.Convert.Nearest.{IsSorted, none_nearer, convert_offset-nearest}

-- The entry nearest to an address at or before it.
pub record IsNearest (functions : List RacezFunctionEntry) (a : ℕ) (name : List ℕ) (offset : ℕ)
    : Type 0 where
  pub entry : RacezFunctionEntry
  pub position : ℕ
  pub is_there : get_elem? functions position ≡ some entry
  pub name_is : name ≡ entry.function_name
  pub offset_is : entry.offset + offset ≡ a
  pub nearest : none_nearer a entry functions ≡ true

-- An address at the first function or behind it. A line that names no file is taken for the address 0 unless
-- strcmp gives 1 for it.
abbrev pub IsCovered : ℕ → RacezFunctionEntry → RawLine → Type 0
IsCovered compared first (RawLine.address a) = (first.offset ≤ a) × (a < 2 ^ 63)
IsCovered compared first RawLine.invalid = (compared == 1 || first.offset == 0) ≡ true

abbrev pub AreCovered : ℕ → RacezFunctionEntry → List RawLine → Type 0
AreCovered compared first [] = Unit {0}
AreCovered compared first (l ∷ ls) = IsCovered compared first l × AreCovered compared first ls

abbrev pub IsFound : ℕ → List RacezFunctionEntry → RawLine → FunctionLine → Type 0
IsFound compared functions (RawLine.address a) (FunctionLine.function name offset) =
    IsNearest functions a name offset
IsFound compared functions (RawLine.address a) FunctionLine.invalid = ⊥
IsFound compared functions RawLine.invalid (FunctionLine.function name offset) =
    (compared ≢ 1) × IsNearest functions 0 name offset
IsFound compared functions RawLine.invalid FunctionLine.invalid = compared ≡ 1

abbrev pub AreFound : ℕ → List RacezFunctionEntry → List RawLine → List FunctionLine → Type 0
AreFound compared functions [] [] = Unit {0}
AreFound compared functions (l ∷ ls) (f ∷ fs) =
    IsFound compared functions l f × AreFound compared functions ls fs
AreFound compared functions _ _ = ⊥

-- The text that a line of functions.txt should be.
unfoldable pub shown_line : FunctionLine → List ℕ
shown_line (FunctionLine.function name offset) = name ++ 9 ∷ decimal offset
shown_line FunctionLine.invalid = invalid_word

abbrev pub is_near : FunctionLine → Bool
is_near (FunctionLine.function name offset) = ltb offset (2 ^ 63)
is_near FunctionLine.invalid = true

-- A name that leaves room for the tab and 20 digits in the buffer of a line.
abbrev pub fits_name : RacezFunctionEntry → Bool
fits_name e = fits 178 e.function_name

length-higher : (b : Bool) (xs : List ℕ) (k : ℕ) → length xs ≤ k → length (if b then [] else xs) ≤ k
length-higher true xs k h = omega arith
length-higher false xs k h = h

length-decimal_digits : (k n : ℕ) → length (decimal_digits k n) ≤ k
unfolding decimal_digits
length-decimal_digits zero n = omega arith
length-decimal_digits (suc k) n =
    let higher = if ltb n 10 then [] else decimal_digits k (n / 10) in
    omega (
      arith,
      length-append higher (digit (n % 10) ∷ []),
      length-higher (ltb n 10) (decimal_digits k (n / 10)) k (length-decimal_digits k (n / 10)),
    )

digits_on_line :
    (xs : List ℕ) → all (is_digit 10) xs ≡ true → all (λ c. not (c == newline)) xs ≡ true
digits_on_line [] h = refl
digits_on_line (c ∷ xs) h =
    let (first, more) = and_split (is_digit 10 c) (all (is_digit 10) xs) h in
    let rest = digits_on_line xs more in
    let other : (c == newline) ≡ false = ground arith in rw (other, rest)

on_line :
    (name xs : List ℕ)
    → all (λ c. not (c == newline)) name ≡ true
    → all (λ c. not (c == newline)) xs ≡ true
    → all (λ c. not (c == newline)) (name ++ xs) ≡ true
on_line [] xs h g = g
on_line (c ∷ name) xs h g =
    let (first, more) = and_split (not (c == newline)) (all (λ c. not (c == newline)) name) h in
    rw (first, on_line name xs more g)

text_fits : (name : List ℕ) (n : ℕ) → fits 178 name ≡ true → fits 199 (name ++ 9 ∷ decimal n) ≡ true
text_fits name n h =
    let (short, line) = and_split (ltb (length name) 178) (all (λ c. not (c == newline)) name) h in
    let size = length-append name (9 ∷ decimal n) in
    let digits = length-decimal_digits 20 n in
    let room : ltb (length (name ++ 9 ∷ decimal n)) 199 ≡ true =
      ground (arith, short, size, digits) in
    rw (
      room,
      on_line name (9 ∷ decimal n) line (digits_on_line (decimal n) (decimal_digits-all 20 n)),
    )

all_there :
    (xs : List RacezFunctionEntry) (i : ℕ) (e : RacezFunctionEntry)
    → all fits_name xs ≡ true
    → get_elem? xs i ≡ some e
    → fits_name e ≡ true
all_there [] i e h g = cc
all_there (x ∷ xs) zero e h g =
    let same : x ≡ e = cc in
    subst (λ x. fits_name x ≡ true) same (and_split (fits_name x) (all fits_name xs) h).0
all_there (x ∷ xs) (suc i) e h g =
    all_there xs i e (and_split (fits_name x) (all fits_name xs) h).1 g

-- What becomes of a line that is covered.
record Made (compared : ℕ) (functions : List RacezFunctionEntry) (l : RawLine) : Type 0 where
  pub made : FunctionLine
  pub done : convert_line compared functions l ≡ ok made
  pub found : IsFound compared functions l made
  pub near : is_near made ≡ true
  pub text : fits 199 (shown_line made) ≡ true

nearest_lem :
    (a : ℕ) (first : RacezFunctionEntry) (functions : List RacezFunctionEntry)
    → IsSorted (first ∷ functions)
    → all fits_name (first ∷ functions) ≡ true
    → first.offset ≤ a
    → a < 2 ^ 63
    → (name : List ℕ) × (offset : ℕ) × (convert_offset (first ∷ functions) a
        ≡ ok (FunctionLine.function name offset))
      × IsNearest (first ∷ functions) a name offset
      × (ltb offset (2 ^ 63) ≡ true)
      × (fits 199 (shown_line (FunctionLine.function name offset)) ≡ true)
unfolding shown_line
nearest_lem a first functions s names le h =
    let (e, i, done, there, before, near) = convert_offset-nearest a first functions s le h in
    (
      e.function_name,
      a - e.offset,
      done,
      record {
        entry = e;
        position = i;
        is_there = there;
        name_is = refl;
        offset_is = omega (arith, before);
        nearest = near;
      },
      ground (arith, h),
      text_fits e.function_name (a - e.offset) (all_there (first ∷ functions) i e names there),
    )

module _ (compared : ℕ) (first : RacezFunctionEntry) (functions : List RacezFunctionEntry)
    (s : IsSorted (first ∷ functions)) (names : all fits_name (first ∷ functions) ≡ true) where
  convert_line-Made :
      (l : RawLine) → IsCovered compared first l → Made compared (first ∷ functions) l
  unfolding convert_line shown_line
  convert_line-Made (RawLine.address a) (le, h) =
      let (name, offset, done, near, small, text) = nearest_lem a first functions s names le h in
      let in_range : ltb a (2 ^ 63) ≡ true = ground arith in
      record {
        made = FunctionLine.function name offset;
        done = rw in_range done;
        found = near;
        near = small;
        text = text;
      }
  convert_line-Made RawLine.invalid c = elim (Bool-cases (compared == 1)) [
    | inl one ↦ record {
      made = FunctionLine.invalid;
      done = rw one refl;
      found = ground (arith, one);
      near = refl;
      text = refl;
    }
    | inr other ↦
        let at : first.offset ≤ 0 = ground (arith, c, other) in
        let (name, offset, done, near, small, text) =
          nearest_lem 0 first functions s names at (omega arith) in
        record {
          made = FunctionLine.function name offset;
          done = rw other done;
          found = (ground (arith, other), near);
          near = small;
          text = text;
        }
  ]

  -- `ConvertIP` finds a function for every line that is covered.
  pub convert_lines-AreFound :
      (ls : List RawLine)
      → AreCovered compared first ls
      → (fs : List FunctionLine) × (convert_lines compared (first ∷ functions) ls ≡ ok fs)
        × AreFound compared (first ∷ functions) ls fs
        × (all is_near fs ≡ true)
        × (all (fits 199) (map shown_line fs) ≡ true)
  unfolding convert_lines
  convert_lines-AreFound [] c = ([], refl, tt, refl, refl)
  convert_lines-AreFound (l ∷ ls) (c, cs) =
      let m = convert_line-Made l c in
      let (fs, done, found, near, text) = convert_lines-AreFound ls cs in
      (m.made ∷ fs, rw (m.done, done), (m.found, found), rw (m.near, near), rw (m.text, text))
