-- ===== src/Convert/Files.antt =====
-- `Combine` of tools/convert.cc over the bytes of its two files. A file has no byte 0, and the three
-- files can be opened. The loop runs on fuel.
use racez.Base.{
  ℕ, zero, suc, Bool, true, false, not, ◌&&◌, List, [], ◌∷◌, ◌++◌, Option, none, some, ltb, ◌==◌,
  if◌then◌else◌, length, all, Outcome, ok, fault, assertion_failed, ◌>>=◌, cons_ok,
}

abbrev pub newline : ℕ
newline = 10

-- The bytes of "invalid" and of "??:0".
abbrev pub invalid_word : List ℕ
invalid_word = 105 ∷ 110 ∷ 118 ∷ 97 ∷ 108 ∷ 105 ∷ 100 ∷ []

abbrev pub no_file_word : List ℕ
no_file_word = 63 ∷ 63 ∷ 58 ∷ 48 ∷ []

-- `fgets` into a buffer of one byte more than the count: the bytes read, and the rest of the file.
unfoldable pub fgets : ℕ → List ℕ → List ℕ × List ℕ
fgets zero file = ([], file)
fgets (suc n) [] = ([], [])
fgets (suc n) (c ∷ file) =
    let (line, rest) = fgets n file in if c == newline then (c ∷ [], file) else (c ∷ line, rest)

-- `strcmp(a, b) == 0`, and `strncmp(a, prefix, length) == 0` where `a` may be shorter.
unfoldable pub same_text : List ℕ → List ℕ → Bool
same_text [] [] = true
same_text [] (y ∷ ys) = false
same_text (x ∷ xs) [] = false
same_text (x ∷ xs) (y ∷ ys) = x == y && same_text xs ys

unfoldable pub starts_with : List ℕ → List ℕ → Bool
starts_with [] xs = true
starts_with (p ∷ ps) [] = false
starts_with (p ∷ ps) (x ∷ xs) = p == x && starts_with ps xs

-- The buffer without its last byte, which the code asserts to be a newline.
unfoldable pub chomp : List ℕ → Outcome (List ℕ)
chomp [] = fault assertion_failed
chomp (x ∷ []) = if x == newline then ok [] else fault assertion_failed
chomp (x ∷ y ∷ ys) = cons_ok x (chomp (y ∷ ys))

pub record Combined : Type 0 where
  pub index : ℕ
  pub filename : List ℕ
  pub function : List ℕ

abbrev pub is_end : List ℕ → Bool
is_end [] = true
is_end (x ∷ xs) = false

-- The loop, from the count of the lines before; none if the fuel is used up.
unfoldable pub combine : ℕ → ℕ → List ℕ → List ℕ → Outcome (Option (List Combined))
combine zero count filenames functions = ok none
combine (suc fuel) count filenames functions =
    let (filename, filenames') = fgets 1999 filenames in
    let (function, functions') = fgets 199 functions in
    let rest = combine fuel (suc count) filenames' functions' in
    if is_end filename
    then ok (some [])
    else if is_end function
    then ok (some [])
    else if same_text function invalid_word
    then rest
    else if starts_with no_file_word filename
    then rest
    else (do
      f ← chomp filename
      g ← chomp function
      more ← rest
      ok (elim more [
        | none ↦ none
        | some lines ↦ some (record { index = count; filename = f; function = g } ∷ lines)
      ]))

-- A file of lines.
unfoldable pub file_of : List (List ℕ) → List ℕ
file_of [] = []
file_of (l ∷ ls) = l ++ newline ∷ file_of ls

-- A line that fits a buffer of one byte more than the count.
abbrev pub fits : ℕ → List ℕ → Bool
fits n l = ltb (length l) n && all (λ c. not (c == newline)) l

-- The specification: the lines side by side, numbered, without those that name no file.
unfoldable pub combine_lines : ℕ → List (List ℕ) → List (List ℕ) → List Combined
combine_lines count [] gs = []
combine_lines count (f ∷ fs) [] = []
combine_lines count (f ∷ fs) (g ∷ gs) =
    let rest = combine_lines (suc count) fs gs in
    if starts_with no_file_word f
    then rest
    else record { index = count; filename = f; function = g } ∷ rest
