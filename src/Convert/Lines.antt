-- ===== src/Convert/Lines.antt =====
-- `Combine` of tools/convert.cc on files of lines.
use racez.Base.{
  and_split, ℕ, zero, suc, ◌<◌, ◌≡◌, refl, ap, true, false, not, List, [], ◌∷◌, ◌++◌, some, arith,
  ◌==◌, length, all, Bool-cases, inl, inr, ok, cons_ok,
}
use racez.Convert.Files.{
  newline, invalid_word, no_file_word, fgets, same_text, starts_with, chomp, is_end, combine,
  file_of, fits, combine_lines,
}

pub no_room : (l : List ℕ) → fits 0 l ≡ true → ⊥
no_room l h = ground arith

pub fits_head : (n c : ℕ) (l : List ℕ) → fits (suc n) (c ∷ l) ≡ true → (c == newline) ≡ false
fits_head n c l h = ground arith

pub fits_tail : (n c : ℕ) (l : List ℕ) → fits (suc n) (c ∷ l) ≡ true → fits n l ≡ true
fits_tail n c l h = ground arith

pub fgets-line :
    (n : ℕ) (l rest : List ℕ)
    → fits n l ≡ true
    → fgets n (l ++ newline ∷ rest) ≡ (l ++ newline ∷ [], rest)
unfolding fgets
fgets-line zero l rest h = absurd (no_room l h)
fgets-line (suc n) [] rest h = refl
fgets-line (suc n) (c ∷ l) rest h = rw (fits_head n c l h, fgets-line n l rest (fits_tail n c l h))

pub chomp-line : (l : List ℕ) → chomp (l ++ newline ∷ []) ≡ ok l
unfolding chomp
chomp-line [] = refl
chomp-line (x ∷ []) = refl
chomp-line (x ∷ y ∷ l) = ap (cons_ok x) (chomp-line (y ∷ l))

differ_at_end :
    (l w : List ℕ)
    → all (λ c. not (c == newline)) w ≡ true
    → same_text (l ++ newline ∷ []) w ≡ false
unfolding same_text
differ_at_end [] [] h = refl
differ_at_end [] (y ∷ w) h = ground arith
differ_at_end (x ∷ l) [] h = refl
differ_at_end (x ∷ l) (y ∷ w) h = ground (arith, differ_at_end l w)

-- The word "invalid" is compared with a line that ends in a newline.
never_invalid : (l : List ℕ) → same_text (l ++ newline ∷ []) invalid_word ≡ false
never_invalid l = differ_at_end l invalid_word refl

starts_with-line :
    (l : List ℕ) → starts_with no_file_word (l ++ newline ∷ []) ≡ starts_with no_file_word l
unfolding starts_with
starts_with-line [] = refl
starts_with-line (a ∷ []) = ground arith
starts_with-line (a ∷ b ∷ []) = ground arith
starts_with-line (a ∷ b ∷ c ∷ []) = ground arith
starts_with-line (a ∷ b ∷ c ∷ d ∷ l) = refl

pub fgets_nil : (n : ℕ) → fgets n [] ≡ ([], [])
unfolding fgets
fgets_nil zero = refl
fgets_nil (suc n) = refl

pub not_end : (l : List ℕ) → is_end (l ++ newline ∷ []) ≡ false
not_end [] = refl
not_end (x ∷ l) = refl

-- On files of lines that fit their buffers, `Combine` reads the two line by line and fails at no
-- assertion, with fuel for one round more than there are lines: each line of the result bears the
-- number of its two lines, from 0, and the lines that addr2line found no file for are left out. A line
-- of the functions that says "invalid" is not left out.
pub combine-lines :
    (fuel count : ℕ) (fs gs : List (List ℕ))
    → length fs < fuel
    → all (fits 1999) fs ≡ true
    → all (fits 199) gs ≡ true
    → combine fuel count (file_of fs) (file_of gs) ≡ ok (some (combine_lines count fs gs))
unfolding combine file_of combine_lines
combine-lines zero count fs gs h a b = absurd (omega arith)
combine-lines (suc fuel) count [] gs h a b = rw (fgets_nil 1999)
combine-lines (suc fuel) count (f ∷ fs) [] h a b =
    let line = fgets-line 1999 f (file_of fs) (and_split (fits 1999 f) (all (fits 1999) fs) a).0 in
    rw (line, not_end f, fgets_nil 199)
combine-lines (suc fuel) count (f ∷ fs) (g ∷ gs) h a b =
    let line = fgets-line 1999 f (file_of fs) (and_split (fits 1999 f) (all (fits 1999) fs) a).0 in
    let line' = fgets-line 199 g (file_of gs) (and_split (fits 199 g) (all (fits 199) gs) b).0 in
    let rest =
      combine-lines fuel (suc count) fs gs (omega arith)
        (and_split (fits 1999 f) (all (fits 1999) fs) a).1
        (and_split (fits 199 g) (all (fits 199) gs) b).1 in
    elim (Bool-cases (starts_with no_file_word f)) [
      | inl none_found ↦
          rw (
            line,
            line',
            not_end f,
            not_end g,
            never_invalid g,
            starts_with-line f,
            none_found,
            rest,
          )
      | inr found ↦ rw (
        line,
        line',
        not_end f,
        not_end g,
        never_invalid g,
        starts_with-line f,
        found,
        chomp-line f,
        chomp-line g,
        rest,
      )
    ]
