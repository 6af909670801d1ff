-- ===== src/Convert/Symbols/Fields.antt =====
-- `strchr` and the skipped spaces of `ReadSymFile` (tools/convert.cc) on printed fields.
use racez.Base.{
  and_split, ℕ, zero, suc, ◌≡◌, refl, true, false, not, List, [], ◌∷◌, ◌++◌, some, arith, ◌==◌, all,
  ok,
}
use racez.Convert.Files.{is_end}
use racez.Convert.Symbols.{space, strchr, skip_spaces, skip_field}
use racez.Convert.Symbols.Print.{Field, spaces, print_field, is_part, is_word}

pub strchr-append :
    (d : ℕ) (w rest : List ℕ)
    → all (λ c. not (c == d)) w ≡ true
    → strchr d (w ++ d ∷ rest) ≡ some (w, rest)
unfolding strchr
strchr-append d [] rest h = let same : (d == d) ≡ true = ground arith in rw same
strchr-append d (c ∷ w) rest h =
    let other : (c == d) ≡ false = ground arith in
    rw (other, strchr-append d w rest (and_split (not (c == d)) (all (λ c. not (c == d)) w) h).1)

pub no_space : (w : List ℕ) → all is_part w ≡ true → all (λ c. not (c == space)) w ≡ true
no_space [] h = refl
no_space (c ∷ w) h =
    let (first, more) = and_split (is_part c) (all is_part w) h in
    let rest = no_space w more in ground (arith, first)

skip_spaces-word : (w rest : List ℕ) → is_word w ≡ true → skip_spaces (w ++ rest) ≡ w ++ rest
unfolding skip_spaces
skip_spaces-word [] rest h = ground arith
skip_spaces-word (c ∷ w) rest h = let other : (c == space) ≡ false = ground arith in rw other

pub skip_spaces-spaces :
    (n : ℕ) (w rest : List ℕ) → is_word w ≡ true → skip_spaces (spaces n ++ (w ++ rest)) ≡ w ++ rest
unfolding skip_spaces spaces
skip_spaces-spaces zero w rest h = skip_spaces-word w rest h
skip_spaces-spaces (suc n) w rest h = skip_spaces-spaces n w rest h

pub skip_field-print :
    (f : Field) (rest : List ℕ)
    → is_word f.word ≡ true
    → skip_field (skip_spaces (print_field f rest)) ≡ ok rest
unfolding skip_field
skip_field-print f rest h =
    let (_, parts) = and_split (not (is_end f.word)) (all is_part f.word) h in
    rw (
      skip_spaces-spaces f.pad f.word (space ∷ rest) h,
      strchr-append space f.word rest (no_space f.word parts),
    )
