-- ===== src/Convert/Symbols/Ends.antt =====
-- How the loop of `ReadSymFile` of tools/convert.cc ends.
use racez.Base.{
  ◌==◌, ◌&&◌, ◌||◌, or_split, ℕ, zero, suc, ◌+◌, ◌<◌, ◌≡◌, ◌≢◌, refl, sym, ap, ◌∙◌, ◌⊎◌, inl, inr,
  true, false, not, List, [], ◌∷◌, Option, none, some, arith, leb, Bool-cases, Option-cases, length,
  Outcome, ok, fault, Fault, ◌>>=◌,
}
use racez.Convert.{RacezFunctionEntry}
use racez.Convert.Files.{newline, fgets, is_end}
use racez.Convert.Symbols.{
  SymFile, hits_end, ends_line, read_sym_line, Symbols, push, next_occ, parse_symbol, read_symbols,
  read_sym_file,
}

pub Outcome-cases {ℓ} :
    {A : Type ℓ} (o : Outcome A) → ((f : Fault) × (o ≡ fault f)) ⊎ ((a : A) × (o ≡ ok a))
Outcome-cases (fault f) = inl (f, refl)
Outcome-cases (ok a) = inr (a, refl)

-- What `fgets` leaves is shorter by the line.
length-fgets :
    (n : ℕ) (file : List ℕ) → length (fgets n file).0 + length (fgets n file).1 ≡ length file
unfolding fgets
length-fgets zero file = omega arith
length-fgets (suc n) [] = refl
length-fgets (suc n) (c ∷ file) =
    let rest = length-fgets n file in
    elim (Bool-cases (c == newline)) [
      | inl ends ↦ rw ends (omega arith)
      | inr goes ↦ rw goes (omega (arith, rest))
    ]

not_empty : (xs : List ℕ) → is_end xs ≡ false → 0 < length xs
not_empty [] h = cc
not_empty (x ∷ xs) h = omega arith

-- A line that is read makes the file shorter.
read_sym_line-shorter :
    (file : SymFile) (line : List ℕ) (file' : SymFile)
    → read_sym_line file ≡ ok (some (line, file'))
    → length file'.left < length file.left
unfolding read_sym_line
read_sym_line-shorter file line file' h =
    elim (Bool-cases (file.eof || is_end (fgets 9999 file.left).0)) [
      | inl ended ↦ ground arith
      | inr more ↦
          (let size = length-fgets 9999 file.left in
            let some_taken =
              not_empty (fgets 9999 file.left).0
                (or_split file.eof (is_end (fgets 9999 file.left).0) more).1 in
            elim (Bool-cases
              (not (ends_line (fgets 9999 file.left).0) && not (hits_end 9999 file.left))) [
                | inl long ↦ ground arith
                | inr short ↦ ground arith
              ])
    ]

-- What a round comes to, by the line and what is made of it.
round_fault :
    (fuel n : ℕ) (file : SymFile) (f : Fault)
    → read_sym_line file ≡ fault f
    → read_symbols (suc fuel) n file ≡ fault f
unfolding read_symbols
round_fault fuel n file f h = rw h

round_end :
    (fuel n : ℕ) (file : SymFile)
    → read_sym_line file ≡ ok none
    → read_symbols (suc fuel) n file ≡ ok (some (record { functions = []; parsed = true }))
unfolding read_symbols
round_end fuel n file h = rw h

round_early :
    (fuel n : ℕ) (file : SymFile) (line : List ℕ) (file' : SymFile)
    → read_sym_line file ≡ ok (some (line, file'))
    → leb (next_occ n line) 2 ≡ true
    → read_symbols (suc fuel) n file ≡ read_symbols fuel (next_occ n line) file'
unfolding read_symbols
round_early fuel n file line file' h early = rw (h, early)

pub round_row_fault :
    (fuel n : ℕ) (file : SymFile) (line : List ℕ) (file' : SymFile) (f : Fault)
    → read_sym_line file ≡ ok (some (line, file'))
    → leb (next_occ n line) 2 ≡ false
    → parse_symbol line ≡ fault f
    → read_symbols (suc fuel) n file ≡ fault f
unfolding read_symbols
round_row_fault fuel n file line file' f h late parsed = rw (h, late, parsed)

pub round_row_error :
    (fuel n : ℕ) (file : SymFile) (line : List ℕ) (file' : SymFile)
    → read_sym_line file ≡ ok (some (line, file'))
    → leb (next_occ n line) 2 ≡ false
    → parse_symbol line ≡ ok none
    → read_symbols (suc fuel) n file ≡ ok (some (record { functions = []; parsed = false }))
unfolding read_symbols
round_row_error fuel n file line file' h late parsed = rw (h, late, parsed)

pub round_row :
    (fuel n : ℕ) (file : SymFile) (line : List ℕ) (file' : SymFile) (e : RacezFunctionEntry)
    → read_sym_line file ≡ ok (some (line, file'))
    → leb (next_occ n line) 2 ≡ false
    → parse_symbol line ≡ ok (some e)
    → read_symbols (suc fuel) n file
      ≡ (read_symbols fuel (next_occ n line) file' >>= λ s. ok (push e s))
unfolding read_symbols
round_row fuel n file line file' e h late parsed = rw (h, late, parsed)

push-some :
    (e : RacezFunctionEntry) (o : Outcome (Option Symbols))
    → o ≢ ok none
    → (o >>= λ s. ok (push e s)) ≢ ok none
push-some e (fault f) h k = cc
push-some e (ok none) h k = h refl
push-some e (ok (some s)) h k = cc

row_ends :
    (fuel n : ℕ) (file : SymFile) (line : List ℕ) (file' : SymFile)
    → read_symbols fuel (next_occ n line) file' ≢ ok none
    → read_sym_line file ≡ ok (some (line, file'))
    → leb (next_occ n line) 2 ≡ false
    → read_symbols (suc fuel) n file ≢ ok none
row_ends fuel n file line file' ends h late k = elim (Outcome-cases (parse_symbol line)) [
  | inl (f, bad) ↦ (let r = round_row_fault fuel n file line file' f h late bad in cc)
  | inr (o, parsed) ↦ (elim (Option-cases o) [
    | inl is_none ↦
        (let r = round_row_error fuel n file line file' h late (parsed ∙ ap ok is_none) in cc)
    | inr (e, is_some) ↦
        push-some e (read_symbols fuel (next_occ n line) file') ends
          (sym (round_row fuel n file line file' e h late (parsed ∙ ap ok is_some)) ∙ k)
  ])
]

read_symbols-ends :
    (fuel n : ℕ) (file : SymFile) → length file.left < fuel → read_symbols fuel n file ≢ ok none
read_symbols-ends zero n file h k = absurd (omega arith)
read_symbols-ends (suc fuel) n file h k = elim (Outcome-cases (read_sym_line file)) [
  | inl (f, bad) ↦ (let r = round_fault fuel n file f bad in cc)
  | inr (o, got) ↦ (elim (Option-cases o) [
    | inl is_none ↦ (let r = round_end fuel n file (got ∙ ap ok is_none) in cc)
    | inr ((line, file'), is_some) ↦
        (let read = got ∙ ap ok is_some in
          let room = read_sym_line-shorter file line file' read in
          elim (Bool-cases (leb (next_occ n line) 2)) [
            | inl early ↦
                read_symbols-ends fuel (next_occ n line) file' (omega (arith, room))
                  (sym (round_early fuel n file line file' read early) ∙ k)
            | inr late ↦
                row_ends fuel n file line file'
                  (read_symbols-ends fuel (next_occ n line) file' (omega (arith, room))) read late k
          ])
  ])
]

-- The loop ends on every file: each round but the last takes a byte at least, so that one round more
-- than the file has bytes is enough.
pub read_sym_file-ends : (file : Option (List ℕ)) → read_sym_file file ≢ ok none
unfolding read_sym_file
read_sym_file-ends none k = cc
read_sym_file-ends (some file) k =
    read_symbols-ends (suc (length file)) 0 (record { left = file; eof = false }) (omega arith) k
