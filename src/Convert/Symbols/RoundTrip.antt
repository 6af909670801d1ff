-- ===== src/Convert/Symbols/RoundTrip.antt =====
-- `ReadSymFile` of tools/convert.cc on the table that readelf prints.
use racez.Base.{
  Outcome, Option, Bool, ℕ, zero, suc, ◌+◌, ◌≤◌, ◌<◌, ◌≡◌, refl, ◌∙◌, true, false, not, ◌&&◌, List,
  [], ◌∷◌, ◌++◌, some, none, arith, leb, ◌==◌, all, length, length-append, and_split, map, ok,
}
use racez.Convert.{RacezFunctionEntry}
use racez.Convert.Files.{newline, fits, file_of}
use racez.Convert.Lines.{fits_head, fits_tail, fgets-line, fgets_nil, not_end}
use racez.Convert.Symbols.{
  SymFile, hits_end, ends_line, read_sym_line, Symbols, push, is_before, next_occ, parse_symbol,
  read_symbols, read_sym_file, strstr, symtab_word,
}
use racez.Convert.Symbols.Print.{Symbol, print_symbol, ArePrintable, entry_of}
use racez.Convert.Symbols.Rows.{parse_symbol-print}

hits_end-line :
    (n : ℕ) (l rest : List ℕ) → fits n l ≡ true → hits_end n (l ++ newline ∷ rest) ≡ false
unfolding hits_end
hits_end-line zero l rest h = refl
hits_end-line (suc n) [] rest h = refl
hits_end-line (suc n) (c ∷ l) rest h =
    rw (fits_head n c l h, hits_end-line n l rest (fits_tail n c l h))

pub ends_line-line : (l : List ℕ) → ends_line (l ++ newline ∷ []) ≡ true
ends_line-line [] = refl
ends_line-line (c ∷ []) = refl
ends_line-line (c ∷ d ∷ l) = ends_line-line (d ∷ l)

abbrev pub unread : List ℕ → SymFile
unread left = record { left = left; eof = false }

pub read_sym_line-line :
    (l rest : List ℕ)
    → fits 9999 l ≡ true
    → read_sym_line (unread (l ++ newline ∷ rest)) ≡ ok (some (l ++ newline ∷ [], unread rest))
unfolding read_sym_line
read_sym_line-line l rest h =
    rw (fgets-line 9999 l rest h, hits_end-line 9999 l rest h, not_end l, ends_line-line l)

read_sym_line_nil : read_sym_line (unread []) ≡ ok none
unfolding read_sym_line
read_sym_line_nil = rw (fgets_nil 9999)

read_symbols-end :
    (fuel n : ℕ)
    → read_symbols (suc fuel) n (unread []) ≡ ok (some (record { functions = []; parsed = true }))
unfolding read_symbols
read_symbols-end fuel n = rw read_sym_line_nil

and_false : (b : Bool) → (b && false) ≡ false
and_false true = refl
and_false false = refl

-- A line before the table.
abbrev pub is_heading : List ℕ → Bool
is_heading l = fits 9999 l && not (strstr symtab_word (l ++ newline ∷ []))

abbrev pub table : List Symbol → List (List ℕ)
table symbols = map print_symbol symbols

abbrev pub read_all : List Symbol → Symbols
read_all symbols = record { functions = map entry_of symbols; parsed = true }

not_before : (n : ℕ) (line : List ℕ) → is_before (suc n) line ≡ false
not_before n line =
    let begun : (suc n == 0) ≡ false = ground arith in
    rw (begun, and_false (not (strstr symtab_word line)))

pub next_occ-suc : (n : ℕ) (line : List ℕ) → next_occ (suc n) line ≡ suc (suc n)
next_occ-suc n line = rw (not_before n line)

-- A round of the loop on a line of the table.
pub read_symbols-row :
    (fuel n n' : ℕ) (file line rest : List ℕ) (e : RacezFunctionEntry) (s : Symbols)
    → read_sym_line (unread file) ≡ ok (some (line, unread rest))
    → next_occ n line ≡ n'
    → 2 < n'
    → parse_symbol line ≡ ok (some e)
    → read_symbols fuel n' (unread rest) ≡ ok (some s)
    → read_symbols (suc fuel) n (unread file) ≡ ok (push e (some s))
unfolding read_symbols
read_symbols-row fuel n n' file line rest e s next count large parsed more =
    let late : leb n' 2 ≡ false = ground arith in rw (next, count, late, parsed, count, more)

-- A round on a line that the loop takes no entry of.
read_symbols-skip :
    (fuel n n' : ℕ) (file line rest : List ℕ)
    → read_sym_line (unread file) ≡ ok (some (line, unread rest))
    → next_occ n line ≡ n'
    → n' ≤ 2
    → read_symbols (suc fuel) n (unread file) ≡ read_symbols fuel n' (unread rest)
unfolding read_symbols
read_symbols-skip fuel n n' file line rest next count small =
    let early : leb n' 2 ≡ true = ground arith in rw (next, count, early)

read_symbols-table :
    (fuel n : ℕ) (symbols : List Symbol)
    → ArePrintable symbols
    → length (table symbols) < fuel
    → read_symbols fuel (suc (suc n)) (unread (file_of (table symbols)))
      ≡ ok (some (read_all symbols))
unfolding file_of ArePrintable
read_symbols-table zero n symbols p h = absurd (omega arith)
read_symbols-table (suc fuel) n [] p h = read_symbols-end fuel (suc (suc n))
read_symbols-table (suc fuel) n (s ∷ symbols) (first, more) h =
    read_symbols-row fuel (suc (suc n)) (suc (suc (suc n)))
      (print_symbol s ++ newline ∷ file_of (table symbols)) (print_symbol s ++ newline ∷ [])
      (file_of (table symbols)) (entry_of s) (read_all symbols)
      (read_sym_line-line (print_symbol s) (file_of (table symbols)) first.fits_buffer)
      (next_occ-suc (suc n) (print_symbol s ++ newline ∷ [])) (omega arith)
      (parse_symbol-print s first) (read_symbols-table fuel (suc n) symbols more (omega arith))

next_occ-before : (l : List ℕ) → not (strstr symtab_word l) ≡ true → next_occ 0 l ≡ 0
next_occ-before l h = rw h

next_occ-found : (l : List ℕ) → strstr symtab_word l ≡ true → next_occ 0 l ≡ 1
next_occ-found l h = rw h

-- The lines before the rows of the table, which the loop takes no entry of.
module _ (rows : List (List ℕ)) (result : Outcome (Option Symbols)) where
  read_symbols-titled :
      (fuel : ℕ) (caption title : List ℕ)
      → fits 9999 caption ≡ true
      → strstr symtab_word (caption ++ newline ∷ []) ≡ true
      → fits 9999 title ≡ true
      → ((fuel : ℕ) → length rows < fuel → read_symbols fuel 2 (unread (file_of rows)) ≡ result)
      → length rows + 2 < fuel
      → read_symbols fuel 0 (unread (file_of (caption ∷ title ∷ rows))) ≡ result
  unfolding file_of
  read_symbols-titled (suc (suc fuel)) caption title c found t p h =
      read_symbols-skip (suc fuel) 0 1 (caption ++ newline ∷ (title ++ newline ∷ file_of rows))
        (caption ++ newline ∷ []) (title ++ newline ∷ file_of rows)
        (read_sym_line-line caption (title ++ newline ∷ file_of rows) c)
        (next_occ-found (caption ++ newline ∷ []) found) (omega arith)
      ∙ read_symbols-skip fuel 1 2 (title ++ newline ∷ file_of rows) (title ++ newline ∷ [])
          (file_of rows) (read_sym_line-line title (file_of rows) t)
          (next_occ-suc 0 (title ++ newline ∷ [])) (omega arith)
      ∙ p fuel (omega arith)
  read_symbols-titled zero caption title c found t p h = absurd (omega arith)
  read_symbols-titled (suc zero) caption title c found t p h = absurd (omega arith)

  pub read_symbols-headed :
      (fuel : ℕ) (headings : List (List ℕ)) (caption title : List ℕ)
      → all is_heading headings ≡ true
      → fits 9999 caption ≡ true
      → strstr symtab_word (caption ++ newline ∷ []) ≡ true
      → fits 9999 title ≡ true
      → ((fuel : ℕ) → length rows < fuel → read_symbols fuel 2 (unread (file_of rows)) ≡ result)
      → length (headings ++ caption ∷ title ∷ rows) < fuel
      → read_symbols fuel 0 (unread (file_of (headings ++ caption ∷ title ∷ rows))) ≡ result
  unfolding file_of
  read_symbols-headed fuel [] caption title hs c found t p h =
      read_symbols-titled fuel caption title c found t p (omega arith)
  read_symbols-headed zero (l ∷ hs) caption title heads c found t p h = absurd (omega arith)
  read_symbols-headed (suc fuel) (l ∷ hs) caption title heads c found t p h =
      let (first, more) = and_split (is_heading l) (all is_heading hs) heads in
      let (room, other) =
        and_split (fits 9999 l) (not (strstr symtab_word (l ++ newline ∷ []))) first in
      let rest = file_of (hs ++ caption ∷ title ∷ rows) in
      read_symbols-skip fuel 0 0 (l ++ newline ∷ rest) (l ++ newline ∷ []) rest
        (read_sym_line-line l rest room) (next_occ-before (l ++ newline ∷ []) other) (omega arith)
      ∙ read_symbols-headed fuel hs caption title more c found t p (omega arith)

pub length-file_of : (ls : List (List ℕ)) → length ls ≤ length (file_of ls)
unfolding file_of
length-file_of [] = omega arith
length-file_of (l ∷ ls) = omega (arith, length-append l (newline ∷ file_of ls), length-file_of ls)

-- A symbol table as readelf prints it: lines that do not name ".symtab", a caption that does, a title,
-- and a line for each symbol, all of them short enough for the buffer; the fields of a symbol are words,
-- and its value and its size are below 2 ^ 63. The size is printed in decimal below 100000, and in
-- hexadecimal with 0x from there on. Then `ReadSymFile` returns true, with an entry for each
-- symbol, in their order, which has its name, its value and its size.
pub read_sym_file-print :
    (headings : List (List ℕ)) (caption title : List ℕ) (symbols : List Symbol)
    → all is_heading headings ≡ true
    → fits 9999 caption ≡ true
    → strstr symtab_word (caption ++ newline ∷ []) ≡ true
    → fits 9999 title ≡ true
    → ArePrintable symbols
    → read_sym_file (some (file_of (headings ++ caption ∷ title ∷ map print_symbol symbols)))
      ≡ ok (some (record { functions = map entry_of symbols; parsed = true }))
unfolding read_sym_file
read_sym_file-print headings caption title symbols hs c found t p =
    let lines = headings ++ caption ∷ title ∷ table symbols in
    read_symbols-headed (table symbols) (ok (some (read_all symbols)))
      (suc (length (file_of lines))) headings caption title hs c found t
      (λ fuel room. read_symbols-table fuel 0 symbols p room) (omega (arith, length-file_of lines))
