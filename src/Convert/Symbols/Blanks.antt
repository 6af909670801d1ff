-- ===== src/Convert/Symbols/Blanks.antt =====
-- `ReadSymFile` of tools/convert.cc on a line of the table with no space behind its first word.
use racez.Base.{
  ℕ, zero, suc, ◌<◌, ◌≡◌, true, false, List, [], ◌∷◌, ◌++◌, none, some, arith, leb, all, length,
  map, fault, null_pointer, ◌∙◌,
}
use racez.Convert.Files.{newline, fits, file_of}
use racez.Convert.Symbols.{
  space, strchr, skip_spaces, skip_field, parse_symbol, strstr, symtab_word, read_symbols,
  read_sym_file, next_occ,
}
use racez.Convert.Symbols.Print.{Symbol, print_symbol, ArePrintable, entry_of}
use racez.Convert.Symbols.Rows.{parse_symbol-print}
use racez.Convert.Symbols.RoundTrip.{
  unread, is_heading, table, read_sym_line-line, next_occ-suc, read_symbols-headed, length-file_of,
}
use racez.Convert.Symbols.Ends.{round_row, round_row_fault}

-- A line on which no space follows the first word.
abbrev pub HasOneWord : List ℕ → Type 0
HasOneWord l = strchr space (skip_spaces (l ++ newline ∷ [])) ≡ none

parse_symbol_fails :
    (l : List ℕ) → HasOneWord l → parse_symbol (l ++ newline ∷ []) ≡ fault null_pointer
unfolding parse_symbol skip_field
parse_symbol_fails l h = rw h

is_late : (n : ℕ) (line : List ℕ) → leb (next_occ (suc (suc n)) line) 2 ≡ false
is_late n line =
    let late : leb (suc (suc (suc n))) 2 ≡ false = ground arith in
    rw (next_occ-suc (suc n) line, late)

read_symbols-one_word :
    (fuel n : ℕ) (symbols : List Symbol) (l : List ℕ) (after : List (List ℕ))
    → ArePrintable symbols
    → fits 9999 l ≡ true
    → HasOneWord l
    → length (table symbols ++ l ∷ after) < fuel
    → read_symbols fuel (suc (suc n)) (unread (file_of (table symbols ++ l ∷ after)))
      ≡ fault null_pointer
unfolding file_of ArePrintable
read_symbols-one_word zero n symbols l after p room one h = absurd (omega arith)
read_symbols-one_word (suc fuel) n [] l after p room one h =
    round_row_fault fuel (suc (suc n)) (unread (l ++ newline ∷ file_of after)) (l ++ newline ∷ [])
      (unread (file_of after)) null_pointer (read_sym_line-line l (file_of after) room)
      (is_late n (l ++ newline ∷ [])) (parse_symbol_fails l one)
read_symbols-one_word (suc fuel) n (s ∷ symbols) l after (first, more) room one h =
    let rest = file_of (table symbols ++ l ∷ after) in
    let line = print_symbol s ++ newline ∷ [] in
    round_row fuel (suc (suc n)) (unread (print_symbol s ++ newline ∷ rest)) line (unread rest)
      (entry_of s) (read_sym_line-line (print_symbol s) rest first.fits_buffer) (is_late n line)
      (parse_symbol-print s first)
    ∙ rw (
      next_occ-suc (suc n) line,
      read_symbols-one_word fuel (suc n) symbols l after more room one (omega arith),
    )

-- A line of the table with no space behind its first word, such as an empty line, behind printed symbols,
-- ends `ReadSymFile` with a null pointer, and not with its message on a line that cannot be parsed.
pub read_sym_file-one_word :
    (headings : List (List ℕ)) (caption title : List ℕ) (symbols : List Symbol) (l : List ℕ)
    (after : List (List ℕ))
    → all is_heading headings ≡ true
    → fits 9999 caption ≡ true
    → strstr symtab_word (caption ++ newline ∷ []) ≡ true
    → fits 9999 title ≡ true
    → ArePrintable symbols
    → fits 9999 l ≡ true
    → strchr space (skip_spaces (l ++ newline ∷ [])) ≡ none
    → read_sym_file
        (some (file_of (headings ++ caption ∷ title ∷ (map print_symbol symbols ++ l ∷ after))))
      ≡ fault null_pointer
unfolding read_sym_file
read_sym_file-one_word headings caption title symbols l after hs c found t p room one =
    let rows = table symbols ++ l ∷ after in
    let lines = headings ++ caption ∷ title ∷ rows in
    read_symbols-headed rows (fault null_pointer) (suc (length (file_of lines))) headings caption
      title hs c found t
      (λ fuel enough. read_symbols-one_word fuel 0 symbols l after p room one enough)
      (omega (arith, length-file_of lines))
