-- ===== src/Convert/Main/Run.antt =====
-- A whole run of tools/convert.cc, from the records and the table of the symbols to the last file.
use mathlib.Core.Path.{ap₂}
use racez.Base.{
  ap, ltb, ◌^◌, and_split, fault, cons_ok, ℕ, zero, suc, ◌<◌, ◌≡◌, refl, ◌∙◌, true, List, [], ◌∷◌,
  ◌++◌, Option, none, some, arith, all, length, ok, Outcome, ◌>>=◌, map,
}
use racez.Record.{Record}
use racez.Convert.{
  RawLine, FunctionLine, RacezFunctionEntry, convert_line, convert_lines, read_raw_file, convert_ip,
}
use racez.Convert.Numbers.{decimal}
use racez.Convert.Files.{newline, fits, file_of, combine_lines}
use racez.Convert.Lines.{fgets-line, fgets_nil, not_end, combine-lines}
use racez.Convert.Symbols.{strstr, symtab_word}
use racez.Convert.Symbols.Print.{Symbol, print_symbol, ArePrintable, entry_of}
use racez.Convert.Symbols.RoundTrip.{is_heading, length-file_of, read_sym_file-print}
use racez.Convert.Main.{
  print_signed, print_raw, print_function, convert_buffer, convert_file, convert_main,
}
use racez.Convert.Nearest.{IsSorted}
use racez.Convert.Main.Functions.{
  shown_line, is_near, fits_name, AreCovered, AreFound, convert_lines-AreFound,
}
use racez.Convert.Main.Addresses.{print_raw-fits, IsAddress, convert_buffer-print}

unfoldable pub AreAddresses : List RawLine → Type 0
AreAddresses [] = Unit {0}
AreAddresses (l ∷ ls) = IsAddress l × AreAddresses ls

-- What the loop makes of a line and the lines behind it.
abbrev more_lines : FunctionLine → Option (List FunctionLine) → Option (List FunctionLine)
more_lines line none = none
more_lines line (some ls) = some (line ∷ ls)

convert_file-end :
    (fuel compared : ℕ) (functions : List RacezFunctionEntry)
    → convert_file (suc fuel) compared functions [] ≡ ok (some [])
unfolding convert_file
convert_file-end fuel compared functions = rw (fgets_nil 99)

convert_file-round :
    (fuel compared : ℕ) (functions : List RacezFunctionEntry) (l rest : List ℕ)
    → fits 99 l ≡ true
    → convert_file (suc fuel) compared functions (l ++ newline ∷ rest) ≡ (
        convert_buffer compared functions (l ++ newline ∷ []) >>= λ line.
        convert_file fuel compared functions rest >>= λ lines. ok (more_lines line lines))
unfolding convert_file
convert_file-round fuel compared functions l rest h = rw (fgets-line 99 l rest h, not_end l)

abbrev done : List FunctionLine → Outcome (Option (List FunctionLine))
done lines = ok (some lines)

joined :
    (o : Outcome FunctionLine) (os : Outcome (List FunctionLine))
    → (o >>= λ line. (os >>= done) >>= λ lines. ok (more_lines line lines))
      ≡ ((o >>= λ line. cons_ok line os) >>= done)
joined (fault e) os = refl
joined (ok line) (fault e) = refl
joined (ok line) (ok lines) = refl

-- The loop of `ConvertIP` on the text of the lines is that on the lines.
convert_file-print :
    (fuel compared : ℕ) (functions : List RacezFunctionEntry) (ls : List RawLine)
    → AreAddresses ls
    → length (map print_raw ls) < fuel
    → convert_file fuel compared functions (file_of (map print_raw ls))
      ≡ (convert_lines compared functions ls >>= done)
unfolding AreAddresses file_of convert_lines
convert_file-print zero compared functions ls a h = absurd (omega arith)
convert_file-print (suc fuel) compared functions [] a h = convert_file-end fuel compared functions
convert_file-print (suc fuel) compared functions (l ∷ ls) (first, more) h =
    convert_file-round fuel compared functions (print_raw l) (file_of (map print_raw ls))
      (print_raw-fits l)
    ∙ ap₂ (λ o os. o >>= λ line. os >>= λ lines. ok (more_lines line lines))
        (convert_buffer-print compared functions l first)
        (convert_file-print fuel compared functions ls more (omega arith))
    ∙ joined (convert_line compared functions l) (convert_lines compared functions ls)

near_signed : (n : ℕ) → ltb n (2 ^ 63) ≡ true → print_signed n ≡ decimal n
near_signed n h = rw h refl

print_function_near : (l : FunctionLine) → is_near l ≡ true → print_function l ≡ shown_line l
unfolding print_function shown_line
print_function_near (FunctionLine.function name offset) h =
    ap (λ xs. name ++ 9 ∷ xs) (near_signed offset h)
print_function_near FunctionLine.invalid h = refl

print_functions_near :
    (ls : List FunctionLine) → all is_near ls ≡ true → map print_function ls ≡ map shown_line ls
print_functions_near [] h = refl
print_functions_near (l ∷ ls) h =
    let (first, more) = and_split (is_near l) (all is_near ls) h in
    ap₂ (λ x xs. x ∷ xs) (print_function_near l first) (print_functions_near ls more)

run_combines :
    (sort : List RacezFunctionEntry → List RacezFunctionEntry) (compared : ℕ)
    (headings : List (List ℕ)) (caption title : List ℕ) (symbols : List Symbol)
    (addr2line : List ℕ → List ℕ) (records : List Record) (filenames : List (List ℕ))
    (functions : List FunctionLine)
    → all is_heading headings ≡ true
    → fits 9999 caption ≡ true
    → strstr symtab_word (caption ++ newline ∷ []) ≡ true
    → fits 9999 title ≡ true
    → ArePrintable symbols
    → AreAddresses (read_raw_file records)
    → addr2line (file_of (map print_raw (read_raw_file records))) ≡ file_of filenames
    → all (fits 1999) filenames ≡ true
    → convert_ip sort compared (map entry_of symbols) (read_raw_file records) ≡ ok functions
    → all is_near functions ≡ true
    → all (fits 199) (map shown_line functions) ≡ true
    → convert_main sort compared
        (file_of (headings ++ caption ∷ title ∷ map print_symbol symbols))
        addr2line
        records
      ≡ ok (some (combine_lines 0 filenames (map shown_line functions)))
unfolding convert_main convert_ip
run_combines sort compared headings caption title symbols addr2line records filenames functions hs c
      found t p addresses lines room converted near room' =
    let ip = map print_raw (read_raw_file records) in
    rw (
      read_sym_file-print headings caption title symbols hs c found t p,
      convert_file-print (suc (length (file_of ip))) compared (sort (map entry_of symbols))
          (read_raw_file records) addresses (omega (arith, length-file_of ip)),
      converted,
      lines,
      print_functions_near functions near,
      combine-lines (suc (length (file_of filenames))) 0 filenames (map shown_line functions)
          (omega (arith, length-file_of filenames)) room room',
    )

AreCovered-AreAddresses :
    (compared : ℕ) (first : RacezFunctionEntry) (ls : List RawLine)
    → AreCovered compared first ls
    → AreAddresses ls
unfolding AreAddresses
AreCovered-AreAddresses compared first [] c = tt
AreCovered-AreAddresses compared first (RawLine.address a ∷ ls) (c, cs) =
    (omega (arith, c.1), AreCovered-AreAddresses compared first ls cs)
AreCovered-AreAddresses compared first (RawLine.invalid ∷ ls) (c, cs) =
    (tt, AreCovered-AreAddresses compared first ls cs)

-- A run on the table that readelf prints of some symbols, when the sort gives their entries in the order
-- of their offsets, with names of less than 178 bytes on one line, each address of an access is at the
-- first function or behind it and below 2 ^ 63 (and where a record has no address, strcmp gives 1 for its
-- line or the first function is at 0), and addr2line prints lines that fit the buffer. Then `main` ends, and
-- its last file shows side by side the lines of addr2line and, for each address, the nearest function at or
-- before it with a tab and its distance in decimal, numbered, without the lines where addr2line names no
-- file. A line without an address is shown as invalid where strcmp gives 1, and else as the address 0.
pub convert_main-combines :
    (sort : List RacezFunctionEntry → List RacezFunctionEntry) (compared : ℕ)
    (headings : List (List ℕ)) (caption title : List ℕ) (symbols : List Symbol)
    (first : RacezFunctionEntry) (rest : List RacezFunctionEntry) (addr2line : List ℕ → List ℕ)
    (records : List Record) (filenames : List (List ℕ))
    → all is_heading headings ≡ true
    → fits 9999 caption ≡ true
    → strstr symtab_word (caption ++ newline ∷ []) ≡ true
    → fits 9999 title ≡ true
    → ArePrintable symbols
    → sort (map entry_of symbols) ≡ first ∷ rest
    → IsSorted (first ∷ rest)
    → all fits_name (first ∷ rest) ≡ true
    → AreCovered compared first (read_raw_file records)
    → addr2line (file_of (map print_raw (read_raw_file records))) ≡ file_of filenames
    → all (fits 1999) filenames ≡ true
    → (functions : List FunctionLine) × AreFound compared
        (first ∷ rest)
        (read_raw_file records)
        functions
      × (convert_main sort compared
            (file_of (headings ++ caption ∷ title ∷ map print_symbol symbols))
            addr2line
            records
          ≡ ok (some (combine_lines 0 filenames (map shown_line functions))))
unfolding convert_ip
convert_main-combines sort compared headings caption title symbols first rest addr2line records
      filenames hs c found t p sorted order names covered lines room =
    let (functions, done, nearest, near, text) =
      convert_lines-AreFound compared first rest order names (read_raw_file records) covered in
    (
      functions,
      nearest,
      run_combines sort compared headings caption title symbols addr2line records filenames
          functions hs c found t p
          (AreCovered-AreAddresses compared first (read_raw_file records) covered) lines room
          (rw sorted done) near text,
    )
