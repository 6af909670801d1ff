-- ===== src/Convert/Main.antt =====
-- `main` of tools/convert.cc with the texts of its files: ip.txt, sym.txt, functions.txt and
-- filename.txt, all of which can be opened. readelf and addr2line are arguments, and so is what `strcmp`
-- gives for a text that exceeds the other, a positive number.
pub mod Functions
pub mod Addresses
pub mod Run
mod Tests
use racez.Base.{
  ℕ, zero, suc, ◌+◌, ◌-◌, ◌^◌, Bool, true, false, not, ◌&&◌, ◌||◌, List, [], ◌∷◌, ◌++◌, Option,
  none, some, map, ltb, ◌==◌, if◌then◌else◌, length, Outcome, ok, fault, assertion_failed, ◌>>=◌,
}
use racez.Record.{Record}
use racez.Convert.{RawLine, FunctionLine, RacezFunctionEntry, read_raw_file, convert_offset}
use racez.Convert.Files.{fgets, is_end, invalid_word, file_of, Combined, combine}
use racez.Convert.Numbers.{strtoll, hex_width, hex_digits, decimal}
use racez.Convert.Symbols.{ends_line, Symbols, read_sym_file}

-- `%08llx`
abbrev pub print_hex : ℕ → List ℕ
print_hex n = hex_digits (hex_width 8 8 n) n

-- A line of ip.txt, without its newline: `0x%08llx`, or the word.
unfoldable pub print_raw : RawLine → List ℕ
print_raw (RawLine.address a) = 48 ∷ 120 ∷ print_hex a
print_raw RawLine.invalid = invalid_word

-- `%lld` of 64 bits.
abbrev pub print_signed : ℕ → List ℕ
print_signed n = if ltb n (2 ^ 63) then decimal n else 45 ∷ decimal (2 ^ 64 - n)

-- A line of functions.txt, without its newline: `%s\t%lld`, or the word.
unfoldable pub print_function : FunctionLine → List ℕ
print_function (FunctionLine.function name offset) = name ++ 9 ∷ print_signed offset
print_function FunctionLine.invalid = invalid_word

-- `strcmp(a, b) > 0`
unfoldable pub exceeds : List ℕ → List ℕ → Bool
exceeds [] ys = false
exceeds (x ∷ xs) [] = true
exceeds (x ∷ xs) (y ∷ ys) = ltb y x || x == y && exceeds xs ys

-- A line of ip.txt that `ConvertIP` read.
unfoldable pub convert_buffer : ℕ → List RacezFunctionEntry → List ℕ → Outcome FunctionLine
convert_buffer compared functions buffer =
    if exceeds buffer invalid_word && compared == 1
    then ok FunctionLine.invalid
    else if ends_line buffer
    then convert_offset functions (strtoll 16 buffer)
    else fault assertion_failed

-- The loop of `ConvertIP`; none if the fuel is used up.
unfoldable pub convert_file :
    ℕ → ℕ → List RacezFunctionEntry → List ℕ → Outcome (Option (List FunctionLine))
convert_file zero compared functions file = ok none
convert_file (suc fuel) compared functions file =
    let (buffer, file') = fgets 99 file in
    let more = convert_file fuel compared functions file' in
    if is_end buffer then ok (some []) else (do
      line ← convert_buffer compared functions buffer
      lines ← more
      ok (elim lines [ none ↦ none | some ls ↦ some (line ∷ ls) ]))

abbrev pub functions_of : Option Symbols → List RacezFunctionEntry
functions_of none = []
functions_of (some s) = s.functions

abbrev pub lines_of : Option (List FunctionLine) → List FunctionLine
lines_of none = []
lines_of (some lines) = lines

-- What `main` leaves in its last file. What `ReadSymFile` returns is not tested.
unfoldable pub convert_main :
    (sort : List RacezFunctionEntry → List RacezFunctionEntry)
    → (compared : ℕ) → (symbol_table : List ℕ) → (addr2line : List ℕ → List ℕ) → List Record
    → Outcome (Option (List Combined))
convert_main sort compared symbol_table addr2line records =
    let ip = file_of (map print_raw (read_raw_file records)) in
    let filenames = addr2line ip in
    do
      symbols ← read_sym_file (some symbol_table)
      lines ← convert_file (suc (length ip)) compared (sort (functions_of symbols)) ip
      combine (suc (length filenames)) 0 filenames (file_of (map print_function (lines_of lines)))
