-- ===== src/Convert.antt =====
-- The converter of code addresses to functions, tools/convert.cc: the file of the addresses, and
-- `ConvertIP` on the table of the functions. A line of a file is kept as what it
-- tells; the modules Files, Symbols and Main are about the texts. Names are lists of bytes.
pub mod Numbers
pub mod Symbols
pub mod Main
pub mod Nearest
pub mod Files
pub mod Lines
mod Tests
use racez.Base.{
  ℕ, zero, suc, ◌+◌, ◌-◌, ◌%◌, ◌^◌, Bool, true, false, List, [], ◌∷◌, Option, none, some, map, ltb,
  ◌==◌, if◌then◌else◌, get_elem?, load, Outcome, ok, fault, out_of_bounds, cons_ok, ◌>>=◌,
}
use racez.Record.{Record, Op, RecordType}

-- A line of ip.txt.
pub data RawLine : Type 0 where
  address : ℕ → RawLine
  invalid : RawLine

-- A line of functions.txt: a function and an offset in it.
pub data FunctionLine : Type 0 where
  function : List ℕ → ℕ → FunctionLine
  invalid : FunctionLine

pub record RacezFunctionEntry : Type 0 where
  pub function_name : List ℕ
  pub offset : ℕ
  pub size : ℕ

unfoldable pub write_raw_record : Record → RawLine
write_raw_record r = elim r.kind [
  | RecordType.memory_op ↦ RawLine.address r.op.pip
  | _ ↦ RawLine.invalid
]

unfoldable pub read_raw_file : List Record → List RawLine
read_raw_file [] = []
read_raw_file (r ∷ rs) = write_raw_record r ∷ read_raw_file rs

-- What `strtoll` gives for a number: it stops at the largest `long long`.
abbrev pub long_long : ℕ → ℕ
long_long a = if ltb a (2 ^ 63) then a else 2 ^ 63 - 1

-- `lower_bound` with `MyCompare`.
unfoldable pub lower_bound : ℕ → List RacezFunctionEntry → ℕ
lower_bound a [] = 0
lower_bound a (x ∷ xs) = if ltb x.offset a then suc (lower_bound a xs) else 0

abbrev pub is_at : ℕ → Option RacezFunctionEntry → Bool
is_at a none = false
is_at a (some e) = e.offset == a

abbrev pub before : ℕ → List RacezFunctionEntry → Outcome RacezFunctionEntry
before zero xs = fault out_of_bounds
before (suc low) xs = load xs low

-- The entry at the bound, or the one before it if the bound is the end or has another offset.
unfoldable pub entry_at : ℕ → ℕ → List RacezFunctionEntry → Outcome RacezFunctionEntry
entry_at a low xs = if is_at a (get_elem? xs low) then load xs low else before low xs

unfoldable pub convert_offset : List RacezFunctionEntry → ℕ → Outcome FunctionLine
convert_offset functions offset = do
  e ← entry_at offset (lower_bound offset functions) functions
  ok (FunctionLine.function e.function_name ((offset + 2 ^ 64 - e.offset) % 2 ^ 64))

-- A line: `compared` is what `strcmp` gives for the line "invalid\n" and the word "invalid", a positive
-- number. A line that is not taken as invalid is read as a number, which is 0 for a word.
unfoldable pub convert_line : ℕ → List RacezFunctionEntry → RawLine → Outcome FunctionLine
convert_line compared functions (RawLine.address a) = convert_offset functions (long_long a)
convert_line compared functions RawLine.invalid =
    if compared == 1 then ok FunctionLine.invalid else convert_offset functions 0

unfoldable pub convert_lines :
    ℕ → List RacezFunctionEntry → List RawLine → Outcome (List FunctionLine)
convert_lines compared functions [] = ok []
convert_lines compared functions (l ∷ ls) = do
  line ← convert_line compared functions l
  cons_ok line (convert_lines compared functions ls)

-- `ConvertIP`, with `std::sort` as an argument: the order of entries with one offset is its choice.
unfoldable pub convert_ip :
    (List RacezFunctionEntry → List RacezFunctionEntry)
    → ℕ
    → List RacezFunctionEntry
    → List RawLine
    → Outcome (List FunctionLine)
convert_ip sort compared functions lines = convert_lines compared (sort functions) lines
