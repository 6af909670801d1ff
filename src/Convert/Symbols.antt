-- ===== src/Convert/Symbols.antt =====
-- `ReadSymLine` and `ReadSymFile` of tools/convert.cc over the bytes of the symbol table. A file has no
-- byte 0 and less than 2 ^ 31 lines, and the buffer can be had. The loop runs on fuel.
pub mod Print
mod Fields
mod Rows
pub mod RoundTrip
pub mod Ends
pub mod Blanks
use racez.Base.{
  ℕ, zero, suc, ◌+◌, Bool, true, false, not, ◌&&◌, ◌||◌, List, [], ◌∷◌, Option, none, some, map,
  ltb, leb, ◌==◌, if◌then◌else◌, length, Outcome, ok, fault, null_pointer, assertion_failed, ◌>>=◌,
}
use racez.Convert.{RacezFunctionEntry}
use racez.Convert.Files.{newline, fgets, starts_with, is_end}
use racez.Convert.Numbers.{strtoll}
use mathlib.Core.Option

abbrev pub space : ℕ
space = 32

-- `fgets` that stops at the end of the file, with fewer bytes than it can take.
unfoldable pub hits_end : ℕ → List ℕ → Bool
hits_end zero file = false
hits_end (suc n) [] = true
hits_end (suc n) (c ∷ file) = let more = hits_end n file in if c == newline then false else more

abbrev pub ends_line : List ℕ → Bool
ends_line [] = false
ends_line (c ∷ []) = c == newline
ends_line (c ∷ d ∷ line) = ends_line (d ∷ line)

-- A file that is read: what is left, and whether its end was hit.
pub record SymFile : Type 0 where
  pub left : List ℕ
  pub eof : Bool

-- `ReadSymLine` into a buffer of 10000 bytes: none at the end of the file.
unfoldable pub read_sym_line : SymFile → Outcome (Option (List ℕ × SymFile))
read_sym_line file =
    let (line, left) = fgets 9999 file.left in
    let eof = hits_end 9999 file.left in
    if file.eof || is_end line
    then ok none
    else if not (ends_line line) && not eof
    then fault assertion_failed
    else ok (some (line, record { left = left; eof = eof }))

-- `strstr(text, word) != NULL`
unfoldable pub strstr : List ℕ → List ℕ → Bool
strstr word [] = starts_with word []
strstr word (c ∷ text) = starts_with word (c ∷ text) || strstr word text

-- `strchr`: the text before the byte, which is what is left of it behind `*delim = '\0'`, and the text
-- behind it.
unfoldable pub strchr : ℕ → List ℕ → Option (List ℕ × List ℕ)
strchr d [] = none
strchr d (c ∷ text) =
    let more = strchr d text in
    if c == d then some ([], text) else Option.map (λ split. (c ∷ split.0, split.1)) more

-- The bytes of ".symtab".
abbrev pub symtab_word : List ℕ
symtab_word = 46 ∷ 115 ∷ 121 ∷ 109 ∷ 116 ∷ 97 ∷ 98 ∷ []

-- `while (*ptr == ' ') ptr++`
unfoldable pub skip_spaces : List ℕ → List ℕ
skip_spaces [] = []
skip_spaces (c ∷ text) = let rest = skip_spaces text in if c == space then rest else c ∷ text

-- The text behind the next space: `strchr` is not tested, and a pointer behind NULL is read through.
abbrev pub behind : Option (List ℕ × List ℕ) → Outcome (List ℕ)
behind none = fault null_pointer
behind (some (before, after)) = ok after

unfoldable pub skip_field : List ℕ → Outcome (List ℕ)
skip_field text = behind (strchr space text)

unfoldable pub skip_fields : ℕ → List ℕ → Outcome (List ℕ)
skip_fields zero text = ok text
skip_fields (suc n) text = do rest ← skip_field (skip_spaces text); skip_fields n rest

-- The name, which goes to the end of the line.
abbrev pub named : ℕ → ℕ → Option (List ℕ × List ℕ) → Option RacezFunctionEntry
named offset size none = none
named offset size (some (name, rest)) =
    some (record { function_name = name; offset = offset; size = size })

abbrev pub parse_size : ℕ → Option (List ℕ × List ℕ) → Outcome (Option RacezFunctionEntry)
parse_size offset none = ok none
parse_size offset (some (size, rest)) = do
  name ← skip_fields 4 rest
  ok (named offset (strtoll 0 size) (strchr newline name))

abbrev pub parse_value : Option (List ℕ × List ℕ) → Outcome (Option RacezFunctionEntry)
parse_value none = ok none
parse_value (some (value, rest)) = parse_size (strtoll 16 value) (strchr space (skip_spaces rest))

-- The body of the loop on a line of the table: none at `parse_error`.
unfoldable pub parse_symbol : List ℕ → Outcome (Option RacezFunctionEntry)
parse_symbol line = do value ← skip_field (skip_spaces line); parse_value (strchr space value)

-- The entries pushed, and what the function returns.
pub record Symbols : Type 0 where
  pub functions : List RacezFunctionEntry
  pub parsed : Bool

abbrev pub push : RacezFunctionEntry → Option Symbols → Option Symbols
push e none = none
push e (some s) = some (record s { functions = e ∷ s.functions })

-- A line before the one with ".symtab".
abbrev pub is_before : ℕ → List ℕ → Bool
is_before first_occ line = not (strstr symtab_word line) && first_occ == 0

abbrev pub next_occ : ℕ → List ℕ → ℕ
next_occ first_occ line = if is_before first_occ line then first_occ else suc first_occ

-- The loop, from the count of the lines since the one with ".symtab"; none if the fuel is used up.
unfoldable pub read_symbols : ℕ → ℕ → SymFile → Outcome (Option Symbols)
read_symbols zero first_occ file = ok none
read_symbols (suc fuel) first_occ file = do
  next ← read_sym_line file
  elim next [
    | none ↦ ok (some (record { functions = []; parsed = true }))
    | some (line, file') ↦
        let first_occ' = next_occ first_occ line in
        let more = read_symbols fuel first_occ' file' in
        if leb first_occ' 2 then more else (do
          symbol ← parse_symbol line
          elim symbol [
            | none ↦ ok (some (record { functions = []; parsed = false }))
            | some e ↦ (do s ← more; ok (push e s))
          ])
  ]

-- `ReadSymFile` on the file, none if it cannot be opened.
unfoldable pub read_sym_file : Option (List ℕ) → Outcome (Option Symbols)
read_sym_file none = ok (some (record { functions = []; parsed = false }))
read_sym_file (some file) = read_symbols (suc (length file)) 0 (record { left = file; eof = false })
