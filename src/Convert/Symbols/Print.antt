-- ===== src/Convert/Symbols/Print.antt =====
-- The lines that readelf prints for a symbol table, which `ReadSymFile` of tools/convert.cc reads: the
-- index, the value in 16 hexadecimal digits, the size, four fields, and the name.
use racez.Base.{
  ltb, if◌then◌else◌, ◌<◌, ◌≡◌, true, ℕ, zero, suc, ◌^◌, Bool, not, ◌&&◌, List, [], ◌∷◌, ◌++◌, ◌==◌,
  all,
}
use racez.Convert.{RacezFunctionEntry}
use racez.Convert.Files.{newline, fits, is_end}
use racez.Convert.Numbers.{hex_digits, decimal}
use racez.Convert.Numbers.Widths.{prefixed}
use racez.Convert.Symbols.{space}

-- A field, with the spaces before it.
pub record Field : Type 0 where
  pub pad : ℕ
  pub word : List ℕ

pub record Symbol : Type 0 where
  pub index : Field
  pub value : ℕ
  pub size_pad : ℕ
  pub size : ℕ
  pub kind : Field
  pub binding : Field
  pub visibility : Field
  pub section : Field
  pub name : List ℕ

unfoldable pub spaces : ℕ → List ℕ
spaces zero = []
spaces (suc n) = space ∷ spaces n

-- A field and the space behind it, before the rest of the line.
abbrev pub print_field : Field → List ℕ → List ℕ
print_field f rest = spaces f.pad ++ (f.word ++ space ∷ rest)

-- The line, without its newline, from the field on behind the size.
abbrev pub print_fields : Symbol → List ℕ → List ℕ
print_fields s rest =
    print_field s.kind
      (print_field s.binding (print_field s.visibility (print_field s.section rest)))

-- The size, which readelf prints in decimal up to 99999 and in hexadecimal from 100000 on.
abbrev pub print_size : ℕ → List ℕ
print_size n = if ltb n 100000 then decimal n else prefixed n

-- The line before a rest.
abbrev pub print_before : Symbol → List ℕ → List ℕ
print_before s rest = print_field s.index (
    hex_digits 16 s.value
    ++ space ∷ (spaces s.size_pad ++ (print_size s.size ++ space ∷ print_fields s rest)))

abbrev pub print_symbol : Symbol → List ℕ
print_symbol s = print_before s s.name

abbrev pub is_part : ℕ → Bool
is_part c = not (c == space) && not (c == newline)

abbrev pub is_word : List ℕ → Bool
is_word w = not (is_end w) && all is_part w

-- The fields are words, the numbers are not negative, and the line fits the buffer.
pub record IsPrintable (s : Symbol) : Type 0 where
  pub index : is_word s.index.word ≡ true
  pub value : s.value < 2 ^ 63
  pub size : s.size < 2 ^ 63
  pub kind : is_word s.kind.word ≡ true
  pub binding : is_word s.binding.word ≡ true
  pub visibility : is_word s.visibility.word ≡ true
  pub section : is_word s.section.word ≡ true
  pub name : all (λ c. not (c == newline)) s.name ≡ true
  pub fits_buffer : fits 9999 (print_symbol s) ≡ true

unfoldable pub ArePrintable : List Symbol → Type 0
ArePrintable [] = Unit {0}
ArePrintable (s ∷ symbols) = IsPrintable s × ArePrintable symbols

abbrev pub entry_of : Symbol → RacezFunctionEntry
entry_of s = record { function_name = s.name; offset = s.value; size = s.size }
