-- ===== src/Convert/Main/Tests.antt =====
-- Instances of the theorems on tools/convert.cc with the texts of its files.
use racez.Base.{
  ◌≡◌, ◌≢◌, refl, true, all, List, [], ◌∷◌, ◌++◌, none, some, ok, fault, null_pointer, arith, ℕ,
  if◌then◌else◌, ltb, map,
}
use racez.Record.{Record, RecordType}
use racez.Sample.{zero_record}
use racez.Convert.{FunctionLine, RacezFunctionEntry, read_raw_file, write_raw_record}
use racez.Convert.Files.{file_of, combine_lines, starts_with}
use racez.Convert.Numbers.{hex_width, hex_digits, decimal_digits}
use racez.Convert.Symbols.{strstr, symtab_word, strchr, skip_spaces, space, read_sym_file}
use racez.Convert.Symbols.Print.{Field, Symbol, IsPrintable, ArePrintable, print_symbol, spaces}
use racez.Convert.Symbols.RoundTrip.{is_heading, read_sym_file-print}
use racez.Convert.Symbols.Ends.{read_sym_file-ends}
use racez.Convert.Symbols.Blanks.{read_sym_file-one_word}
use racez.Convert.Main.{convert_main}
use racez.Convert.Main.Functions.{AreCovered, AreFound, shown_line}
use racez.Convert.Main.Run.{convert_main-combines}

abbrev word_of : ℕ → Field
word_of c = record { pad = 1; word = c ∷ [] }

-- A function of 100000 bytes at the address 0x400.
abbrev symbol : Symbol
symbol = record {
  index = word_of 55;
  value = 0x400;
  size_pad = 2;
  size = 100000;
  kind = word_of 70;
  binding = word_of 71;
  visibility = word_of 68;
  section = word_of 49;
  name = 102 ∷ [];
}

symbol-IsPrintable : IsPrintable symbol
unfolding hex_width hex_digits decimal_digits spaces
symbol-IsPrintable = record {
  index = refl;
  value = omega arith;
  size = omega arith;
  kind = refl;
  binding = refl;
  visibility = refl;
  section = refl;
  name = refl;
  fits_buffer = refl;
}

symbols-ArePrintable : ArePrintable (symbol ∷ [])
unfolding ArePrintable
symbols-ArePrintable = (symbol-IsPrintable, tt)

found : strstr symtab_word (symtab_word ++ 10 ∷ []) ≡ true
unfolding strstr starts_with
found = refl

heading_other : all is_heading ([] ∷ []) ≡ true
unfolding strstr starts_with
heading_other = refl

abbrev entry : RacezFunctionEntry
entry = record { function_name = 102 ∷ []; offset = 0x400; size = 100000 }

read_sym_file-print_example :
    read_sym_file (some (file_of ([] ∷ symtab_word ∷ [] ∷ map print_symbol (symbol ∷ []))))
    ≡ ok (some (record { functions = entry ∷ []; parsed = true }))
read_sym_file-print_example =
    read_sym_file-print ([] ∷ []) symtab_word [] (symbol ∷ []) heading_other refl found refl
      symbols-ArePrintable

read_sym_file-ends_example :
    read_sym_file (some (file_of (symtab_word ∷ [] ∷ (55 ∷ []) ∷ []))) ≢ ok none
read_sym_file-ends_example = read_sym_file-ends (some (file_of (symtab_word ∷ [] ∷ (55 ∷ []) ∷ [])))

blank : strchr space (skip_spaces (32 ∷ 10 ∷ [])) ≡ none
unfolding strchr skip_spaces
blank = refl

read_sym_file-one_word_example :
    read_sym_file
      (some (file_of (symtab_word ∷ [] ∷ (map print_symbol (symbol ∷ []) ++ (32 ∷ []) ∷ []))))
    ≡ fault null_pointer
read_sym_file-one_word_example =
    read_sym_file-one_word [] symtab_word [] (symbol ∷ []) (32 ∷ []) [] refl refl found refl
      symbols-ArePrintable refl blank

-- An access at the address 0x408, in the function.
abbrev access : Record
access = record (record zero_record { op = record (zero_record.op) { pip = 0x408 } }) {
  kind = RecordType.memory_op;
}

abbrev source_line : List ℕ
source_line = 97 ∷ 58 ∷ 49 ∷ []

-- A function in front of it, behind it in the table of readelf.
abbrev lower : Symbol
lower = record symbol { value = 0x200; name = 103 ∷ [] }

lower-IsPrintable : IsPrintable lower
unfolding hex_width hex_digits decimal_digits spaces
lower-IsPrintable = record {
  index = refl;
  value = omega arith;
  size = omega arith;
  kind = refl;
  binding = refl;
  visibility = refl;
  section = refl;
  name = refl;
  fits_buffer = refl;
}

both-ArePrintable : ArePrintable (symbol ∷ lower ∷ [])
unfolding ArePrintable
both-ArePrintable = (symbol-IsPrintable, (lower-IsPrintable, tt))

abbrev lower_entry : RacezFunctionEntry
lower_entry = record { function_name = 103 ∷ []; offset = 0x200; size = 100000 }

-- A sort that is right on tables of two entries.
abbrev sort_two : List RacezFunctionEntry → List RacezFunctionEntry
sort_two (x ∷ y ∷ []) = if ltb y.offset x.offset then y ∷ x ∷ [] else x ∷ y ∷ []
sort_two table = table

covered : AreCovered 10 lower_entry (read_raw_file (access ∷ []))
unfolding read_raw_file write_raw_record
covered = ((omega arith, omega arith), tt)

convert_main-combines_example :
    (functions : List FunctionLine) × AreFound 10
      (lower_entry ∷ entry ∷ [])
      (read_raw_file (access ∷ []))
      functions
    × (convert_main sort_two 10
          (file_of (symtab_word ∷ [] ∷ map print_symbol (symbol ∷ lower ∷ [])))
          (λ ip. file_of (source_line ∷ []))
          (access ∷ [])
        ≡ ok (some (combine_lines 0 (source_line ∷ []) (map shown_line functions))))
convert_main-combines_example =
    convert_main-combines sort_two 10 [] symtab_word [] (symbol ∷ lower ∷ []) lower_entry
      (entry ∷ []) (λ ip. file_of (source_line ∷ [])) (access ∷ []) (source_line ∷ []) refl refl
      found refl both-ArePrintable refl (refl, (refl, tt)) refl covered refl refl
