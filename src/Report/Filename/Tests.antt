-- ===== src/Report/Filename/Tests.antt =====
-- Calls of `get_filename` (tools/detect.cc).
use racez.Base.{ℕ, List, ◌≡◌, refl, [], ◌∷◌, some, none, ok, fault, assertion_failed, indeterminate}
use racez.Convert.Files.{fgets, chomp}
use racez.Convert.Numbers.{hex_width}
use racez.Convert.Numbers.{hex_digits}
use racez.Report.Filename.{addr2line_command, drop_newline, line_read, Symbolizer, get_filename}

program : Unit {0}
unfolding addr2line_command drop_newline line_read get_filename fgets chomp hex_width hex_digits
program = tt

abbrev printing : List ℕ → Symbolizer
printing file = record { system = λ c. some file; binary = [] }

-- "a:1" of a file with two lines; then a file without a line, with that name in the buffer and with none.
first_line :
    get_filename (printing (97 ∷ 58 ∷ 49 ∷ 10 ∷ 98 ∷ 10 ∷ [])) 1024 none ≡ ok (97 ∷ 58 ∷ 49 ∷ [])
unfolding program
first_line = refl

empty_file : get_filename (printing []) 1024 (some (97 ∷ 58 ∷ 49 ∷ [])) ≡ fault assertion_failed
unfolding program
empty_file = refl

empty_buffer : get_filename (printing []) 1024 none ≡ fault indeterminate
unfolding program
empty_buffer = refl
