-- ===== src/Convert/Tests.antt =====
-- A table of functions and addresses in it (tools/convert.cc).
use racez.Base.{
  ℕ, ◌-◌, ◌≤◌, ◌≡◌, refl, true, List, [], ◌∷◌, some, arith, get_elem?, ok, fault, out_of_bounds,
}
use racez.Convert.{
  RacezFunctionEntry, RawLine, FunctionLine, lower_bound, entry_at, convert_offset, convert_line,
  convert_lines, convert_ip,
}
use racez.Convert.Files.{Combined, combine, file_of, combine_lines}
use racez.Convert.Nearest.{none_nearer, convert_offset-nearest}

abbrev main_entry : RacezFunctionEntry
main_entry = record { function_name = 109 ∷ []; offset = 0x400; size = 16 }

abbrev exit_entry : RacezFunctionEntry
exit_entry = record { function_name = 101 ∷ []; offset = 0x500; size = 8 }

abbrev table : List RacezFunctionEntry
table = main_entry ∷ exit_entry ∷ []

-- Where `strcmp` gives 10, the line of a record that is no access is read as address 0.
invalid_is_read :
    convert_ip (λ t. t) 10 table (RawLine.address 0x408 ∷ RawLine.invalid ∷ [])
    ≡ fault out_of_bounds
unfolding convert_ip convert_lines convert_line convert_offset entry_at lower_bound
invalid_is_read = refl

invalid_is_kept :
    convert_ip (λ t. t) 1 table (RawLine.address 0x408 ∷ RawLine.invalid ∷ [])
    ≡ ok (FunctionLine.function (109 ∷ []) 8 ∷ FunctionLine.invalid ∷ [])
unfolding convert_ip convert_lines convert_line convert_offset entry_at lower_bound
invalid_is_kept = refl

convert_offset-nearest_example :
    (e : RacezFunctionEntry) × (i : ℕ) × (convert_offset table 0x408
      ≡ ok (FunctionLine.function e.function_name (0x408 - e.offset)))
    × (get_elem? table i ≡ some e)
    × (e.offset ≤ 0x408)
    × (none_nearer 0x408 e table ≡ true)
convert_offset-nearest_example =
    convert_offset-nearest 0x408 main_entry (exit_entry ∷ []) (refl, (refl, tt)) (omega arith)
      (omega arith)

-- Two files of two lines; the second line names no file.
abbrev filenames : List (List ℕ)
filenames = (97 ∷ 58 ∷ 49 ∷ []) ∷ (63 ∷ 63 ∷ 58 ∷ 48 ∷ []) ∷ []

abbrev function_lines : List (List ℕ)
function_lines = (109 ∷ 9 ∷ 56 ∷ []) ∷ (101 ∷ 9 ∷ 48 ∷ []) ∷ []

one_line :
    combine_lines 0 filenames function_lines
    ≡ record { index = 0; filename = 97 ∷ 58 ∷ 49 ∷ []; function = 109 ∷ 9 ∷ 56 ∷ [] } ∷ []
unfolding combine_lines racez.Convert.Files.starts_with
one_line = refl
