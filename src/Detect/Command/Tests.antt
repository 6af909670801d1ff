-- ===== src/Detect/Command/Tests.antt =====
-- Runs of the detector (tools/detect.cc) from its command line, and an instance of its theorem.
use racez.Base.{
  false, ℕ, ◌≡◌, ◌≢◌, refl, Bool, true, List, [], ◌∷◌, Option, none, some, arith, ◌==◌,
  if◌then◌else◌, ok, fault, null_pointer, indeterminate,
}
use racez.Record.{Record}
use racez.Record.Views.{set_mem_alloc, start_address, size, is_alloc}
use racez.RecordSet.{record_lt}
use racez.Detect.{Detector}
use racez.Detect.Histories.{warnings_for}
use racez.Detect.Run.{extend}
use racez.Detect.Blocks.Tests.{block_event, reused}
use racez.Detect.Command.{
  Text, Opt, b_letter, i_letter, o_letter, m_letter, set_option, set_options, open_input,
  open_new_input, open_output, run_with, records_left, System, detect_main,
}
use racez.Detect.Command.Ends.{IsCommand, warnings_due, detect_main-warns}

abbrev option : ℕ → Text → Opt
option i optarg = record { i = i; optarg = optarg }

-- `detect -b x -m -i y -i a -o z`, where the file `a` can be read.
abbrev options : List Opt
options =
    option b_letter (120 ∷ [])
    ∷ option m_letter []
    ∷ option i_letter (121 ∷ [])
    ∷ option i_letter (97 ∷ [])
    ∷ option o_letter (122 ∷ [])
    ∷ []

abbrev files : Text → Option (List Record)
files [] = none
files (c ∷ name) = if c == 97 then some reused else none

-- A system in which names are of the same file only if they start with the same letter.
abbrev same_file : Text → Text → Bool
same_file (c ∷ name) (d ∷ other) = c == d
same_file name other = false

abbrev system : System
system = record {
  files = files;
  writable = λ name. true;
  same_file = same_file;
  system = λ c. some (63 ∷ 63 ∷ 10 ∷ []);
}

abbrev after_first : List Record
after_first = rest reused
  where
    rest : List Record → List Record
    rest [] = []
    rest (r ∷ rs) = rs

-- Three words are enough for the test of `argc`, but without a name for the input file there is no file
-- to open, and without one for the output `main` uses a pointer without a value.
no_input : detect_main 4 (option m_letter [] ∷ []) system ≡ fault null_pointer
unfolding detect_main set_option set_options open_input run_with
no_input = refl

no_output :
    detect_main 4 (option m_letter [] ∷ option i_letter (97 ∷ []) ∷ []) system ≡ fault indeterminate
unfolding detect_main set_option set_options open_input open_new_input open_output run_with
no_output = refl

-- `-i a -o a` empties the file before it is read.
emptied :
    detect_main 5 (option i_letter (97 ∷ []) ∷ option o_letter (97 ∷ []) ∷ []) system ≡ ok none
unfolding detect_main set_option set_options open_input open_new_input open_output records_left
    run_with
emptied = refl

-- `-h` ends `main`, and so does a letter that it does not know.
usage : detect_main 4 (option 104 [] ∷ []) system ≡ ok none
unfolding detect_main set_option set_options
usage = refl

options-IsCommand : IsCommand system options (block_event 21 16 1) after_first
options-IsCommand = record {
  known = refl;
  input = 97 ∷ [];
  input_is = refl;
  readable = refl;
  alone = refl;
  output = 122 ∷ [];
  output_is = refl;
  written = refl;
  apart = refl;
}

detect_main-warns_example :
    (d : Detector) × (detect_main 10 options system ≡ ok (some d))
    × ((a : ℕ) → a ≢ 0 → warnings_for a d.output ≡ warnings_due true a (extend reused []))
unfolding record_lt set_mem_alloc start_address size is_alloc
detect_main-warns_example =
    detect_main-warns 10 options system (block_event 21 16 1) after_first (omega arith)
      options-IsCommand
      (λ addr. record { line = 63 ∷ 63 ∷ []; rest = []; line_fits = refl; printed = refl }) refl
      refl refl
