-- ===== src/Detect/Command.antt =====
-- The command line of tools/detect.cc: `main` from what `getopt` gives, with the files that can be
-- opened. The standard output is left out.
pub mod Options
pub mod Ends
mod Tests
use racez.Base.{
  ℕ, Bool, true, false, List, [], ◌∷◌, Option, none, some, ltb, ◌==◌, if◌then◌else◌, Outcome, ok,
  fault, null_pointer, indeterminate, exited, ◌>>=◌, ◌>>◌,
}
use racez.Record.{Record}
use racez.Report.Filename.{Symbolizer}
use racez.Detect.{Detector, detect}

abbrev pub Text : Type 0
Text = List ℕ

-- What a call of `getopt` returns, and `optarg` after it.
pub record Opt : Type 0 where
  pub i : ℕ
  pub optarg : Text

-- The variables that the options set; a pointer without a name is NULL, or, for `output_file`,
-- without a value.
pub record Settings : Type 0 where
  pub binary : Text
  pub input_file : Option Text
  pub new_input_file : Option Text
  pub output_file : Option Text
  pub enable_memory_reuse : Bool

abbrev pub no_settings : Settings
no_settings = record {
  binary = [];
  input_file = none;
  new_input_file = none;
  output_file = none;
  enable_memory_reuse = false;
}

-- The letters of the options: b, i, n, o, m and h.
abbrev pub b_letter : ℕ
b_letter = 98

abbrev pub i_letter : ℕ
i_letter = 105

abbrev pub n_letter : ℕ
n_letter = 110

abbrev pub o_letter : ℕ
o_letter = 111

abbrev pub m_letter : ℕ
m_letter = 109

-- One round of the switch; none where `main` returns: for `-h`, and for an option that it does not know.
unfoldable pub set_option : Opt → Settings → Option Settings
set_option x s =
    if x.i == b_letter
    then some (record s { binary = x.optarg })
    else if x.i == i_letter
    then some (record s { input_file = some x.optarg })
    else if x.i == n_letter
    then some (record s { new_input_file = some x.optarg })
    else if x.i == o_letter
    then some (record s { output_file = some x.optarg })
    else if x.i == m_letter
    then some (record s { enable_memory_reuse = true })
    else none

unfoldable pub set_options : List Opt → Settings → Option Settings
set_options [] s = some s
set_options (x ∷ xs) s = elim (set_option x s) [ none ↦ none | some s' ↦ set_options xs s' ]

-- A file that is open for reading, with the records in it.
pub record Stream : Type 0 where
  pub name : Text
  pub records : List Record

-- `fopen(name, "r")`, and the exit where it fails.
unfoldable pub open_input : (Text → Option (List Record)) → Option Text → Outcome Stream
open_input files none = fault null_pointer
open_input files (some name) = elim (files name) [
  | none ↦ fault exited
  | some rs ↦ ok (record { name = name; records = rs })
]

-- The second file is opened only if it is named.
unfoldable pub open_new_input :
    (Text → Option (List Record)) → Option Text → Outcome (Option Stream)
open_new_input files none = ok none
open_new_input files (some name) = elim (files name) [
  | none ↦ fault exited
  | some rs ↦ ok (some (record { name = name; records = rs }))
]

-- `fopen(name, "w")`, and the exit where it fails: the name of the file, which has no bytes now.
unfoldable pub open_output : (Text → Bool) → Option Text → Outcome Text
open_output writable none = fault indeterminate
open_output writable (some name) = if writable name then ok name else fault exited

-- What there is to read of an open file when the output file is open too; two names may be of the same file.
unfoldable pub records_left : (Text → Text → Bool) → Text → Stream → List Record
records_left same_file output s = if same_file s.name output then [] else s.records

abbrev pub new_records_left : (Text → Text → Bool) → Text → Option Stream → List Record
new_records_left same_file output none = []
new_records_left same_file output (some s) = records_left same_file output s

-- The detector where `main` returns behind its loops; none where it returns before them.
abbrev pub analyse : Symbolizer → Bool → List Record → List Record → Outcome (Option Detector)
analyse w reuse [] new = ok none
analyse w reuse (r ∷ raw) new = do d ← detect w reuse (r ∷ raw) new; ok (some d)

-- The system: the files that can be read with their records, the files that can be written, the names
-- of the same file, and what a command leaves in tmp.txt.
pub record System : Type 0 where
  pub files : Text → Option (List Record)
  pub writable : Text → Bool
  pub same_file : Text → Text → Bool
  pub system : Text → Option Text

abbrev pub symbolizer_of : System → Settings → Symbolizer
symbolizer_of y s = record { system = y.system; binary = s.binary }

unfoldable pub run_with : System → Settings → Outcome (Option Detector)
run_with y s = do
  input ← open_input y.files s.input_file
  new_input ← open_new_input y.files s.new_input_file
  output ← open_output y.writable s.output_file
  analyse (symbolizer_of y s) s.enable_memory_reuse (records_left y.same_file output input)
      (new_records_left y.same_file output new_input)

unfoldable pub detect_main : (argc : ℕ) → List Opt → System → Outcome (Option Detector)
detect_main argc options y = elim (set_options options no_settings) [
  | none ↦ ok none
  | some s ↦ if ltb argc 4 then ok none else run_with y s
]
