-- ===== src/Detect/Command/Ends.antt =====
-- What `main` of tools/detect.cc gives for a command line and its files.
use racez.Base.{
  ℕ, ◌+◌, ◌≤◌, ◌≡◌, ◌≢◌, refl, ◌∙◌, ap, Bool, true, false, List, [], ◌∷◌, none, some, arith, ltb,
  if◌then◌else◌, all, ok,
}
use racez.Record.{Record}
use racez.Eraser.Due.{was_due}
use racez.Report.Filename.{Symbolizer, Answers}
use racez.Detect.Safe.{Safely-Answers}
use racez.Detect.Blocks.Histories.{IsReuseSound}
use racez.Detect.{Detector, start, detect_raw, detect}
use racez.Detect.Histories.{IsSound, accesses_to, warnings_for, well_formed}
use racez.Detect.Run.{distinct, extend}
use racez.Detect.Warnings.{detect_raw-IsSound, warnings-exact}
use racez.Detect.Blocks.{since, ended_due, blocks_fit}
use racez.Detect.Blocks.Warnings.{detect_raw-IsReuseSound, reuse_warnings-exact}
use racez.Detect.Command.{
  Text, Opt, Settings, System, symbolizer_of, b_letter, no_settings, i_letter, n_letter, o_letter,
  m_letter, set_options, open_input, records_left, open_new_input, open_output, run_with,
  detect_main,
}
use racez.Detect.Command.Options.{is_known, last_of, last_text, is_given, set_options_lem}

-- The warnings that a log calls for, with the memory reuse filter or without.
abbrev pub warnings_due : Bool → ℕ → List Record → ℕ
warnings_due true a log = (if was_due (since a log) then 1 else 0) + ended_due a log
warnings_due false a log = if was_due (accesses_to a log) then 1 else 0

detect_raw-warns :
    (w : Symbolizer) (reuse : Bool) (rs : List Record)
    → ((addr : ℕ) → Answers w addr)
    → all well_formed (extend rs []) ≡ true
    → distinct (extend rs []) ≡ true
    → (if reuse then blocks_fit (extend rs []) else true) ≡ true
    → (d : Detector) × (detect_raw reuse rs (start w) ≡ ok d)
      × ((a : ℕ) → a ≢ 0 → warnings_for a d.output ≡ warnings_due reuse a (extend rs []))
detect_raw-warns w true rs named wf ds fits =
    let (d, done, v) =
      Safely-Answers (IsReuseSound (extend rs [])) (start w) (detect_raw true rs (start w)) named
        (detect_raw-IsReuseSound w rs wf ds fits) in
    (d, done, λ a nz. reuse_warnings-exact w rs d a wf ds fits done nz)
detect_raw-warns w false rs named wf ds fits =
    let (d, done, v) =
      Safely-Answers (IsSound (extend rs [])) (start w) (detect_raw false rs (start w)) named
        (detect_raw-IsSound w rs wf ds) in
    (d, done, λ a nz. warnings-exact w rs d a wf ds done nz)

-- The command names a first file with records that can be read and no second one, and an output file
-- that can be written and is not the first one.
pub record IsCommand (y : System) (options : List Opt) (r : Record) (raw : List Record)
    : Type 0 where
  pub known : all is_known options ≡ true
  pub input : Text
  pub input_is : last_of i_letter options none ≡ some input
  pub readable : y.files input ≡ some (r ∷ raw)
  pub alone : last_of n_letter options none ≡ none
  pub output : Text
  pub output_is : last_of o_letter options none ≡ some output
  pub written : y.writable output ≡ true
  pub apart : y.same_file input output ≡ false

-- The binary of the last -b.
abbrev pub symbolizer_for : System → List Opt → Symbolizer
symbolizer_for y options = record { system = y.system; binary = last_text b_letter options [] }

runs_with :
    (y : System) (s : Settings) (input output : Text) (r : Record) (raw : List Record)
    (w : Symbolizer) (reuse : Bool) (d : Detector)
    → s.input_file ≡ some input
    → y.files input ≡ some (r ∷ raw)
    → s.new_input_file ≡ none
    → s.output_file ≡ some output
    → y.writable output ≡ true
    → y.same_file input output ≡ false
    → symbolizer_of y s ≡ w
    → s.enable_memory_reuse ≡ reuse
    → detect_raw reuse (r ∷ raw) (start w) ≡ ok d
    → run_with y s ≡ ok (some d)
unfolding run_with open_input open_new_input open_output records_left detect
runs_with y s input output r raw w reuse d i f n o t a b m done =
    rw
      (
        run_with, i, open_input, f, n, open_new_input, o, open_output, t, records_left, a, m, b,
        done,
      )
      refl

main_runs :
    (argc : ℕ) (options : List Opt) (y : System) (s : Settings)
    → 4 ≤ argc
    → set_options options no_settings ≡ some s
    → detect_main argc options y ≡ run_with y s
unfolding detect_main
main_runs argc options y s h e =
    let enough : ltb argc 4 ≡ false = ground arith in rw (detect_main, e, enough) refl

-- With options that `main` knows, at least three words behind the name, a first file with records, the last
-- one named by -i, that can be read, no second file, an output file, the last one named by -o, that can
-- be written and is another file than the first, an addr2line that answers for every address with a line
-- that fits the buffer, and records that are distinct and well formed, with fitting blocks if -m is given,
-- `main` comes to its end, and the warnings for each address that is not 0 are exactly those that the
-- records call for, with the memory reuse filter if -m is among the options and without it otherwise.
pub detect_main-warns :
    (argc : ℕ) (options : List Opt) (y : System) (r : Record) (raw : List Record)
    → 4 ≤ argc
    → IsCommand y options r raw
    → ((addr : ℕ) → Answers (symbolizer_for y options) addr)
    → all well_formed (extend (r ∷ raw) []) ≡ true
    → distinct (extend (r ∷ raw) []) ≡ true
    → (if is_given m_letter options then blocks_fit (extend (r ∷ raw) []) else true) ≡ true
    → (d : Detector) × (detect_main argc options y ≡ ok (some d))
      × ((a : ℕ)
          → a ≢ 0
          → warnings_for a d.output
            ≡ warnings_due (is_given m_letter options) a (extend (r ∷ raw) []))
detect_main-warns argc options y r raw words c named wf ds fits =
    let (s, set, v) = set_options_lem options no_settings c.known in
    let (d, done, warns) =
      detect_raw-warns (symbolizer_for y options) (is_given m_letter options) (r ∷ raw) named wf ds
        fits in
    (
      d,
      main_runs argc options y s words set
          ∙ runs_with y s c.input c.output r raw (symbolizer_for y options)
              (is_given m_letter options) d (v.input ∙ c.input_is) c.readable
              (v.new_input ∙ c.alone) (v.output ∙ c.output_is) c.written c.apart
              (ap (λ b. record { system = y.system; binary = b }) v.binary) v.reuse done,
      warns,
    )
