-- ===== src/Report/Filename.antt =====
-- `get_filename` of tools/detect.cc: the line of addr2line for a code address, by way of a file. What the
-- command leaves in that file is an argument, none where it cannot be opened.
mod Tests
use racez.Base.{
  ℕ, ◌≡◌, refl, ◌∙◌, Bool, true, false, not, ◌&&◌, List, [], ◌∷◌, ◌++◌, Option, none, some, arith,
  ◌==◌, if◌then◌else◌, all, Outcome, ok, fault, out_of_bounds, indeterminate, assertion_failed,
  exited, cons_ok, ap,
}
use racez.Convert.Files.{newline, fgets, is_end, chomp, fits}
use racez.Convert.Lines.{fgets-line, fgets_nil, not_end, chomp-line}
use racez.Convert.Main.{print_hex}

-- "/usr/bin/addr2line -e ", and " >  tmp.txt".
abbrev addr2line_words : List ℕ
addr2line_words =
    47 ∷ 117 ∷ 115 ∷ 114 ∷ 47 ∷ 98 ∷ 105 ∷ 110 ∷ 47 ∷ 97 ∷ 100 ∷ 100 ∷ 114 ∷ 50 ∷ 108 ∷ 105 ∷ 110
    ∷ 101 ∷ 32 ∷ 45 ∷ 101 ∷ 32 ∷ []

abbrev direct_words : List ℕ
direct_words = 32 ∷ 62 ∷ 32 ∷ 32 ∷ 116 ∷ 109 ∷ 112 ∷ 46 ∷ 116 ∷ 120 ∷ 116 ∷ []

unfoldable pub addr2line_command : List ℕ → ℕ → List ℕ
addr2line_command binary addr =
    addr2line_words ++ binary ++ 32 ∷ 48 ∷ 120 ∷ print_hex addr ++ direct_words

-- The text in the buffer without its newline; the byte before an empty text is out of bounds.
unfoldable pub drop_newline : List ℕ → Outcome (List ℕ)
drop_newline [] = fault out_of_bounds
drop_newline (c ∷ text) = chomp (c ∷ text)

-- A read at the end of the file leaves the buffer as it was, which has no value before the first call.
unfoldable pub line_read : List ℕ → Option (List ℕ) → Outcome (List ℕ)
line_read [] none = fault indeterminate
line_read [] (some buffer) = drop_newline buffer
line_read (c ∷ line) buffer = drop_newline (c ∷ line)

-- What a command leaves in tmp.txt, and the name of the binary.
pub record Symbolizer : Type 0 where
  pub system : List ℕ → Option (List ℕ)
  pub binary : List ℕ

unfoldable pub get_filename : Symbolizer → (addr : ℕ) → Option (List ℕ) → Outcome (List ℕ)
get_filename w addr buffer = elim (w.system (addr2line_command w.binary addr)) [
  | none ↦ fault exited
  | some file ↦ line_read (fgets 1999 file).0 buffer
]

-- addr2line prints a line for every address, and the line fits the buffer.
pub record Answers (w : Symbolizer) (addr : ℕ) : Type 0 where
  pub line : List ℕ
  pub rest : List ℕ
  pub line_fits : fits 1999 line ≡ true
  pub printed : w.system (addr2line_command w.binary addr) ≡ some (line ++ newline ∷ rest)

drop_newline-line : (l : List ℕ) → drop_newline (l ++ newline ∷ []) ≡ ok l
unfolding drop_newline
drop_newline-line [] = chomp-line []
drop_newline-line (x ∷ l) = chomp-line (x ∷ l)

line_read-line :
    (l : List ℕ) (buffer : Option (List ℕ)) → line_read (l ++ newline ∷ []) buffer ≡ ok l
unfolding line_read
line_read-line [] buffer = drop_newline-line []
line_read-line (x ∷ l) buffer = drop_newline-line (x ∷ l)

-- The first line of the file, if it fits the buffer, is the name, whatever was in the buffer.
pub get_filename-Answers :
    (w : Symbolizer) (addr : ℕ) (buffer : Option (List ℕ)) (v : Answers w addr)
    → get_filename w addr buffer ≡ ok v.line
unfolding get_filename
get_filename-Answers w addr buffer v =
    rw (get_filename, v.printed, fgets-line 1999 v.line v.rest v.line_fits)
      (line_read-line v.line buffer)

no_newline :
    (x : ℕ) (l : List ℕ)
    → all (λ c. not (c == newline)) (x ∷ l) ≡ true
    → chomp (x ∷ l) ≡ fault assertion_failed
unfolding chomp
no_newline x [] h = ground arith
no_newline x (y ∷ l) h = ap (cons_ok x) (no_newline y l (ground arith))

-- A name, as an earlier call leaves it in the buffer, fails the assertion.
pub drop_newline-name :
    (x : ℕ) (l : List ℕ)
    → all (λ c. not (c == newline)) (x ∷ l) ≡ true
    → drop_newline (x ∷ l) ≡ fault assertion_failed
unfolding drop_newline
drop_newline-name x l h = no_newline x l h
