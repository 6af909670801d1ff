-- ===== src/Convert/Main/Addresses.antt =====
-- ip.txt of tools/convert.cc: what `ConvertIP` reads of the lines that `WriteRawRecord` prints.
use racez.Base.{
  ℕ, ◌+◌, ◌*◌, ◌^◌, ◌<◌, ◌≡◌, refl, ◌∙◌, true, false, not, List, [], ◌∷◌, ◌++◌, arith, lt→ltb, ◌==◌,
  all, and_split, length,
}
use racez.Convert.{RawLine, RacezFunctionEntry, long_long, convert_line}
use racez.Convert.Files.{newline, fits, invalid_word}
use racez.Convert.Numbers.{digit_of, read_digits, read_prefix, read_sign, skip_blanks, strtoll}
use racez.Convert.Numbers.Digits.{is_digit, hex_digits-all, read_digits-hex}
use racez.Convert.Symbols.RoundTrip.{ends_line-line}
use racez.Convert.Numbers.Widths.{
  hex_width-enough, hex_width-bounds, length-hex_digits, starts_hex-digits,
}
use racez.Convert.Numbers.{hex_width}
use racez.Convert.Main.{print_hex, print_raw, exceeds, convert_buffer}

-- Digits end at a byte that is none.
read_digits-stop :
    (base n c : ℕ) (xs rest : List ℕ)
    → all (is_digit base) xs ≡ true
    → is_digit base c ≡ false
    → read_digits base n (xs ++ c ∷ rest) ≡ read_digits base n xs
unfolding read_digits
read_digits-stop base n c [] rest h stop = rw stop
read_digits-stop base n c (x ∷ xs) rest h stop =
    let (first, more) = and_split (is_digit base x) (all (is_digit base) xs) h in
    rw (first, read_digits-stop base (n * base + digit_of x) c xs rest more stop)

strtoll-print_hex :
    (n : ℕ) → n < 2 ^ 64 → strtoll 16 (48 ∷ 120 ∷ (print_hex n ++ newline ∷ [])) ≡ long_long n
unfolding strtoll read_prefix read_sign skip_blanks
strtoll-print_hex n h =
    let w = hex_width 8 8 n in
    let digits = hex_digits-all w n in
    let (low, high) = hex_width-bounds 8 8 n in
    let value =
      read_digits-stop 16 0 newline (print_hex n) [] digits refl
      ∙ read_digits-hex w n (hex_width-enough 8 8 16 n refl (omega arith)) in
    let head =
      starts_hex-digits (print_hex n) (newline ∷ []) (omega (arith, length-hex_digits w n))
        digits in
    rw (head, value)

no_newline : (xs : List ℕ) → all (is_digit 16) xs ≡ true → all (λ c. not (c == newline)) xs ≡ true
no_newline [] h = refl
no_newline (c ∷ xs) h =
    let (first, more) = and_split (is_digit 16 c) (all (is_digit 16) xs) h in
    let rest = no_newline xs more in
    let other : (c == newline) ≡ false = ground arith in rw (other, rest)

pub print_raw-fits : (l : RawLine) → fits 99 (print_raw l) ≡ true
unfolding print_raw
print_raw-fits RawLine.invalid = refl
print_raw-fits (RawLine.address a) =
    let w = hex_width 8 8 a in
    let (low, high) = hex_width-bounds 8 8 a in
    let size = length-hex_digits w a in
    rw (
      lt→ltb (length (48 ∷ 120 ∷ print_hex a)) 99 (omega (arith, size)),
      no_newline (print_hex a) (hex_digits-all w a),
    )

-- The addresses are those of records, which have 64 bits.
abbrev pub IsAddress : RawLine → Type 0
IsAddress (RawLine.address a) = a < 2 ^ 64
IsAddress RawLine.invalid = Unit {0}

strtoll-invalid : strtoll 16 (invalid_word ++ newline ∷ []) ≡ 0
unfolding strtoll read_sign skip_blanks read_digits read_prefix
strtoll-invalid = refl

pub convert_buffer-print :
    (compared : ℕ) (functions : List RacezFunctionEntry) (l : RawLine)
    → IsAddress l
    → convert_buffer compared functions (print_raw l ++ newline ∷ [])
      ≡ convert_line compared functions l
unfolding convert_buffer print_raw exceeds convert_line
convert_buffer-print compared functions (RawLine.address a) h =
    rw (ends_line-line (48 ∷ 120 ∷ print_hex a), strtoll-print_hex a h)
convert_buffer-print compared functions RawLine.invalid h = rw strtoll-invalid
