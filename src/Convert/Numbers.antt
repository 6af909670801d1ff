-- ===== src/Convert/Numbers.antt =====
-- The numbers in the texts of tools/convert.cc: `strtoll` of the C library, and the digits that `%lx`
-- and `%lld` print. A number has 64 bits.
pub mod Digits
pub mod Widths
use racez.Base.{
  ℕ, zero, suc, ◌+◌, ◌-◌, ◌*◌, ◌/◌, ◌%◌, ◌^◌, Bool, true, false, ◌&&◌, ◌||◌, List, [], ◌∷◌, ◌++◌,
  ltb, leb, ◌==◌, if◌then◌else◌,
}
use racez.Convert.{long_long}

abbrev pub is_space : ℕ → Bool
is_space c = c == 32 || leb 9 c && leb c 13

-- The digit that a byte stands for, which is at least 36 if it stands for none.
abbrev pub digit_of : ℕ → ℕ
digit_of c =
    if leb 48 c && leb c 57
    then c - 48
    else if leb 65 c && leb c 90
    then c - 55
    else if leb 97 c && leb c 122
    then c - 87
    else 36

-- The number of the digits at the head of a text, behind those read already.
unfoldable pub read_digits : ℕ → ℕ → List ℕ → ℕ
read_digits base n [] = n
read_digits base n (c ∷ text) =
    let more = read_digits base (n * base + digit_of c) text in
    if ltb (digit_of c) base then more else n

unfoldable pub skip_blanks : List ℕ → List ℕ
skip_blanks [] = []
skip_blanks (c ∷ text) = let rest = skip_blanks text in if is_space c then rest else c ∷ text

-- The sign: whether it is a minus, and the text behind it.
unfoldable pub read_sign : List ℕ → Bool × List ℕ
read_sign [] = (false, [])
read_sign (c ∷ text) =
    if c == 45 then (true, text) else if c == 43 then (false, text) else (false, c ∷ text)

abbrev pub starts_hex : List ℕ → Bool
starts_hex (c ∷ x ∷ d ∷ text) = c == 48 && (x == 120 || x == 88) && ltb (digit_of d) 16
starts_hex _ = false

abbrev pub behind_prefix : List ℕ → List ℕ
behind_prefix (c ∷ x ∷ text) = text
behind_prefix text = text

abbrev pub starts_zero : List ℕ → Bool
starts_zero (c ∷ text) = c == 48
starts_zero [] = false

-- The base of a number, 0 for the one that its prefix tells, and its digits.
unfoldable pub read_prefix : ℕ → List ℕ → ℕ × List ℕ
read_prefix base text =
    if (base == 16 || base == 0) && starts_hex text
    then (16, behind_prefix text)
    else if base == 0
    then (if starts_zero text then 8 else 10, text)
    else (base, text)

-- What a signed number is as 64 bits.
abbrev pub signed_word : Bool → ℕ → ℕ
signed_word false n = long_long n
signed_word true n = if leb n (2 ^ 63) then (2 ^ 64 - n) % 2 ^ 64 else 2 ^ 63

unfoldable pub strtoll : ℕ → List ℕ → ℕ
strtoll base text =
    let (negative, rest) = read_sign (skip_blanks text) in
    let (base', digits) = read_prefix base rest in signed_word negative (read_digits base' 0 digits)

-- The byte of a digit, in small letters.
abbrev pub digit : ℕ → ℕ
digit d = if ltb d 10 then 48 + d else 87 + d

-- The last digits of a number in hexadecimal, as many as asked for.
unfoldable pub hex_digits : ℕ → ℕ → List ℕ
hex_digits zero n = []
hex_digits (suc k) n = hex_digits k (n / 16) ++ digit (n % 16) ∷ []

-- A number of at most as many digits in decimal, with no zero at its head.
unfoldable pub decimal_digits : ℕ → ℕ → List ℕ
decimal_digits zero n = []
decimal_digits (suc k) n =
    let more = decimal_digits k (n / 10) in (if ltb n 10 then [] else more) ++ digit (n % 10) ∷ []

-- A number of 64 bits has at most 20 digits.
abbrev pub decimal : ℕ → List ℕ
decimal = decimal_digits 20

-- The number of digits of a number in hexadecimal, from `k` on and at most as many more as given.
unfoldable pub hex_width : ℕ → ℕ → ℕ → ℕ
hex_width zero k n = k
hex_width (suc more) k n = if ltb n (16 ^ k) then k else hex_width more (suc k) n
