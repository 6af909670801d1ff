-- ===== src/Convert/Numbers/Digits.antt =====
-- What `strtoll` reads of the numbers that `%lx` and `%lld` print (tools/convert.cc).
use mathlib.Core.Bool.{true≢false}
use racez.Base.{
  not, if◌then◌else◌, ℕ, zero, suc, ◌+◌, ◌*◌, ◌/◌, ◌%◌, ◌^◌, ◌≤◌, ◌<◌, ◌≡◌, refl, sym, ◌∙◌, Bool,
  true, false, List, [], ◌∷◌, ◌++◌, arith, ltb, lt→ltb, ltb→lt, ◌==◌, all, and_split,
}
use racez.Convert.{long_long}
use racez.Convert.Numbers.{
  starts_zero, digit_of, digit, is_space, read_digits, skip_blanks, read_sign, read_prefix,
  starts_hex, strtoll, hex_digits, decimal_digits, decimal,
}

abbrev pub is_digit : ℕ → ℕ → Bool
is_digit base c = ltb (digit_of c) base

digit_of-digit : (d : ℕ) → d < 16 → digit_of (digit d) ≡ d
digit_of-digit d h = ground arith

read_digits-append :
    (base n c : ℕ) (xs rest : List ℕ)
    → all (is_digit base) xs ≡ true
    → is_digit base c ≡ true
    → read_digits base n (xs ++ c ∷ rest)
      ≡ read_digits base (read_digits base n xs * base + digit_of c) rest
unfolding read_digits
read_digits-append base n c [] rest h d = rw d
read_digits-append base n c (x ∷ xs) rest h d =
    let (first, more) = and_split (is_digit base x) (all (is_digit base) xs) h in
    rw (first, read_digits-append base (n * base + digit_of x) c xs rest more d)

all-append :
    (base c : ℕ) (xs : List ℕ)
    → all (is_digit base) xs ≡ true
    → is_digit base c ≡ true
    → all (is_digit base) (xs ++ c ∷ []) ≡ true
all-append base c [] h d = rw d
all-append base c (x ∷ xs) h d =
    let (first, more) = and_split (is_digit base x) (all (is_digit base) xs) h in
    rw (first, all-append base c xs more d)

is_digit-digit : (base d : ℕ) → d < base → base ≤ 16 → is_digit base (digit d) ≡ true
is_digit-digit base d h b = let e = digit_of-digit d (omega arith) in rw (e, lt→ltb d base h)

pub hex_digits-all : (k n : ℕ) → all (is_digit 16) (hex_digits k n) ≡ true
unfolding hex_digits
hex_digits-all zero n = refl
hex_digits-all (suc k) n =
    all-append 16 (digit (n % 16)) (hex_digits k (n / 16)) (hex_digits-all k (n / 16))
      (is_digit-digit 16 (n % 16) (omega arith) (omega arith))

pub read_digits-hex : (k n : ℕ) → n < 16 ^ k → read_digits 16 0 (hex_digits k n) ≡ n
unfolding hex_digits read_digits
read_digits-hex zero n h = omega arith
read_digits-hex (suc k) n h =
    let smaller : n / 16 < 16 ^ k = omega arith in
    read_digits-append 16 0 (digit (n % 16)) (hex_digits k (n / 16)) [] (hex_digits-all k (n / 16))
      (is_digit-digit 16 (n % 16) (omega arith) (omega arith))
    ∙ omega (arith, read_digits-hex k (n / 16) smaller, digit_of-digit (n % 16) (omega arith))

higher-all :
    (b : Bool) (k n : ℕ)
    → all (is_digit 10) (decimal_digits k (n / 10)) ≡ true
    → all (is_digit 10) (if b then [] else decimal_digits k (n / 10)) ≡ true
higher-all true k n h = refl
higher-all false k n h = h

pub decimal_digits-all : (k n : ℕ) → all (is_digit 10) (decimal_digits k n) ≡ true
unfolding decimal_digits
decimal_digits-all zero n = refl
decimal_digits-all (suc k) n =
    all-append 10 (digit (n % 10)) (if ltb n 10 then [] else decimal_digits k (n / 10))
      (higher-all (ltb n 10) k n (decimal_digits-all k (n / 10)))
      (is_digit-digit 10 (n % 10) (omega arith) (omega arith))

higher-value :
    (b : Bool) (k n : ℕ)
    → (b ≡ true → n < 10)
    → read_digits 10 0 (decimal_digits k (n / 10)) ≡ n / 10
    → read_digits 10 0 (if b then [] else decimal_digits k (n / 10)) ≡ n / 10
unfolding read_digits
higher-value true k n small h = omega (arith, small refl)
higher-value false k n small h = h

read_digits-decimal : (k n : ℕ) → n < 10 ^ k → read_digits 10 0 (decimal_digits k n) ≡ n
unfolding decimal_digits read_digits
read_digits-decimal zero n h = omega arith
read_digits-decimal (suc k) n h =
    let smaller : n / 10 < 10 ^ k = omega arith in
    let value =
      higher-value (ltb n 10) k n (ltb→lt n 10) (read_digits-decimal k (n / 10) smaller) in
    read_digits-append 10 0 (digit (n % 10)) (if ltb n 10 then [] else decimal_digits k (n / 10)) []
      (higher-all (ltb n 10) k n (decimal_digits-all k (n / 10)))
      (is_digit-digit 10 (n % 10) (omega arith) (omega arith))
    ∙ omega (arith, value, digit_of-digit (n % 10) (omega arith))

-- A text of digits has no blanks, sign or prefix at its head.
skip_blanks-digits : (xs : List ℕ) → all (is_digit 16) xs ≡ true → skip_blanks xs ≡ xs
unfolding skip_blanks
skip_blanks-digits [] h = refl
skip_blanks-digits (c ∷ xs) h = let solid : is_space c ≡ false = ground arith in rw solid

read_sign-digits : (xs : List ℕ) → all (is_digit 16) xs ≡ true → read_sign xs ≡ (false, xs)
unfolding read_sign
read_sign-digits [] h = refl
read_sign-digits (c ∷ xs) h =
    let no_minus : (c == 45) ≡ false = ground arith in
    let no_plus : (c == 43) ≡ false = ground arith in rw (no_minus, no_plus)

no_hex : (xs : List ℕ) → all (is_digit 16) xs ≡ true → starts_hex xs ≡ false
no_hex [] h = refl
no_hex (c ∷ []) h = refl
no_hex (c ∷ x ∷ []) h = refl
no_hex (c ∷ x ∷ d ∷ xs) h =
    let no_small : (x == 120) ≡ false = ground arith in
    let no_large : (x == 88) ≡ false = ground arith in ground arith

pub is_digit_16 : (xs : List ℕ) → all (is_digit 10) xs ≡ true → all (is_digit 16) xs ≡ true
is_digit_16 [] h = refl
is_digit_16 (c ∷ xs) h =
    let (first, more) = and_split (is_digit 10 c) (all (is_digit 10) xs) h in
    let smaller : is_digit 16 c ≡ true =
      lt→ltb (digit_of c) 16 (omega (arith, ltb→lt (digit_of c) 10 first)) in
    rw (smaller, is_digit_16 xs more)

strtoll-digits :
    (base base' : ℕ) (xs : List ℕ)
    → all (is_digit 16) xs ≡ true
    → read_prefix base xs ≡ (base', xs)
    → strtoll base xs ≡ long_long (read_digits base' 0 xs)
unfolding strtoll
strtoll-digits base base' xs h e = rw (skip_blanks-digits xs h, read_sign-digits xs h, e)

long_long_small : (n m : ℕ) → n ≡ m → m < 2 ^ 63 → long_long n ≡ m
long_long_small n m e h = rw (e, lt→ltb m (2 ^ 63) h)

pub strtoll-hex_digits : (n : ℕ) → n < 2 ^ 63 → strtoll 16 (hex_digits 16 n) ≡ n
unfolding read_prefix
strtoll-hex_digits n h =
    let digits = hex_digits-all 16 n in
    strtoll-digits 16 16 (hex_digits 16 n) digits (rw (no_hex (hex_digits 16 n) digits))
    ∙ long_long_small (read_digits 16 0 (hex_digits 16 n)) n (read_digits-hex 16 n (omega arith)) h

-- The first digit is there and not a zero.
abbrev leads : List ℕ → Bool
leads [] = false
leads (c ∷ xs) = not (c == 48)

leads-append : (xs ys : List ℕ) → leads xs ≡ true → leads (xs ++ ys) ≡ true
leads-append [] ys h = absurd (true≢false (sym h))
leads-append (c ∷ xs) ys h = h

leads-digit :
    (b : Bool) (n : ℕ) (xs : List ℕ)
    → 0 < n
    → (b ≡ true → n < 10)
    → (b ≡ false → leads xs ≡ true)
    → leads ((if b then [] else xs) ++ digit (n % 10) ∷ []) ≡ true
leads-digit true n xs pos small more = let s = small refl in ground arith
leads-digit false n xs pos small more = leads-append xs (digit (n % 10) ∷ []) (more refl)

large_half : (n : ℕ) → ltb n 10 ≡ false → 0 < n / 10
large_half n h = ground arith

decimal_digits-leads : (k n : ℕ) → n < 10 ^ k → 0 < n → leads (decimal_digits k n) ≡ true
unfolding decimal_digits
decimal_digits-leads zero n h pos = absurd (omega arith)
decimal_digits-leads (suc k) n h pos =
    leads-digit (ltb n 10) n (decimal_digits k (n / 10)) pos (ltb→lt n 10)
      (λ large. decimal_digits-leads k (n / 10) (omega arith) (large_half n large))

no_zero : (xs : List ℕ) → leads xs ≡ true → starts_zero xs ≡ false
no_zero [] h = refl
no_zero (c ∷ xs) h = ground arith

zero_read : strtoll 0 (decimal 0) ≡ 0
unfolding strtoll decimal_digits read_digits read_prefix skip_blanks read_sign
zero_read = refl

pub strtoll-decimal : (n : ℕ) → n < 2 ^ 63 → strtoll 0 (decimal n) ≡ n
unfolding read_prefix
strtoll-decimal zero h = zero_read
strtoll-decimal (suc n) h =
    let digits = is_digit_16 (decimal (suc n)) (decimal_digits-all 20 (suc n)) in
    let head =
      no_zero (decimal (suc n)) (decimal_digits-leads 20 (suc n) (omega arith) (omega arith)) in
    strtoll-digits 0 10 (decimal (suc n)) digits (rw (no_hex (decimal (suc n)) digits, head))
    ∙ long_long_small (read_digits 10 0 (decimal (suc n))) (suc n)
        (read_digits-decimal 20 (suc n) (omega arith)) h
