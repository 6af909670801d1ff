-- ===== src/Convert/Numbers/Widths.antt =====
-- The hexadecimal numbers with a prefix in the texts of tools/convert.cc.
use racez.Base.{
  ℕ, zero, suc, ◌+◌, ◌/◌, ◌^◌, ◌≤◌, ◌<◌, ◌≡◌, refl, ◌∙◌, subst, true, List, [], ◌∷◌, ◌++◌, arith,
  ltb, lt→ltb, ltb→lt, Bool-cases, inl, inr, all, and_split, length, length-append,
}
use racez.Convert.Numbers.{
  hex_width, hex_digits, starts_hex, strtoll, read_prefix, skip_blanks, read_sign,
}
use racez.Convert.Numbers.Digits.{is_digit, hex_digits-all, read_digits-hex}

pub hex_width-enough : (more k m n : ℕ) → m ≡ k + more → n < 16 ^ m → n < 16 ^ hex_width more k n
unfolding hex_width
hex_width-enough zero k m n e h = let same : m ≡ k = omega arith in subst (λ j. n < 16 ^ j) same h
hex_width-enough (suc more) k m n e h =
    let rest = hex_width-enough more (suc k) m n (omega arith) h in
    elim (Bool-cases (ltb n (16 ^ k))) [
      | inl small ↦ rw small (ltb→lt n (16 ^ k) small)
      | inr large ↦ rw large rest
    ]

pub hex_width-bounds : (more k n : ℕ) → (k ≤ hex_width more k n) × (hex_width more k n ≤ k + more)
unfolding hex_width
hex_width-bounds zero k n = (omega arith, omega arith)
hex_width-bounds (suc more) k n =
    let (low, high) = hex_width-bounds more (suc k) n in
    elim (Bool-cases (ltb n (16 ^ k))) [
      | inl small ↦ (rw small (omega arith), rw small (omega arith))
      | inr large ↦ (rw large (omega (arith, low)), rw large (omega (arith, high)))
    ]

pub length-hex_digits : (k n : ℕ) → length (hex_digits k n) ≡ k
unfolding hex_digits
length-hex_digits zero n = refl
length-hex_digits (suc k) n =
    length-append (hex_digits k (n / 16)) _ ∙ omega (arith, length-hex_digits k (n / 16))

pub starts_hex-digits :
    (xs rest : List ℕ)
    → 0 < length xs
    → all (is_digit 16) xs ≡ true
    → starts_hex (48 ∷ 120 ∷ (xs ++ rest)) ≡ true
starts_hex-digits [] rest some h = absurd (omega arith)
starts_hex-digits (x ∷ xs) rest some h = (and_split (is_digit 16 x) (all (is_digit 16) xs) h).0

-- `0x%lx` of 64 bits.
abbrev pub prefixed : ℕ → List ℕ
prefixed n = 48 ∷ 120 ∷ hex_digits (hex_width 15 1 n) n

prefixed_digits :
    (xs : List ℕ) → 0 < length xs → all (is_digit 16) xs ≡ true → starts_hex (48 ∷ 120 ∷ xs) ≡ true
prefixed_digits [] some h = absurd (omega arith)
prefixed_digits (x ∷ xs) some h = (and_split (is_digit 16 x) (all (is_digit 16) xs) h).0

pub strtoll-prefixed : (n : ℕ) → n < 2 ^ 63 → strtoll 0 (prefixed n) ≡ n
unfolding strtoll read_prefix read_sign skip_blanks
strtoll-prefixed n h =
    let w = hex_width 15 1 n in
    let (low, high) = hex_width-bounds 15 1 n in
    let value = read_digits-hex w n (hex_width-enough 15 1 16 n refl (omega arith)) in
    let hex =
      prefixed_digits (hex_digits w n) (omega (arith, length-hex_digits w n, low))
        (hex_digits-all w n) in
    let small : ltb n (2 ^ 63) ≡ true = lt→ltb n (2 ^ 63) h in rw (hex, value, small) refl
