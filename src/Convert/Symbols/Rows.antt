-- ===== src/Convert/Symbols/Rows.antt =====
-- The body of the loop of `ReadSymFile` (tools/convert.cc) on a line that readelf prints.
use mathlib.Core.List.{append_assoc}
use racez.Base.{
  false, Bool, ◌<◌, ltb, ◌^◌, Bool, ◌/◌, if◌then◌else◌, ℕ, ◌≡◌, refl, ap, ◌∙◌, true, not, ◌&&◌,
  List, [], ◌∷◌, ◌++◌, some, arith, ltb, all, and_split, ok,
}
use racez.Convert.Files.{newline, is_end}
use racez.Convert.Numbers.Widths.{prefixed, strtoll-prefixed}
use racez.Convert.Numbers.{strtoll, hex_width, hex_digits, decimal, decimal_digits}
use racez.Convert.Symbols.{space, skip_fields, parse_symbol, parse_value, parse_size}
use racez.Convert.Symbols.Print.{
  print_size, Field, Symbol, spaces, print_field, print_fields, print_before, print_symbol, is_part,
  is_word, IsPrintable, entry_of,
}
use racez.Convert.Numbers.Digits.{
  is_digit, is_digit_16, hex_digits-all, decimal_digits-all, strtoll-hex_digits, strtoll-decimal,
}
use racez.Convert.Symbols.Fields.{strchr-append, no_space, skip_spaces-spaces, skip_field-print}

print_field-append :
    (f : Field) (rest t : List ℕ) → print_field f rest ++ t ≡ print_field f (rest ++ t)
print_field-append f rest t =
    append_assoc (spaces f.pad) (f.word ++ space ∷ rest) t
    ∙ ap (λ xs. spaces f.pad ++ xs) (append_assoc f.word (space ∷ rest) t)

print_fields-append :
    (s : Symbol) (rest t : List ℕ) → print_fields s rest ++ t ≡ print_fields s (rest ++ t)
print_fields-append s rest t =
    let last = print_field-append s.section rest t in
    let third =
      print_field-append s.visibility (print_field s.section rest) t
      ∙ ap (print_field s.visibility) last in
    let second =
      print_field-append s.binding (print_field s.visibility (print_field s.section rest)) t
      ∙ ap (print_field s.binding) third in
    print_field-append s.kind
      (print_field s.binding (print_field s.visibility (print_field s.section rest))) t
    ∙ ap (print_field s.kind) second

-- The line behind the value, and behind the index.
abbrev behind_value : Symbol → List ℕ → List ℕ
behind_value s rest = spaces s.size_pad ++ (print_size s.size ++ space ∷ print_fields s rest)

abbrev behind_index : Symbol → List ℕ → List ℕ
behind_index s rest = hex_digits 16 s.value ++ space ∷ behind_value s rest

behind_value-append :
    (s : Symbol) (rest t : List ℕ) → behind_value s rest ++ t ≡ behind_value s (rest ++ t)
behind_value-append s rest t =
    append_assoc (spaces s.size_pad) (print_size s.size ++ space ∷ print_fields s rest) t
    ∙ ap (λ xs. spaces s.size_pad ++ xs)
        (append_assoc (print_size s.size) (space ∷ print_fields s rest) t
          ∙ ap (λ xs. print_size s.size ++ space ∷ xs) (print_fields-append s rest t))

print_before-append :
    (s : Symbol) (rest t : List ℕ) → print_before s rest ++ t ≡ print_before s (rest ++ t)
print_before-append s rest t =
    print_field-append s.index (behind_index s rest) t
    ∙ ap (print_field s.index) (
        append_assoc (hex_digits 16 s.value) (space ∷ behind_value s rest) t
        ∙ ap (λ xs. hex_digits 16 s.value ++ space ∷ xs) (behind_value-append s rest t))

and_join : (a b : Bool) → a ≡ true → b ≡ true → (a && b) ≡ true
and_join a b h k = rw (h, k)

digits_are_parts : (xs : List ℕ) → all (is_digit 16) xs ≡ true → all is_part xs ≡ true
digits_are_parts [] h = refl
digits_are_parts (c ∷ xs) h =
    let (first, more) = and_split (is_digit 16 c) (all (is_digit 16) xs) h in
    let rest = digits_are_parts xs more in ground (arith, first)

not_end-append : (xs : List ℕ) (c : ℕ) → not (is_end (xs ++ c ∷ [])) ≡ true
not_end-append [] c = refl
not_end-append (x ∷ xs) c = refl

decimal-not_end : (n : ℕ) → not (is_end (decimal n)) ≡ true
unfolding decimal_digits
decimal-not_end n = not_end-append (if ltb n 10 then [] else decimal_digits 19 (n / 10)) _

decimal-is_word : (n : ℕ) → is_word (decimal n) ≡ true
decimal-is_word n =
    and_join (not (is_end (decimal n))) (all is_part (decimal n)) (decimal-not_end n)
      (digits_are_parts (decimal n) (is_digit_16 (decimal n) (decimal_digits-all 20 n)))

prefixed-is_word : (n : ℕ) → is_word (prefixed n) ≡ true
prefixed-is_word n =
    digits_are_parts (hex_digits (hex_width 15 1 n) n) (hex_digits-all (hex_width 15 1 n) n)

choose_size :
    (P : List ℕ → Type 0) (b : Bool) (xs ys : List ℕ) → P xs → P ys → P (if b then xs else ys)
choose_size P true xs ys p q = p
choose_size P false xs ys p q = q

print_size-is_word : (n : ℕ) → is_word (print_size n) ≡ true
print_size-is_word n =
    choose_size (λ xs. is_word xs ≡ true) (ltb n 100000) (decimal n) (prefixed n)
      (decimal-is_word n) (prefixed-is_word n)

strtoll-print_size : (n : ℕ) → n < 2 ^ 63 → strtoll 0 (print_size n) ≡ n
strtoll-print_size n h =
    choose_size (λ xs. strtoll 0 xs ≡ n) (ltb n 100000) (decimal n) (prefixed n)
      (strtoll-decimal n h) (strtoll-prefixed n h)

skip_fields-print :
    (s : Symbol) (rest : List ℕ) → IsPrintable s → skip_fields 4 (print_fields s rest) ≡ ok rest
unfolding skip_fields
skip_fields-print s rest p = rw (
  skip_field-print s.kind
      (print_field s.binding (print_field s.visibility (print_field s.section rest))) p.kind,
  skip_field-print s.binding (print_field s.visibility (print_field s.section rest)) p.binding,
  skip_field-print s.visibility (print_field s.section rest) p.visibility,
  skip_field-print s.section rest p.section,
)

-- The end of the line, from the size on.
parse_size-print :
    (s : Symbol) (offset : ℕ)
    → IsPrintable s
    → parse_size offset (some (print_size s.size, print_fields s (s.name ++ newline ∷ [])))
      ≡ ok (some (record { function_name = s.name; offset = offset; size = s.size }))
parse_size-print s offset p = rw (
  skip_fields-print s (s.name ++ newline ∷ []) p,
  strchr-append newline s.name [] p.name,
  strtoll-print_size s.size p.size,
)

parse_value-print :
    (s : Symbol)
    → IsPrintable s
    → parse_value (some (hex_digits 16 s.value, behind_value s (s.name ++ newline ∷ [])))
      ≡ ok (some (entry_of s))
parse_value-print s p =
    let word = print_size-is_word s.size in
    let end = print_fields s (s.name ++ newline ∷ []) in
    rw (
      strtoll-hex_digits s.value p.value,
      skip_spaces-spaces s.size_pad (print_size s.size) (space ∷ end) word,
      strchr-append space (print_size s.size) end (
          no_space (print_size s.size)
            (and_split (not (is_end (print_size s.size))) (all is_part (print_size s.size))
              word).1),
      parse_size-print s s.value p,
    )

pub parse_symbol-print :
    (s : Symbol)
    → IsPrintable s
    → parse_symbol (print_symbol s ++ newline ∷ []) ≡ ok (some (entry_of s))
unfolding parse_symbol
parse_symbol-print s p =
    let end = s.name ++ newline ∷ [] in
    ap parse_symbol (print_before-append s s.name (newline ∷ []))
    ∙ rw (
      skip_field-print s.index (behind_index s end) p.index,
      strchr-append space (hex_digits 16 s.value) (behind_value s end) (
          no_space (hex_digits 16 s.value)
            (digits_are_parts (hex_digits 16 s.value) (hex_digits-all 16 s.value))),
      parse_value-print s p,
    )
