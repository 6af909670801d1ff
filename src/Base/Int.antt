-- ===== src/Base/Int.antt =====
-- A 32-bit `int` is kept as its bit pattern, a number below 2 ^ 32: equality is that of the
-- patterns, and `<` is signed.
use Prim.Native.Nat.{ℕ, ◌+◌, ◌-◌, ◌%◌, ◌^◌}
use mathlib.Core.Bool.{Bool}
use racez.Base.Tests.{ltb, if◌then◌else◌}

-- The conversion of a wider number to `int`.
abbrev pub to_int : ℕ → ℕ
to_int x = x % 2 ^ 32

-- `a < b` on two `int`s.
abbrev pub int_ltb : ℕ → ℕ → Bool
int_ltb a b = ltb ((a + 2 ^ 31) % 2 ^ 32) ((b + 2 ^ 31) % 2 ^ 32)

-- The rounds of `for (int i = 0; i < n; i++)`: none if `n` is negative.
abbrev pub rounds : ℕ → ℕ
rounds n = if ltb n (2 ^ 31) then n else 0

-- A pointer (64 bits) plus an `int`.
abbrev pub ptr_add : ℕ → ℕ → ℕ
ptr_add p n = if ltb n (2 ^ 31) then (p + n) % 2 ^ 64 else (p + 2 ^ 64 + n - 2 ^ 32) % 2 ^ 64
