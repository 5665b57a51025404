-- ===== src/Base/Words.antt =====
-- Machine words as native numbers: `unsigned long` and `atomic64_t` are 64 bits wide. A 32-bit
-- `int` or `atomic_t` is its bit pattern, compared as a signed number.
use Prim.Native.Nat.{ℕ, ◌+◌, ◌%◌, ◌^◌, ◌-◌}
use mathlib.Core.Bool.{Bool}
use kernel_test.Base.Tests.{ltb, leb, if◌then◌else◌}

abbrev pub u64 : ℕ
u64 = 2 ^ 64

abbrev pub u32 : ℕ
u32 = 2 ^ 32

-- A `char` promoted to `unsigned long`: it is signed, so a byte from 128 on is extended by ones.
abbrev pub sext64 : ℕ → ℕ
sext64 b = if ltb b 128 then b else (u64 - 256) + b

-- An `int` converted to `unsigned long long`.
abbrev pub sext32 : ℕ → ℕ
sext32 x = if ltb x (2 ^ 31) then x else (2 ^ 64 - 2 ^ 32) + x

abbrev pub add64 : ℕ → ℕ → ℕ
add64 a b = (a + b) % u64

abbrev pub sub64 : ℕ → ℕ → ℕ
sub64 a b = (a + (u64 - b % u64)) % u64

abbrev pub add32 : ℕ → ℕ → ℕ
add32 a b = (a + b) % u32

abbrev pub dec32 : ℕ → ℕ
dec32 a = (a + (u32 - 1)) % u32

-- The order of signed numbers on bit patterns.
abbrev pub bias : ℕ → ℕ
bias a = (a + 2 ^ 31) % u32

abbrev pub slt : ℕ → ℕ → Bool
slt a b = ltb (bias a) (bias b)

abbrev pub sle : ℕ → ℕ → Bool
sle a b = leb (bias a) (bias b)

abbrev pub sub32 : ℕ → ℕ → ℕ
sub32 a b = (a + (u32 - b % u32)) % u32
