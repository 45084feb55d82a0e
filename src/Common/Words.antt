-- ===== src/Common/Words.antt =====
-- Machine words: an unsigned word is a number below its modulus, a signed one the integer itself.
use mathlib.Core.Bool.{Bool, true, false}
use Prim.Native.Nat.{ℕ, zero, suc, ◌+◌, ◌-◌, ◌%◌, ◌^◌, ◌<◌}
use mathlib.Core.Path.{◌≡◌}
use native.Mathlib.Omega.{arith}
use async_rpc_fbthrift.Common.Tests.{ltb, if◌then◌else◌}

-- `negsuc n` is -(n + 1).
pub data ℤ : Type 0 where
  pos : ℕ → ℤ
  negsuc : ℕ → ℤ

abbrev pub u32 : ℕ → ℕ
u32 n = n % 2 ^ 32

abbrev pub u64 : ℕ → ℕ
u64 n = n % 2 ^ 64

-- a - b on `uint32_t`, for operands below the modulus.
abbrev pub sub32 : ℕ → ℕ → ℕ
sub32 a b = (a + 2 ^ 32 - b) % 2 ^ 32

-- The conversions between `uint64_t` and `int64_t`.
abbrev pub i64_of_u64 : ℕ → ℤ
i64_of_u64 n = if ltb n (2 ^ 63) then ℤ.pos n else ℤ.negsuc (2 ^ 64 - n - 1)

abbrev pub u64_of_i64 : ℤ → ℕ
u64_of_i64 (ℤ.pos n) = n % 2 ^ 64
u64_of_i64 (ℤ.negsuc n) = (2 ^ 64 - (n + 1) % 2 ^ 64) % 2 ^ 64

-- The conversions between `uint32_t` and `int32_t`.
abbrev pub i32_of_u32 : ℕ → ℤ
i32_of_u32 n = if ltb n (2 ^ 31) then ℤ.pos n else ℤ.negsuc (2 ^ 32 - n - 1)

abbrev pub u32_of_i32 : ℤ → ℕ
u32_of_i32 (ℤ.pos n) = n % 2 ^ 32
u32_of_i32 (ℤ.negsuc n) = (2 ^ 32 - (n + 1) % 2 ^ 32) % 2 ^ 32

pub u64_of_i64-i64_of_u64 : (n : ℕ) → n < 2 ^ 64 → u64_of_i64 (i64_of_u64 n) ≡ n
u64_of_i64-i64_of_u64 n h = ground arith

pub u32_of_i32-i32_of_u32 : (n : ℕ) → n < 2 ^ 32 → u32_of_i32 (i32_of_u32 n) ≡ n
u32_of_i32-i32_of_u32 n h = ground arith

-- ++ and -- on the integers, and <.
abbrev pub up : ℤ → ℤ
up (ℤ.pos n) = ℤ.pos (n + 1)
up (ℤ.negsuc zero) = ℤ.pos 0
up (ℤ.negsuc (suc n)) = ℤ.negsuc n

abbrev pub down : ℤ → ℤ
down (ℤ.pos zero) = ℤ.negsuc 0
down (ℤ.pos (suc n)) = ℤ.pos n
down (ℤ.negsuc n) = ℤ.negsuc (n + 1)

abbrev pub ltz : ℤ → ℤ → Bool
ltz (ℤ.pos m) (ℤ.pos n) = ltb m n
ltz (ℤ.pos m) (ℤ.negsuc n) = false
ltz (ℤ.negsuc m) (ℤ.pos n) = true
ltz (ℤ.negsuc m) (ℤ.negsuc n) = ltb n m

-- m - n for m and n on ℕ, and the sum and the difference on the integers.
abbrev pub sub_nat : ℕ → ℕ → ℤ
sub_nat m n = if ltb m n then ℤ.negsuc (n - m - 1) else ℤ.pos (m - n)

infixl 60 ◌+ℤ◌ ◌-ℤ◌
abbrev pub ◌+ℤ◌ : ℤ → ℤ → ℤ
ℤ.pos m +ℤ ℤ.pos n = ℤ.pos (m + n)
ℤ.pos m +ℤ ℤ.negsuc n = sub_nat m (n + 1)
ℤ.negsuc m +ℤ ℤ.pos n = sub_nat n (m + 1)
ℤ.negsuc m +ℤ ℤ.negsuc n = ℤ.negsuc (m + n + 1)

abbrev pub ◌-ℤ◌ : ℤ → ℤ → ℤ
ℤ.pos m -ℤ ℤ.pos n = sub_nat m n
ℤ.pos m -ℤ ℤ.negsuc n = ℤ.pos (m + n + 1)
ℤ.negsuc m -ℤ ℤ.pos n = ℤ.negsuc (m + n)
ℤ.negsuc m -ℤ ℤ.negsuc n = sub_nat n m
