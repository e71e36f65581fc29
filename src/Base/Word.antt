-- ===== src/Base/Word.antt =====
-- Machine words: a `uint32_t` or `uint64_t` is a number, and each operation that can wrap says so.
use pris_kv.Base.Tests.{◌==◌, if◌then◌else◌}
use Prim.Native.Nat.{ℕ, zero, suc, ◌+◌, ◌-◌, ◌/◌, ◌%◌, bit_and}
use mathlib.Core.Bool.{Bool}

abbrev pub u32_mod : ℕ
u32_mod = 4294967296

abbrev pub u64_mod : ℕ
u64_mod = 18446744073709551616

abbrev pub u32 : ℕ → ℕ
u32 x = x % u32_mod

abbrev pub u64 : ℕ → ℕ
u64 x = x % u64_mod

-- a - b on `uint32_t`, for `b` in range
abbrev pub sub_u32 : ℕ → ℕ → ℕ
sub_u32 a b = u32 (a + u32_mod - b)

-- priskv-utils.h `IS_POWER_OF_2`, at a `uint32_t`: `!((x) & ((x) - 1))`
unfoldable pub is_power_of_2 : ℕ → Bool
is_power_of_2 x = bit_and x (sub_u32 x 1) == 0

-- how many binary digits `x` has, if these are at most `fuel`
unfoldable pub bit_length : ℕ → ℕ → ℕ
bit_length zero x = 0
bit_length (suc fuel) x = if x == 0 then 0 else suc (bit_length fuel (x / 2))

-- `__builtin_clz`: the leading zeros of a `uint32_t` other than 0
unfoldable pub clz : ℕ → ℕ
unfolding bit_length
clz x = 32 - bit_length 32 x
