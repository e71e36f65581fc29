-- ===== src/Base/Pow.antt =====
-- Powers of two by doubling, which `omega` reads, and the bridge to `2 ^ k`.
use Prim.Native.Nat.{ℕ, zero, suc, ◌+◌, ◌^◌, ◌≤◌, ◌<◌}
use mathlib.Core.Path.{◌≡◌, refl}
use native.Mathlib.Omega.{arith}
use native.Mathlib.Nat.{pow-suc}

-- 2 ^ k
abbrev pub pow2 : ℕ → ℕ
pow2 zero = 1
pow2 (suc k) = pow2 k + pow2 k

pub pow2_pos : (k : ℕ) → 0 < pow2 k
pow2_pos zero = omega arith
pow2_pos (suc k) = omega (arith, pow2_pos k)

pub pow2-eq-pow : (k : ℕ) → pow2 k ≡ 2 ^ k
pow2-eq-pow zero = refl
pow2-eq-pow (suc k) = omega (arith, pow2-eq-pow k, pow-suc 2 k)

pub pow2_mono : (j k : ℕ) → j ≤ k → pow2 j ≤ pow2 k
pow2_mono zero zero h = omega arith
pow2_mono zero (suc k) h = omega (arith, pow2_mono zero k (omega arith), pow2_pos k)
pow2_mono (suc j) zero h = absurd (omega arith)
pow2_mono (suc j) (suc k) h = omega (arith, pow2_mono j k (omega arith))

pub pow2_lt : (j k : ℕ) → pow2 j < pow2 k → j < k
pow2_lt zero zero h = absurd (omega arith)
pow2_lt zero (suc k) h = omega arith
pow2_lt (suc j) zero h = absurd (omega (arith, pow2_pos j))
pow2_lt (suc j) (suc k) h = omega (arith, pow2_lt j k (omega arith))

pub pow2_injective : (j k : ℕ) → pow2 j ≡ pow2 k → j ≡ k
pow2_injective zero zero h = refl
pow2_injective zero (suc k) h = absurd (omega (arith, pow2_pos k))
pow2_injective (suc j) zero h = absurd (omega (arith, pow2_pos j))
pow2_injective (suc j) (suc k) h = omega (arith, pow2_injective j k (omega arith))
