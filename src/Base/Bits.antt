-- ===== src/Base/Bits.antt =====
-- Laws of the native `bit_and` at variables, from its digits, up to the test of priskv-utils.h
-- `IS_POWER_OF_2`.
use Prim.Native.Nat.{
  ℕ, zero, suc, ◌+◌, ◌-◌, ◌*◌, ◌/◌, ◌%◌, ◌≤◌, ◌<◌, min, bit_and, digits, bit_and-bitwise,
}
use mathlib.Core.Path.{◌≡◌, refl, sym, ap, ap₂, ◌∙◌}
use mathlib.Core.Logic.{◌⊎◌, inl, inr}
use native.Mathlib.Decide.{ℕ_discrete}
use native.Mathlib.Omega.{arith}
use pris_kv.Base.Pow.{pow2, pow2_pos}

-- The digits that two numbers share, at most `fuel` of them.
abbrev common : ℕ → ℕ → ℕ → ℕ
common fuel x y = digits (λ z. 0) min fuel x y

-- One more digit than there are changes nothing.
common_more : (fuel x y : ℕ) → x ≤ fuel → common (suc fuel) x y ≡ common fuel x y
common_more zero zero y le = refl
common_more (suc fuel) zero y le = refl
common_more zero (suc x) y le = absurd (omega (arith, le))
common_more (suc fuel) (suc x) y le =
    let rest = common_more fuel (suc x / 2) (y / 2) (omega (arith, le)) in omega (arith, rest)

common_enough : (gap fuel x y : ℕ) → fuel ≡ x + gap → common fuel x y ≡ common x x y
common_enough zero fuel x y e =
    let same : fuel ≡ x = omega (arith, e) in ap (λ n. common n x y) same
common_enough (suc gap) zero x y e = absurd (omega (arith, e))
common_enough (suc gap) (suc fuel) x y e =
    common_more fuel x y (omega (arith, e)) ∙ common_enough gap fuel x y (omega (arith, e))

-- The lowest digit apart from the others.
bit_and_halves : (x y : ℕ) → bit_and x y ≡ bit_and (x / 2) (y / 2) * 2 + min (x % 2) (y % 2)
bit_and_halves zero y =
    let whole = bit_and-bitwise 0 y in
    let half = bit_and-bitwise 0 (y / 2) in omega (arith, whole, half)
bit_and_halves (suc x) y =
    let whole = bit_and-bitwise (suc x) y in
    let half = bit_and-bitwise (suc x / 2) (y / 2) in
    let enough = common_enough (x - suc x / 2) x (suc x / 2) (y / 2) (omega arith) in
    omega (arith, whole, half, enough)

bit_and_same_below : (bound x : ℕ) → x < bound → bit_and x x ≡ x
bit_and_same_below zero x lt = absurd (omega (arith, lt))
bit_and_same_below (suc bound) x lt = elim (ℕ_discrete x 0) [
  | yes e ↦ ap₂ bit_and e e ∙ sym e
  | no ne ↦
      let half = bit_and_same_below bound (x / 2) (omega (arith, lt, ne)) in
      omega (arith, bit_and_halves x x, half)
]

bit_and_same : (x : ℕ) → bit_and x x ≡ x
bit_and_same x = bit_and_same_below (suc x) x (omega arith)

-- `x & (x - 1)` at an even number is twice what it is at the half.
pub bit_and-pred_even : (y : ℕ) → 0 < y → bit_and (y + y) (y + y - 1) ≡ bit_and y (y - 1) * 2
bit_and-pred_even y h =
    let half : (y + y) / 2 ≡ y = omega arith in
    let half_pred : (y + y - 1) / 2 ≡ y - 1 = omega arith in
    omega (arith, bit_and_halves (y + y) (y + y - 1), ap₂ bit_and half half_pred)

-- At an odd number only the lowest bit goes.
pub bit_and-pred_odd : (y : ℕ) → bit_and (y + y + 1) (y + y) ≡ y * 2
bit_and-pred_odd y =
    let half : (y + y + 1) / 2 ≡ y = omega arith in
    let half_pred : (y + y) / 2 ≡ y = omega arith in
    omega (arith, bit_and_halves (y + y + 1) (y + y), ap₂ bit_and half half_pred, bit_and_same y)

pub bit_and-pow2 : (k : ℕ) → bit_and (pow2 k) (pow2 k - 1) ≡ 0
bit_and-pow2 zero = refl
bit_and-pow2 (suc k) = omega (arith, bit_and-pred_even (pow2 k) (pow2_pos k), bit_and-pow2 k)

parity : (x : ℕ) → ((y : ℕ) × (x ≡ y + y)) ⊎ ((y : ℕ) × (x ≡ y + y + 1))
parity zero = inl (0, omega arith)
parity (suc x) = elim (parity x) [
  | inl (y, e) ↦ inr (y, omega arith)
  | inr (y, e) ↦ inl (suc y, omega arith)
]

pow2_of_fuel : (n x : ℕ) → x ≤ n → 0 < x → bit_and x (x - 1) ≡ 0 → (k : ℕ) × (x ≡ pow2 k)
pow2_of_fuel zero x h p e = absurd (omega arith)
pow2_of_fuel (suc n) x h p e = elim (parity x) [
  | inl (y, ev) ↦
      let f : bit_and (y + y) (y + y - 1) ≡ 0 = rw ev at e in
      let (k, ih) =
        pow2_of_fuel n y (omega arith) (omega arith)
          (omega (arith, bit_and-pred_even y (omega arith))) in
      (suc k, omega arith)
  | inr (y, od) ↦
      let pred : x - 1 ≡ y + y = omega arith in
      let f : bit_and (y + y + 1) (y + y) ≡ 0 = sym (ap₂ bit_and od pred) ∙ e in
      (0, omega (arith, bit_and-pred_odd y))
]

pub pow2_of_bit_and : (x : ℕ) → 0 < x → bit_and x (x - 1) ≡ 0 → (k : ℕ) × (x ≡ pow2 k)
pow2_of_bit_and x = pow2_of_fuel x x (omega arith)

bit_and_below : (bound x y : ℕ) → x < bound → bit_and x y ≤ y
bit_and_below zero x y lt = absurd (omega (arith, lt))
bit_and_below (suc bound) x y lt = elim (ℕ_discrete x 0) [
  | yes e ↦
      let whole = bit_and-bitwise 0 y in
      let same : bit_and x y ≡ bit_and 0 y = ap (λ z. bit_and z y) e in omega (arith, whole, same)
  | no ne ↦
      let half = bit_and_below bound (x / 2) (y / 2) (omega (arith, lt, ne)) in
      omega (arith, bit_and_halves x y, half)
]

pub bit_and_le : (x y : ℕ) → bit_and x y ≤ y
bit_and_le x y = bit_and_below (suc x) x y (omega arith)
