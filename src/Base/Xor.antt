-- ===== src/Base/Xor.antt =====
-- Laws of the native `bit_xor` at variables, from its digits.
use Prim.Native.Nat.{
  ℕ, zero, suc, ◌+◌, ◌-◌, ◌*◌, ◌/◌, ◌%◌, ◌≤◌, ◌<◌, bit_xor, digits, differ, bit_xor-bitwise,
}
use mathlib.Core.Path.{◌≡◌, refl, sym, ap, ap₂, ◌∙◌}
use native.Mathlib.Omega.{arith}

-- The digits in which two numbers differ, at most `fuel` of the first.
abbrev apart : ℕ → ℕ → ℕ → ℕ
apart fuel x y = digits (λ z. z) differ fuel x y

apart_more : (fuel x y : ℕ) → x ≤ fuel → apart (suc fuel) x y ≡ apart fuel x y
apart_more zero zero y le = refl
apart_more (suc fuel) zero y le = refl
apart_more zero (suc x) y le = absurd (omega (arith, le))
apart_more (suc fuel) (suc x) y le =
    let rest = apart_more fuel (suc x / 2) (y / 2) (omega (arith, le)) in omega (arith, rest)

apart_enough : (gap fuel x y : ℕ) → fuel ≡ x + gap → apart fuel x y ≡ apart x x y
apart_enough zero fuel x y e = let same : fuel ≡ x = omega (arith, e) in ap (λ n. apart n x y) same
apart_enough (suc gap) zero x y e = absurd (omega (arith, e))
apart_enough (suc gap) (suc fuel) x y e =
    apart_more fuel x y (omega (arith, e)) ∙ apart_enough gap fuel x y (omega (arith, e))

differ_mod : (x y : ℕ) → x < 2 → y < 2 → differ x y ≡ (x + y) % 2
differ_mod zero y h k = omega arith
differ_mod (suc zero) zero h k = omega arith
differ_mod (suc zero) (suc zero) h k = omega arith
differ_mod (suc zero) (suc (suc y)) h k = absurd (omega arith)
differ_mod (suc (suc x)) y h k = absurd (omega arith)

-- The lowest digit apart from the others.
pub bit_xor_halves : (x y : ℕ) → bit_xor x y ≡ bit_xor (x / 2) (y / 2) * 2 + (x + y) % 2
bit_xor_halves zero y =
    let whole = bit_xor-bitwise 0 y in
    let half = bit_xor-bitwise 0 (y / 2) in omega (arith, whole, half)
bit_xor_halves (suc x) y =
    let whole = bit_xor-bitwise (suc x) y in
    let half = bit_xor-bitwise (suc x / 2) (y / 2) in
    let enough = apart_enough (x - suc x / 2) x (suc x / 2) (y / 2) (omega arith) in
    let digit = differ_mod (suc x % 2) (y % 2) (omega arith) (omega arith) in
    omega (arith, whole, half, enough, digit)

pub bit_xor-div : (x y : ℕ) → bit_xor x y / 2 ≡ bit_xor (x / 2) (y / 2)
bit_xor-div x y = omega (arith, bit_xor_halves x y)

pub bit_xor-mod : (x y : ℕ) → bit_xor x y % 2 ≡ (x + y) % 2
bit_xor-mod x y = omega (arith, bit_xor_halves x y)

pub bit_xor-zero : (x : ℕ) → bit_xor 0 x ≡ x
bit_xor-zero x = bit_xor-bitwise 0 x

comm_below : (n x y : ℕ) → x ≤ n → y ≤ n → bit_xor x y ≡ bit_xor y x
comm_below zero x y h k = ap₂ bit_xor (omega arith) (omega arith)
comm_below (suc n) x y h k = omega (
  arith,
  bit_xor_halves x y,
  bit_xor_halves y x,
  comm_below n (x / 2) (y / 2) (omega arith) (omega arith),
)

pub bit_xor_comm : (x y : ℕ) → bit_xor x y ≡ bit_xor y x
bit_xor_comm x y = comm_below (x + y) x y (omega arith) (omega arith)

assoc_below :
    (n x y z : ℕ) → x ≤ n → y ≤ n → z ≤ n → bit_xor (bit_xor x y) z ≡ bit_xor x (bit_xor y z)
assoc_below zero x y z h k l =
    let e : x ≡ 0 = omega arith in
    ap (λ w. bit_xor (bit_xor w y) z) e
    ∙ (ap (λ w. bit_xor w z) (bit_xor-zero y)
        ∙ (sym (bit_xor-zero (bit_xor y z)) ∙ ap (λ w. bit_xor w (bit_xor y z)) (sym e)))
assoc_below (suc n) x y z h k l =
    let ih = assoc_below n (x / 2) (y / 2) (z / 2) (omega arith) (omega arith) (omega arith) in
    let left = ap (λ w. bit_xor w (z / 2)) (bit_xor-div x y) in
    let right = ap (bit_xor (x / 2)) (bit_xor-div y z) in
    omega (
      arith,
      bit_xor_halves (bit_xor x y) z,
      bit_xor_halves x (bit_xor y z),
      bit_xor-mod x y,
      bit_xor-mod y z,
      left,
      right,
      ih,
    )

pub bit_xor_assoc : (x y z : ℕ) → bit_xor (bit_xor x y) z ≡ bit_xor x (bit_xor y z)
bit_xor_assoc x y z = assoc_below (x + y + z) x y z (omega arith) (omega arith) (omega arith)

self_below : (n x : ℕ) → x ≤ n → bit_xor x x ≡ 0
self_below zero x h = let e : x ≡ 0 = omega arith in ap (λ w. bit_xor w w) e
self_below (suc n) x h = omega (arith, bit_xor_halves x x, self_below n (x / 2) (omega arith))

pub bit_xor_self : (x : ℕ) → bit_xor x x ≡ 0
bit_xor_self x = self_below x x (omega arith)
