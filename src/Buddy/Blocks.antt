-- ===== src/Buddy/Blocks.antt =====
-- How many blocks a request takes: `alignup` of `priskv_buddy_alloc`.
use pris_kv.Base.{
  ℕ, zero, suc, ◌+◌, ◌-◌, ◌*◌, ◌/◌, ◌%◌, ◌≤◌, ◌<◌, ◌≡◌, inl, inr, arith, true, false, ◌==◌, dec_lt,
  ==_iff, Bool-cases, subst, refl, ap, ◌∙◌,
}
use pris_kv.Base.Word.{u32, sub_u32, is_power_of_2, bit_length}
use pris_kv.Base.Pow.{pow2, pow2_pos, pow2_mono, pow2_lt, pow2-eq-pow}
use pris_kv.Base.Bits.{bit_and-pow2, pow2_of_bit_and}
use pris_kv.Buddy.{Buddy, roundup_power_of_2, align_up, blocks_for}
use native.Mathlib.Nat.{div-add-mod, mod-lt}

-- `IS_POWER_OF_2` decides what it says of a `uint32_t` other than 0.
pub is_power_of_2-pow2 : (k : ℕ) → pow2 k < 4294967296 → is_power_of_2 (pow2 k) ≡ true
unfolding is_power_of_2
is_power_of_2-pow2 k h =
    let pred : sub_u32 (pow2 k) 1 ≡ pow2 k - 1 = omega (arith, pow2_pos k) in
    rw pred ((==_iff _ 0).1 (bit_and-pow2 k))

pub pow2_of_is_power_of_2 :
    (x : ℕ) → 0 < x → x < 4294967296 → is_power_of_2 x ≡ true → (k : ℕ) × (x ≡ pow2 k)
unfolding is_power_of_2
pow2_of_is_power_of_2 x p h e =
    let pred : sub_u32 x 1 ≡ x - 1 = omega arith in
    pow2_of_bit_and x p ((==_iff _ 0).0 (rw pred at e))

-- The power of two at or below a number.
pub log2 : (n x : ℕ) → x ≤ n → 0 < x → (k : ℕ) × (pow2 k ≤ x) × (x < pow2 (suc k))
log2 zero x h p = absurd (omega arith)
log2 (suc n) x h p = elim (dec_lt 1 x) [
  | yes lt ↦
      let (k, lo, hi) = log2 n (x / 2) (omega arith) (omega arith) in
      (suc k, omega arith, omega arith)
  | no ge ↦ (0, omega arith, omega arith)
]

bit_length-zero : (f : ℕ) → bit_length f 0 ≡ 0
unfolding bit_length
bit_length-zero zero = refl
bit_length-zero (suc f) = refl

bit_length_lem : (f k x : ℕ) → pow2 k ≤ x → x < pow2 (suc k) → k < f → bit_length f x ≡ suc k
unfolding bit_length
bit_length_lem zero k x lo hi h = absurd (omega arith)
bit_length_lem (suc f) zero x lo hi h =
    let half : x / 2 ≡ 0 = omega arith in
    let test : (x == 0) ≡ false = ground arith in rw (test, half, bit_length-zero f)
bit_length_lem (suc f) (suc k) x lo hi h =
    let test : (x == 0) ≡ false = ground (arith, pow2_pos k) in
    rw (test, bit_length_lem f k (x / 2) (omega arith) (omega arith) (omega arith))

-- `roundup_power_of_2` goes to the next power of two above.
pub roundup_lem :
    (k x : ℕ)
    → pow2 k ≤ x
    → x < pow2 (suc k)
    → pow2 (suc k) < 4294967296
    → roundup_power_of_2 x ≡ pow2 (suc k)
unfolding roundup_power_of_2
roundup_lem k x lo hi h =
    let short : suc k < 32 = pow2_lt (suc k) 32 (omega arith) in
    let digits : 32 - (32 - bit_length 32 x) ≡ suc k =
      omega (arith, bit_length_lem 32 k x lo hi (omega arith)) in
    rw digits (omega (arith, pow2-eq-pow (suc k)))

-- The least power of two that is not below a count.
align_up_lem :
    (c : ℕ)
    → 0 < c
    → c ≤ 2147483648
    → (j : ℕ) × (align_up c ≡ pow2 j) × (c ≤ pow2 j) × ((h : ℕ) → pow2 j ≡ h + h → h < c)
unfolding align_up
align_up_lem c p small = elim (Bool-cases (is_power_of_2 c)) [
  | inl e ↦
      let (k, is) = pow2_of_is_power_of_2 c p (omega arith) e in
      (k, rw (e, align_up) is, omega arith, λ h g. omega arith)
  | inr e ↦
      let (k, lo, hi) = log2 c c (omega arith) p in
      let ne : k < 31 = not_top c k small lo e in
      let top : pow2 (suc k) < 4294967296 = omega (arith, pow2_mono (suc k) 31 (omega arith)) in
      (
        suc k,
        rw (e, align_up) (roundup_lem k c lo hi top),
        omega arith,
        λ h g. omega (arith, strict c k lo e (omega (arith, pow2_mono k 31 (omega arith)))),
      )
]
  where
    strict : (c k : ℕ) → pow2 k ≤ c → is_power_of_2 c ≡ false → pow2 k < 4294967296 → pow2 k < c
    strict c k lo e h = elim (dec_lt (pow2 k) c) [
      | yes lt ↦ lt
      | no ge ↦
          let same : pow2 k ≡ c = omega arith in
          absurd (cc (subst (λ z. is_power_of_2 z ≡ true) same (is_power_of_2-pow2 k h), e))
    ]

    not_top : (c k : ℕ) → c ≤ 2147483648 → pow2 k ≤ c → is_power_of_2 c ≡ false → k < 31
    not_top c k h lo e =
        let below : pow2 k < pow2 31 = omega (arith, strict c k lo e (omega arith)) in
        pow2_lt k 31 below

-- `(size + unit - 1) / unit` is the number of units that hold `size` bytes.
ceil_bounds :
    (size unit c r : ℕ)
    → 0 < size
    → 0 < unit
    → unit * c + r ≡ size + unit - 1
    → r < unit
    → (0 < c) × (size ≤ c * unit) × ((h : ℕ) → h < c → h * unit < size) × (c ≤ size)
ceil_bounds size unit zero r p q e lt = absurd (omega arith)
ceil_bounds size unit (suc c) r p q e lt =
    (omega arith, omega arith, λ h g. grind arith, grind arith)

-- `size` bytes take the least power of two of blocks that hold them.
pub record Fits (b : Buddy) (size j : ℕ) : Type 0 where
  pub count : blocks_for b size ≡ pow2 j
  pub holds : size ≤ pow2 j * b.size
  pub least : (h : ℕ) → pow2 j ≡ h + h → h * b.size < size

pub blocks_for-Fits :
    (b : Buddy) (size : ℕ) → 0 < size → size ≤ 2147483648 → 0 < b.size → (j : ℕ) × Fits b size j
unfolding blocks_for
blocks_for-Fits b size p small q =
    let c = (size + b.size - 1) / b.size in
    let (pos, hold, tight, le) =
      ceil_bounds size b.size c ((size + b.size - 1) % b.size) p q
        (div-add-mod (size + b.size - 1) b.size) (mod-lt (size + b.size - 1) q) in
    let word : u32 c ≡ c = omega arith in
    let (j, count, ge, least) = align_up_lem c pos (omega arith) in
    (
      j,
      record {
        count = ap align_up word ∙ count;
        holds = grind arith;
        least = λ h g. tight h (least h g);
      },
    )
