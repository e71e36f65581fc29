-- ===== src/Crc/Shift.antt =====
-- One byte of server/crc.c against the division by the polynomial one bit at a time, the
-- definition of this CRC.
use Prim.Native.Nat.{bit_xor}
use pris_kv.Base.{
  ℕ, zero, suc, ◌+◌, ◌*◌, ◌/◌, ◌%◌, ◌<◌, ◌≡◌, ◌∙◌, Bool, true, false, refl, sym, ap, ap₂, arith,
  ◌==◌, ==_iff, if◌then◌else◌, Bool-cases, inl, inr, ℕ_discrete,
}
use pris_kv.Base.Pow.{pow2}
use pris_kv.Base.Xor.{
  bit_xor-div, bit_xor-mod, bit_xor_halves, bit_xor-zero, bit_xor_comm, bit_xor_assoc,
}
use pris_kv.Crc.{crc_entry, crc32_1}

-- The polynomial, with the bit of the highest power left out and the lowest bit first.
abbrev pub polynomial : ℕ
polynomial = 0xedb88320

unfoldable pub mask : ℕ → ℕ
mask zero = 0
mask (suc n) = polynomial

-- One bit of the division.
unfoldable pub shift : ℕ → ℕ
shift x = bit_xor (x / 2) (mask (x % 2))

unfoldable pub shifts : ℕ → ℕ → ℕ
shifts zero x = x
shifts (suc n) x = shifts n (shift x)

interchange :
    (x y u v : ℕ) → bit_xor (bit_xor x y) (bit_xor u v) ≡ bit_xor (bit_xor x u) (bit_xor y v)
interchange x y u v =
    bit_xor_assoc x y (bit_xor u v)
    ∙ (ap (bit_xor x) (
          sym (bit_xor_assoc y u v)
          ∙ (ap (λ w. bit_xor w v) (bit_xor_comm y u) ∙ bit_xor_assoc u y v))
        ∙ sym (bit_xor_assoc x u (bit_xor y v)))

mask_digits : (p q : ℕ) → p < 2 → q < 2 → mask ((p + q) % 2) ≡ bit_xor (mask p) (mask q)
unfolding mask
mask_digits zero zero h k = refl
mask_digits zero (suc zero) h k = refl
mask_digits (suc zero) zero h k = refl
mask_digits (suc zero) (suc zero) h k = refl
mask_digits p (suc (suc q)) h k = absurd (omega arith)
mask_digits (suc (suc p)) q h k = absurd (omega arith)

mask_sum : (a b : ℕ) → mask ((a + b) % 2) ≡ bit_xor (mask (a % 2)) (mask (b % 2))
mask_sum a b =
    let e : (a + b) % 2 ≡ (a % 2 + b % 2) % 2 = omega arith in
    ap mask e ∙ mask_digits (a % 2) (b % 2) (omega arith) (omega arith)

-- The division is linear.
shift-bit_xor : (a b : ℕ) → shift (bit_xor a b) ≡ bit_xor (shift a) (shift b)
unfolding shift
shift-bit_xor a b =
    ap₂ bit_xor (bit_xor-div a b) (ap mask (bit_xor-mod a b) ∙ mask_sum a b)
    ∙ interchange (a / 2) (b / 2) (mask (a % 2)) (mask (b % 2))

shifts-bit_xor : (n a b : ℕ) → shifts n (bit_xor a b) ≡ bit_xor (shifts n a) (shifts n b)
unfolding shifts
shifts-bit_xor zero a b = refl
shifts-bit_xor (suc n) a b =
    ap (shifts n) (shift-bit_xor a b) ∙ shifts-bit_xor n (shift a) (shift b)

shift_double : (m : ℕ) → shift (m + m) ≡ m
unfolding shift mask
shift_double m =
    let half : (m + m) / 2 ≡ m = omega arith in
    let even : (m + m) % 2 ≡ 0 = omega arith in
    ap₂ (λ x y. bit_xor x (mask y)) half even ∙ (bit_xor_comm m 0 ∙ bit_xor-zero m)

double : (h p : ℕ) → h * (p + p) ≡ h * p + h * p
double h p = grind arith

shifts_multiple : (k h : ℕ) → shifts k (h * pow2 k) ≡ h
unfolding shifts
shifts_multiple zero h = omega arith
shifts_multiple (suc k) h =
    ap (shifts k) (ap shift (double h (pow2 k)) ∙ shift_double (h * pow2 k)) ∙ shifts_multiple k h

-- Numbers without a common digit are added.
bit_xor_above : (k h l : ℕ) → l < pow2 k → bit_xor (h * pow2 k) l ≡ h * pow2 k + l
bit_xor_above zero h l lt =
    let e : l ≡ 0 = omega arith in
    ap (bit_xor (h * 1)) e ∙ (bit_xor_comm (h * 1) 0 ∙ (bit_xor-zero (h * 1) ∙ omega arith))
bit_xor_above (suc k) h l lt =
    let m = h * pow2 k in
    let half : h * pow2 (suc k) / 2 ≡ m = omega (arith, double h (pow2 k)) in
    omega (
      arith,
      double h (pow2 k),
      bit_xor_halves (h * pow2 (suc k)) l,
      ap (λ w. bit_xor w (l / 2)) half,
      bit_xor_above k h (l / 2) (omega arith),
    )

halve : ℕ → ℕ → ℕ
halve zero x = x
halve (suc n) x = halve n (x / 2)

halve-bit_xor : (n x y : ℕ) → halve n (bit_xor x y) ≡ bit_xor (halve n x) (halve n y)
unfolding halve
halve-bit_xor zero x y = refl
halve-bit_xor (suc n) x y = ap (halve n) (bit_xor-div x y) ∙ halve-bit_xor n (x / 2) (y / 2)

halve_eight : (x : ℕ) → halve 8 x ≡ x / 256
unfolding halve
halve_eight x = omega arith

passes : (ℕ → Bool) → ℕ → Bool
passes test zero = true
passes test (suc limit) = if test limit then passes test limit else false

passes→true : (test : ℕ → Bool) (limit i : ℕ) → i < limit → passes test limit ≡ true → test i ≡ true
unfolding passes
passes→true test zero i lt h = absurd (omega arith)
passes→true test (suc limit) i lt h = elim (Bool-cases (test limit)) [
  | inl e ↦ elim (ℕ_discrete i limit) [
    | yes same ↦ ap test same ∙ e
    | no other ↦ passes→true test limit i (omega arith) (ground (arith, e, h))
  ]
  | inr e ↦ absurd (ground (arith, e, h))
]

-- Every entry of the table is the division of its index.
table : passes (λ i. crc_entry i == shifts 8 i) 256 ≡ true
unfolding passes crc_entry shifts shift mask
table = refl

crc_entry-eq-shifts : (i : ℕ) → i < 256 → crc_entry i ≡ shifts 8 i
crc_entry-eq-shifts i h = (==_iff _ _).0 (passes→true _ 256 i h table)

crc-div : (crc byte : ℕ) → byte < 256 → bit_xor crc byte / 256 ≡ crc / 256
crc-div crc byte h =
    let above : byte / 256 ≡ 0 = omega arith in
    sym (halve_eight (bit_xor crc byte))
    ∙ (halve-bit_xor 8 crc byte
        ∙ (ap₂ bit_xor (halve_eight crc) (halve_eight byte ∙ above)
            ∙ (bit_xor_comm (crc / 256) 0 ∙ bit_xor-zero (crc / 256))))

-- One byte through the table is eight bits of the division.
pub crc32_1_lem : (crc byte : ℕ) → byte < 256 → crc32_1 crc byte ≡ shifts 8 (bit_xor crc byte)
unfolding crc32_1
crc32_1_lem crc byte h =
    let x = bit_xor crc byte in
    let parts : x ≡ x / 256 * 256 + x % 256 = omega arith in
    let low : x % 256 < 256 = omega arith in
    ap₂ bit_xor (crc_entry-eq-shifts (x % 256) low) (sym (crc-div crc byte h))
    ∙ (bit_xor_comm (shifts 8 (x % 256)) (x / 256)
        ∙ (ap (λ w. bit_xor w (shifts 8 (x % 256))) (sym (shifts_multiple 8 (x / 256)))
            ∙ (sym (shifts-bit_xor 8 (x / 256 * 256) (x % 256))
                ∙ ap (shifts 8) (bit_xor_above 8 (x / 256) (x % 256) low ∙ sym parts))))
