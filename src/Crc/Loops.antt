-- ===== src/Crc/Loops.antt =====
-- The three loops of priskv_crc32 (server/crc.c) against one division over all bits of the key.
use Prim.Native.Nat.{bit_xor}
use pris_kv.Base.{
  ℕ, zero, suc, ◌+◌, ◌-◌, ◌/◌, ◌%◌, ◌<◌, ◌≤◌, ◌≡◌, ◌∙◌, List, [], ◌∷◌, refl, sym, ap, arith, length,
  leb, Bool-cases, inl, inr,
}
use pris_kv.Base.Pow.{pow2, pow2-eq-pow}
use pris_kv.Base.Word.{u32_mod}
use pris_kv.Base.Xor.{bit_xor_halves, bit_xor-zero}
use pris_kv.Crc.{Scan, crc32_1, unrolled, crc_loop, crc32}
use pris_kv.Crc.Shift.{mask, shift, shifts, crc32_1_lem}

-- The division of the bytes one bit at a time: the definition of this CRC, which starts at 0 and
-- inverts nothing.
unfoldable pub bitwise_crc : ℕ → List ℕ → ℕ
bitwise_crc crc [] = crc
bitwise_crc crc (byte ∷ buf) = bitwise_crc (shifts 8 (bit_xor crc byte)) buf

unfoldable pub Bytes : List ℕ → Type 0
Bytes [] = Unit {0}
Bytes (byte ∷ buf) = (byte < 256) × Bytes buf

-- What is left to do has the result of the whole.
record Goes (result : ℕ) (s : Scan) : Type 0 where
  pub same : bitwise_crc s.crc s.buf ≡ result
  pub len : length s.buf ≡ s.len
  pub bytes : Bytes s.buf

unrolled-Goes :
    (n result crc : ℕ) (buf : List ℕ) (rest : ℕ)
    → Goes result (record { crc = crc; buf = buf; len = n + rest })
    → Goes result
        (record { crc = (unrolled n crc buf).0; buf = (unrolled n crc buf).1; len = rest })
unfolding unrolled bitwise_crc Bytes
unrolled-Goes zero result crc buf rest q = record {
  same = q.same;
  len = q.len ∙ omega arith;
  bytes = q.bytes;
}
unrolled-Goes (suc n) result crc [] rest q = absurd (omega (arith, q.len))
unrolled-Goes (suc n) result crc (byte ∷ buf) rest q =
    unrolled-Goes n result (crc32_1 crc byte) buf rest (record {
      same = ap (λ c. bitwise_crc c buf) (crc32_1_lem crc byte q.bytes.0) ∙ q.same;
      len = omega (arith, q.len);
      bytes = q.bytes.1;
    })

crc_loop-Goes :
    (fuel n result : ℕ) (s : Scan)
    → 0 < n
    → s.len ≤ fuel
    → Goes result s
    → Goes result (crc_loop fuel n s)
      × ((crc_loop fuel n s).len < n)
      × ((crc_loop fuel n s).len ≤ s.len)
unfolding crc_loop
crc_loop-Goes zero n result s pos h q = (q, omega arith, omega arith)
crc_loop-Goes (suc fuel) n result s pos h q = elim (Bool-cases (leb n s.len)) [
  | inl e ↦
      let le : n ≤ s.len = ground (arith, e) in
      let (g, lt, down) = crc_loop-Goes fuel n result _ pos (omega arith) (
        unrolled-Goes n result s.crc s.buf (s.len - n)
          (record { same = q.same; len = q.len ∙ omega arith; bytes = q.bytes })) in
      rw e (g, lt, omega arith)
  | inr e ↦ rw e (q, ground (arith, e), omega arith)
]

empty : (crc : ℕ) (buf : List ℕ) → length buf ≡ 0 → bitwise_crc crc buf ≡ crc
unfolding bitwise_crc
empty crc [] h = refl
empty crc (byte ∷ buf) h = absurd (omega arith)

bit_xor_below : (k x y : ℕ) → x < pow2 k → y < pow2 k → bit_xor x y < pow2 k
bit_xor_below zero x y h l =
    let e : x ≡ 0 = omega arith in omega (arith, ap (λ w. bit_xor w y) e, bit_xor-zero y)
bit_xor_below (suc k) x y h l =
    omega (arith, bit_xor_halves x y, bit_xor_below k (x / 2) (y / 2) (omega arith) (omega arith))

word : (x y : ℕ) → x < u32_mod → y < u32_mod → bit_xor x y < u32_mod
word x y h l = omega (
  arith,
  pow2-eq-pow 32,
  bit_xor_below 32 x y (omega (arith, pow2-eq-pow 32)) (omega (arith, pow2-eq-pow 32)),
)

mask_word : (n : ℕ) → mask n < u32_mod
unfolding mask
mask_word zero = omega arith
mask_word (suc n) = omega arith

shift_word : (x : ℕ) → x < u32_mod → shift x < u32_mod
unfolding shift
shift_word x h = word (x / 2) (mask (x % 2)) (omega arith) (mask_word (x % 2))

shifts_word : (n x : ℕ) → x < u32_mod → shifts n x < u32_mod
unfolding shifts
shifts_word zero x h = h
shifts_word (suc n) x h = shifts_word n (shift x) (shift_word x h)

bitwise_crc_word :
    (crc : ℕ) (buf : List ℕ) → crc < u32_mod → Bytes buf → bitwise_crc crc buf < u32_mod
unfolding bitwise_crc Bytes
bitwise_crc_word crc [] h b = h
bitwise_crc_word crc (byte ∷ buf) h b =
    bitwise_crc_word (shifts 8 (bit_xor crc byte)) buf
      (shifts_word 8 (bit_xor crc byte) (word crc byte h (omega (arith, b.0)))) b.1

-- The hash of a key is the remainder of the division by the polynomial, one bit at a time, and it
-- fits 32 bits: the table and the loops that take eight, four and one byte at once change
-- nothing. It is asked that the buffer holds `len` bytes.
pub crc32_lem :
    (buf : List ℕ)
    → Bytes buf
    → (crc32 buf (length buf) ≡ bitwise_crc 0 buf) × (crc32 buf (length buf) < u32_mod)
unfolding crc32
crc32_lem buf bytes =
    let n = length buf in
    let s : Scan = record { crc = 0; buf = buf; len = n } in
    let (g₈, _, d₈) =
      crc_loop-Goes n 8 (bitwise_crc 0 buf) s (omega arith) (omega arith)
        (record { same = refl; len = refl; bytes = bytes }) in
    let (g₄, _, d₄) = crc_loop-Goes n 4 (bitwise_crc 0 buf) _ (omega arith) (omega arith) g₈ in
    let (g₁, lt, _) = crc_loop-Goes n 1 (bitwise_crc 0 buf) _ (omega arith) (omega arith) g₄ in
    let e = sym (empty _ _ (omega (arith, g₁.len))) ∙ g₁.same in
    (e, omega (arith, e, bitwise_crc_word 0 buf (omega arith) bytes))
