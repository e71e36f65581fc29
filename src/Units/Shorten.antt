-- ===== src/Units/Shorten.antt =====
-- priskv_string_shorten of include/priskv-utils.h fits its buffer.
use pris_kv.Base.{
  ℕ, zero, suc, ◌+◌, ◌-◌, ◌≤◌, ◌<◌, ◌≡◌, ◌⊎◌, inl, inr, arith, refl, ap, List, [], ◌∷◌, ◌++◌, ltb,
  leb, length, take, length-append, Bool-cases,
}
use pris_kv.Units.{string_shorten}

-- Where the string begins with these bytes.
abbrev pub Prefix : List ℕ → List ℕ → Type 0
Prefix l str = (rest : List ℕ) × (str ≡ l ++ rest)

take-Prefix : (n : ℕ) (str : List ℕ) → Prefix (take n str) str
take-Prefix zero str = (str, refl)
take-Prefix (suc n) [] = ([], refl)
take-Prefix (suc n) (c ∷ str) = let (rest, e) = take-Prefix n str in (rest, ap (λ l. c ∷ l) e)

length-take : (n : ℕ) (str : List ℕ) → n ≤ length str → length (take n str) ≡ n
length-take zero str h = refl
length-take (suc n) [] h = absurd (omega (arith, h))
length-take (suc n) (c ∷ str) h = omega (arith, length-take n str (omega (arith, h)))

-- priskv_string_shorten leaves room for the 0 in the buffer. A string that fits is copied whole;
-- another one fills the buffer with its front, or with its front and three dots.
pub string_shorten_lem :
    (src : List ℕ) (dst_len : ℕ)
    → 0 < dst_len
    → (length (string_shorten src dst_len) < dst_len)
      × (((length src < dst_len) × (string_shorten src dst_len ≡ src))
          ⊎ ((length (string_shorten src dst_len) + 1 ≡ dst_len)
              × ((kept : List ℕ) × Prefix kept src
                  × ((string_shorten src dst_len ≡ kept)
                      ⊎ (string_shorten src dst_len ≡ kept ++ (b'.' ∷ b'.' ∷ b'.' ∷ []))))))
unfolding string_shorten
string_shorten_lem src dst_len pos = elim (Bool-cases (leb dst_len (length src))) [
  | inr f ↦ let lt : length src < dst_len = ground (arith, f) in rw (f) (lt, inl (lt, refl))
  | inl t ↦
      let le : dst_len ≤ length src = ground (arith, t) in
      elim (Bool-cases (ltb 6 dst_len)) [
        | inl s ↦
            let kept = take (dst_len - 4) src in
            let long : 6 < dst_len = ground (arith, s) in
            let size : length (kept ++ (b'.' ∷ b'.' ∷ b'.' ∷ [])) + 1 ≡ dst_len = omega (
              arith,
              long,
              length-append kept (b'.' ∷ b'.' ∷ b'.' ∷ []),
              length-take (dst_len - 4) src (omega (arith, le)),
            ) in
            rw (t, s)
              (omega (arith, size), inr (size, (kept, take-Prefix (dst_len - 4) src, inr refl)))
        | inr s ↦
            let kept = take (dst_len - 1) src in
            let size : length kept + 1 ≡ dst_len =
              omega (arith, pos, length-take (dst_len - 1) src (omega (arith, le))) in
            rw (t, s)
              (omega (arith, size), inr (size, (kept, take-Prefix (dst_len - 1) src, inl refl)))
      ]
]
