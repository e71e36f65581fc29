-- ===== src/Buddy/Disjoint.antt =====
-- Blocks that are handed out share no byte.
use pris_kv.Base.{
  ℕ, suc, ◌+◌, ◌*◌, ◌≤◌, ◌≡◌, ◌≢◌, ◌⊎◌, inl, inr, arith, dec_lt, ℕ_discrete, subst, sym, refl, ◌∙◌,
}
use pris_kv.Base.Pow.{pow2, pow2_pos}
use pris_kv.Buddy.{Buddy, Meta}
use pris_kv.Buddy.Node.{Node, Above, Child, next, further, root, left, right, level-le}
use pris_kv.Buddy.Inv.{Shape, Used, Handed-zero}
use pris_kv.Buddy.Climb.{below-Handed}
use pris_kv.Buddy.Valid.{IsValid, address, first_block, Node-range}
use native.Mathlib.Nat.{mul-le-mul_right}

-- The node of level `k` that a node of a level below stands under, and its blocks.
record Ancestor (n x k y j : ℕ) : Type 0 where
  node : Node n x k
  place : (x ≡ y) ⊎ Above x y
  from : (x + 1) * pow2 k ≤ (y + 1) * pow2 j
  to : (y + 1) * pow2 j + pow2 j ≤ (x + 1) * pow2 k + pow2 k

Ancestor-self : {n y j : ℕ} (k : ℕ) → Node n y j → j ≡ k → Ancestor n y k y j
Ancestor-self {n} {y} {j} k d e =
    subst (λ z. Ancestor n y z y j) e
      (record { node = d; place = inl refl; from = omega arith; to = omega arith })

Ancestor-Child : {n x k p y j : ℕ} → Ancestor n x k p (suc j) → Child p y → Ancestor n x k y j
Ancestor-Child {n} {x} {k} {p} {y} {j} a g = record {
  node = a.node;
  place =
      inr (elim a.place [ inl e ↦ next (subst (λ z. Child z y) (sym e) g) | inr b ↦ further b g ]);
  from = elim g [ inl e ↦ rw e (omega (arith, a.from)) | inr e ↦ rw e (omega (arith, a.from)) ];
  to = elim g [ inl e ↦ rw e (omega (arith, a.to)) | inr e ↦ rw e (omega (arith, a.to)) ];
}

-- Up from a node until level `k`.
ancestor : {n y j : ℕ} (k : ℕ) → Node n y j → j ≤ k → k ≤ n → (x : ℕ) × Ancestor n x k y j
ancestor {n} {y} {j} k (root e f) h top = (y, Ancestor-self k (root e f) (omega arith))
ancestor {n} {y} {j} k (left d e) h top = elim (ℕ_discrete j k) [
  | yes same ↦ (y, Ancestor-self k (left d e) same)
  | no ne ↦ let (x, a) = ancestor k d (omega arith) top in (x, Ancestor-Child a (inl e))
]
ancestor {n} {y} {j} k (right d e) h top = elim (ℕ_discrete j k) [
  | yes same ↦ (y, Ancestor-self k (right d e) same)
  | no ne ↦ let (x, a) = ancestor k d (omega arith) top in (x, Ancestor-Child a (inr e))
]

-- The blocks of one end before those of the other begin.
abbrev Apart : ℕ → ℕ → ℕ → ℕ → Type 0
Apart x k y j =
    ((x + 1) * pow2 k + pow2 k ≤ (y + 1) * pow2 j) ⊎ ((y + 1) * pow2 j + pow2 j ≤ (x + 1) * pow2 k)

module _ {n : ℕ} {m : Meta} (s : Shape n m) where
  not_below : {x k y j : ℕ} → Used n m x k → Used n m y j → ¬ Above x y
  not_below {x} {k} {y} {j} u w a =
      omega
        (arith, below-Handed s k u.node u.handed a w.node, Handed-zero m y j w.handed, pow2_pos j)

  Apart-level : {x k y j : ℕ} → Used n m x k → Used n m y j → x ≢ y → j ≤ k → Apart x k y j
  Apart-level {x} {k} {y} {j} u w ne h =
      let (z, a) = ancestor k w.node h (level-le u.node) in
      elim (dec_lt x z) [
        | yes lt ↦
            inl (
              omega
                (arith, a.from, mul-le-mul_right {m = x + 2} {n = z + 1} (pow2 k) (omega arith)))
        | no ge ↦ elim (dec_lt z x) [
          | yes lt ↦
              inr (
                omega
                  (arith, a.to, mul-le-mul_right {m = z + 2} {n = x + 1} (pow2 k) (omega arith)))
          | no ge' ↦
              let same : z ≡ x = omega arith in
              absurd (elim a.place [
                | inl e ↦ ne (sym same ∙ e)
                | inr b ↦ not_below u w (subst (λ t. Above t y) same b)
              ])
        ]
      ]

  Used-Apart : {x k y j : ℕ} → Used n m x k → Used n m y j → x ≢ y → Apart x k y j
  Used-Apart {x} {k} {y} {j} u w ne = elim (dec_lt k j) [
    | yes lt ↦ elim (Apart-level w u (λ e. ne (sym e)) (omega arith)) [
      | inl h ↦ inr h
      | inr h ↦ inl h
    ]
    | no ge ↦ Apart-level u w ne (omega arith)
  ]

-- In a well-formed allocator two blocks that are handed out have no byte in common: one ends
-- before the other begins.
pub address_disjoint :
    {n x k y j : ℕ} {b : Buddy}
    → IsValid n b
    → Used n b.meta x k
    → Used n b.meta y j
    → x ≢ y
    → (address b x k + pow2 k * b.size ≤ address b y j)
      ⊎ (address b y j + pow2 j * b.size ≤ address b x k)
address_disjoint {n} {x} {k} {y} {j} {b} v u w ne =
    let (lo, hi) = Node-range u.node in
    let (lo', hi') = Node-range w.node in
    elim (Used-Apart v.shape u w ne) [
      | inl h ↦ inl (
          omega (
            arith,
            mul-le-mul_right {m = first_block b x k + pow2 k} {n = first_block b y j} b.size
                (omega (arith, v.nmemb)),
          ))
      | inr h ↦ inr (
          omega (
            arith,
            mul-le-mul_right {m = first_block b y j + pow2 j} {n = first_block b x k} b.size
                (omega (arith, v.nmemb)),
          ))
    ]
