-- ===== src/Buddy/Valid.antt =====
-- A well-formed buddy allocator, where its blocks stand, and that what is handed out fixes `meta`.
use pris_kv.Base.{
  ℕ, zero, suc, ◌+◌, ◌-◌, ◌*◌, ◌≤◌, ◌<◌, ◌≡◌, inl, inr, arith, ℕ_discrete, sym, refl, ◌∙◌, ap₂,
}
use pris_kv.Base.Word.{sub_u32}
use pris_kv.Base.Pow.{pow2}
use pris_kv.Buddy.{Buddy, Meta}
use pris_kv.Buddy.Node.{Node, root, left, right}
use pris_kv.Buddy.Inv.{Shape, Used, join, Handed-zero}

-- At most 2^30 blocks, in memory that ends inside the address space.
pub record IsValid (n : ℕ) (b : Buddy) : Type 0 where
  pub nmemb : b.nmemb ≡ pow2 n
  pub small : pow2 n ≤ 1073741824
  pub size : 0 < b.size
  pub memory : b.base + b.nmemb * b.size < 18446744073709551616
  pub shape : Shape n b.meta

-- The first block of the node `i` of 2^k blocks, counted from the base.
abbrev pub first_block : Buddy → ℕ → ℕ → ℕ
first_block b i k = (i + 1) * pow2 k - b.nmemb

abbrev pub address : Buddy → ℕ → ℕ → ℕ
address b i k = b.base + first_block b i k * b.size

-- The blocks of a node are among those of the root.
pub Node-range :
    {n i k : ℕ}
    → Node n i k
    → (pow2 n ≤ (i + 1) * pow2 k) × ((i + 1) * pow2 k + pow2 k ≤ pow2 n + pow2 n)
Node-range (root e f) = rw (e, f) (omega arith, omega arith)
Node-range (left {i = p} {k = k} d e) =
    let (lo, hi) = Node-range d in rw e (omega arith, omega arith)
Node-range (right {i = p} {k = k} d e) =
    let (lo, hi) = Node-range d in rw e (omega arith, omega arith)

-- The `uint32_t` offset of a node does not wrap.
pub offset_lem :
    {n i k : ℕ} {b : Buddy}
    → IsValid n b
    → Node n i k
    → sub_u32 ((i + 1) * pow2 k) b.nmemb ≡ first_block b i k
offset_lem v d = let (lo, hi) = Node-range d in omega (arith, v.nmemb, v.small)

-- Which blocks are handed out decides the whole array.
pub Shape-unique :
    {n : ℕ} {m m' : Meta}
    → Shape n m
    → Shape n m'
    → ((x k : ℕ) → Used n m x k → Used n m' x k)
    → ((x k : ℕ) → Used n m' x k → Used n m x k)
    → (k x : ℕ) → Node n x k
    → m x ≡ m' x
Shape-unique {n} {m} {m'} s s' to from zero x d = elim (ℕ_discrete (m x) 0) [
  | yes e ↦ e ∙ sym ((to x 0 (record { node = d; handed = e })).handed)
  | no ne ↦ elim (ℕ_discrete (m' x) 0) [
    | yes e ↦ absurd (ne ((from x 0 (record { node = d; handed = e })).handed))
    | no ne' ↦ omega (arith, s.leaf x d, s'.leaf x d)
  ]
]
Shape-unique {n} {m} {m'} s s' to from (suc k) x d = elim (s.inner x k d) [
  | inl h ↦
      h.0 ∙ sym (Handed-zero m' x (suc k) (to x (suc k) (record { node = d; handed = h })).handed)
  | inr g ↦ elim (s'.inner x k d) [
    | inl h ↦
        Handed-zero m x (suc k) (from x (suc k) (record { node = d; handed = h })).handed
        ∙ sym (h.0)
    | inr g' ↦
        let l = Shape-unique s s' to from k (x + x + 1) (left d refl) in
        let r = Shape-unique s s' to from k (x + x + 2) (right d refl) in
        g ∙ ap₂ (join (pow2 (suc k))) l r ∙ sym g'
  ]
]
