-- ===== src/Buddy/Take.antt =====
-- Handing a node out: the second half of `priskv_buddy_alloc`.
use pris_kv.Base.{
  ℕ, zero, suc, ◌+◌, ◌≤◌, ◌<◌, ◌≡◌, ◌⊎◌, inl, inr, arith, ℕ_discrete, subst, sym, refl, ap, ◌∙◌,
}
use pris_kv.Base.Pow.{pow2, pow2_pos}
use pris_kv.Buddy.{Meta, larger}
use pris_kv.Buddy.Node.{
  Node, Child, Above, child, left, right, level_unique, Above-first, Above-level,
}
use pris_kv.Buddy.Inv.{Shape, Used, Handed, Joined, Full-children, bound}
use pris_kv.Buddy.Walk.{Rewritten}

-- Before: a shape in which the node `i` is free as a whole and nothing above it is handed out.
module _ {n i j : ℕ} {m : Meta} (s : Shape n m) (node : Node n i j) (full : m i ≡ pow2 j)
    (open_above : (x : ℕ) → Above x i → 0 < m x) where
  abbrev pub Taken : Meta → Type 0
  Taken m' = Rewritten larger n m 0 m' i

  module _ (m' : Meta) (w : Taken m') where
    take-leaf-le : (x : ℕ) → Node n x 0 → m' x ≤ 1
    take-leaf-le x d = ground (arith, w.leaf x d, s.leaf x d)

    take-at : (k : ℕ) → Node n i (suc k) → Handed m' i (suc k)
    take-at k d =
        let same : pow2 j ≡ pow2 (suc k) = ap pow2 (level_unique node d) in
        let l = Full-children s d (full ∙ same) (inl refl) in
        let r = Full-children s d (full ∙ same) (inr refl) in
        (w.at, w.below (i + i + 1) (omega arith) ∙ l, w.below (i + i + 2) (omega arith) ∙ r)

    take-bound : (k x : ℕ) → Node n x k → m' x ≤ pow2 k
    take-bound zero x d = take-leaf-le x d
    take-bound (suc k) x d = elim (w.cases x k d) [
      | inl (a, f) ↦ ground (
        arith,
        f,
        take-bound k (x + x + 1) (left d refl),
        take-bound k (x + x + 2) (right d refl),
      )
      | inr (inl e) ↦ ground (arith, ap m' e, w.at)
      | inr (inr same) ↦ ground (arith, same.0, bound s (suc k) x d)
    ]

    -- The path to the node ends in a child with less than it could have.
    take-short :
        (x k : ℕ)
        → Node n x (suc k)
        → Above x i
        → (m' (x + x + 1) < pow2 k) ⊎ (m' (x + x + 2) < pow2 k)
    take-short x k d a =
        let (c, g, r) = Above-first a in
        let less : m' c < pow2 k = less_at c g r in
        elim g [
          | inl e ↦ inl (subst (λ z. m' z < pow2 k) e less)
          | inr e ↦ inr (subst (λ z. m' z < pow2 k) e less)
        ]
      where
        less_above : (c : ℕ) (l : ℕ) → Node n c l → Above c i → m' c < pow2 l
        less_above c zero dc b = absurd (omega (arith, Above-level b dc node))
        less_above c (suc l) dc b = ground (
          arith,
          w.above c l dc b,
          take-bound l (c + c + 1) (left dc refl),
          take-bound l (c + c + 2) (right dc refl),
          pow2_pos l,
        )

        less_at : (c : ℕ) → Child x c → (c ≡ i) ⊎ Above c i → m' c < pow2 k
        less_at c g (inl e) = ground (arith, ap m' e, w.at, pow2_pos k)
        less_at c g (inr b) = less_above c k (child d g) b

    take-inner : (x k : ℕ) → Node n x (suc k) → Handed m' x (suc k) ⊎ Joined m' x k
    take-inner x k d = elim (w.cases x k d) [
      | inl (a, f) ↦ inr (
          ground (
            arith,
            f,
            take-short x k d a,
            take-bound k (x + x + 1) (left d refl),
            take-bound k (x + x + 2) (right d refl),
          ))
      | inr (inl e) ↦
          inl (
            subst (λ z. Handed m' z (suc k)) (sym e)
              (take-at k (subst (λ z. Node n z (suc k)) e d)))
      | inr (inr (e, l, r)) ↦ rw (e, l, r) (s.inner x k d)
    ]

    pub take-Shape : Shape n m'
    take-Shape = record { leaf = take-leaf-le; inner = take-inner }

    pub take-Used_to : (x k : ℕ) → Used n m' x k → Used n m x k ⊎ (x ≡ i)
    take-Used_to x zero u = elim (ℕ_discrete x i) [
      | yes e ↦ inr e
      | no ne ↦ inl (record { node = u.node; handed = ground (arith, u.handed, w.leaf x u.node) })
    ]
    take-Used_to x (suc k) u = elim (w.cases x k u.node) [
      | inl (a, f) ↦ absurd (ground (arith, f, u.handed, pow2_pos k))
      | inr (inl e) ↦ inr e
      | inr (inr (e, l, r)) ↦ inl (record {
        node = u.node;
        handed = (sym e ∙ u.handed.0, sym l ∙ u.handed.1, sym r ∙ u.handed.2);
      })
    ]

    pub take-Used_old : (x k : ℕ) → Used n m x k → Used n m' x k
    take-Used_old x zero u = record {
      node = u.node;
      handed = ground (arith, u.handed, w.leaf x u.node);
    }
    take-Used_old x (suc k) u = record {
      node = u.node;
      handed = elim (w.cases x k u.node) [
        | inl (a, f) ↦ absurd (omega (arith, open_above x a, u.handed.0))
        | inr (inl e) ↦ absurd (omega (arith, ap m e, full, u.handed.0, pow2_pos j))
        | inr (inr (e, l, r)) ↦ (e ∙ u.handed.0, l ∙ u.handed.1, r ∙ u.handed.2)
      ];
    }

    pub take-Used_new : (k : ℕ) → Node n i k → Used n m' i k
    take-Used_new zero d = record { node = d; handed = w.at }
    take-Used_new (suc k) d = record { node = d; handed = take-at k d }
