-- ===== src/Buddy/Put.antt =====
-- Taking a node back: the second half of `priskv_buddy_free`.
use pris_kv.Base.{
  ℕ, zero, suc, ◌+◌, ◌≤◌, ◌≡◌, ◌≢◌, ◌⊎◌, inl, inr, arith, ℕ_discrete, subst, sym, refl, ap, ◌∙◌,
}
use pris_kv.Base.Pow.{pow2, pow2_pos, pow2_mono}
use pris_kv.Buddy.{Meta, merged}
use pris_kv.Buddy.Node.{Node, left, right, level_unique, level-le}
use pris_kv.Buddy.Inv.{Shape, Used, Handed, Joined, join, bound, Above-not-Handed, Handed-zero}
use pris_kv.Buddy.Walk.{Rewritten}

-- The merge of `priskv_buddy_free` does not wrap on blocks that fit.
merged-eq-join :
    (h l r : ℕ) → l ≤ h → r ≤ h → h + h ≤ 1073741824 → merged (h + h) l r ≡ join (h + h) l r
merged-eq-join h l r p q small = ground arith

join-le : (h l r : ℕ) → l ≤ h → r ≤ h → join (h + h) l r ≤ h + h
join-le h l r p q = ground arith

join_full : (h : ℕ) → join (h + h) h h ≡ h + h
join_full h = ground arith

-- Before: a shape in which the node `i` is handed out.
module _ {n i j : ℕ} {m : Meta} (small : pow2 n ≤ 1073741824) (s : Shape n m)
    (used : Used n m i j) where
  abbrev pub Put : Meta → Type 0
  Put m' = Rewritten merged n m (pow2 j) m' i

  level-small : {x k : ℕ} → Node n x k → pow2 k ≤ 1073741824
  level-small {k} d = omega (arith, pow2_mono k n (level-le d))

  module _ (m' : Meta) (w : Put m') where
    put-at-le : (x k : ℕ) → Node n x k → x ≡ i → m' x ≤ pow2 k
    put-at-le x k d e =
        let same : j ≡ k = level_unique used.node (subst (λ z. Node n z k) e d) in
        omega (arith, ap m' e, w.at, ap pow2 same)

    put-bound : (k x : ℕ) → Node n x k → m' x ≤ pow2 k
    put-bound zero x d = elim (ℕ_discrete x i) [
      | yes e ↦ put-at-le x 0 d e
      | no ne ↦ ground (arith, w.leaf x d, s.leaf x d)
    ]
    put-bound (suc k) x d = elim (w.cases x k d) [
      | inl (a, f) ↦
          let l = put-bound k (x + x + 1) (left d refl) in
          let r = put-bound k (x + x + 2) (right d refl) in
          omega
            (arith, f, merged-eq-join (pow2 k) _ _ l r (level-small d), join-le (pow2 k) _ _ l r)
      | inr (inl e) ↦ put-at-le x (suc k) d e
      | inr (inr same) ↦ ground (arith, same.0, bound s (suc k) x d)
    ]

    put-at : (k : ℕ) → Node n i (suc k) → Joined m' i k
    put-at k d =
        let same : j ≡ suc k = level_unique used.node d in
        let handed : Handed m i (suc k) = subst (λ z. Handed m i z) same used.handed in
        let l : m' (i + i + 1) ≡ pow2 k = w.below (i + i + 1) (omega arith) ∙ handed.1 in
        let r : m' (i + i + 2) ≡ pow2 k = w.below (i + i + 2) (omega arith) ∙ handed.2 in
        let top : m' i ≡ pow2 k + pow2 k = w.at ∙ ap pow2 same in
        rw (top, l, r) (sym (join_full (pow2 k)))

    put-inner : (x k : ℕ) → Node n x (suc k) → Handed m' x (suc k) ⊎ Joined m' x k
    put-inner x k d = elim (w.cases x k d) [
      | inl (a, f) ↦
          let l = put-bound k (x + x + 1) (left d refl) in
          let r = put-bound k (x + x + 2) (right d refl) in
          inr (f ∙ merged-eq-join (pow2 k) _ _ l r (level-small d))
      | inr (inl e) ↦
          inr (subst (λ z. Joined m' z k) (sym e) (put-at k (subst (λ z. Node n z (suc k)) e d)))
      | inr (inr (e, l, r)) ↦ rw (e, l, r) (s.inner x k d)
    ]

    pub put-Shape : Shape n m'
    put-Shape = record { leaf = λ x d. put-bound 0 x d; inner = put-inner }

    pub put-Used_to : (x k : ℕ) → Used n m' x k → Used n m x k × (x ≢ i)
    put-Used_to x zero u = (
      record { node = u.node; handed = ground (arith, u.handed, w.leaf x u.node, pow2_pos j) },
      λ e. omega (arith, u.handed, ap m' e, w.at, pow2_pos j),
    )
    put-Used_to x (suc k) u = elim (w.cases x k u.node) [
      | inl (a, f) ↦
          let l : m' (x + x + 1) ≡ pow2 k = u.handed.1 in
          let r : m' (x + x + 2) ≡ pow2 k = u.handed.2 in
          let whole : merged (pow2 k + pow2 k) (pow2 k) (pow2 k) ≡ pow2 k + pow2 k =
            merged-eq-join (pow2 k) _ _ (omega arith) (omega arith) (level-small u.node)
            ∙ join_full (pow2 k) in
          let value : m' x ≡ pow2 k + pow2 k = f ∙ (rw (l, r) whole) in
          absurd (omega (arith, value, u.handed.0, pow2_pos k))
      | inr (inl e) ↦ absurd (omega (arith, u.handed.0, ap m' e, w.at, pow2_pos j))
      | inr (inr (e, l, r)) ↦ (
        record {
          node = u.node;
          handed = (sym e ∙ u.handed.0, sym l ∙ u.handed.1, sym r ∙ u.handed.2);
        },
        λ q. omega (arith, u.handed.0, ap m' q, w.at, pow2_pos j),
      )
    ]

    pub put-Used_old : (x k : ℕ) → Used n m x k → x ≢ i → Used n m' x k
    put-Used_old x zero u ne = record {
      node = u.node;
      handed = ground (arith, u.handed, w.leaf x u.node);
    }
    put-Used_old x (suc k) u ne = record {
      node = u.node;
      handed = elim (w.cases x k u.node) [
        | inl (a, f) ↦ absurd (
            Above-not-Handed s u.node a used.node
              (omega (arith, Handed-zero m i j used.handed, pow2_pos j)) u.handed)
        | inr (inl e) ↦ absurd (ne e)
        | inr (inr (e, l, r)) ↦ (e ∙ u.handed.0, l ∙ u.handed.1, r ∙ u.handed.2)
      ];
    }
