-- ===== src/Buddy/Inv.antt =====
-- The invariant of the array of server/buddy.c, and the nodes that it shows as handed out.
use pris_kv.Base.{
  ℕ, zero, suc, ◌+◌, ◌≤◌, ◌<◌, ◌≡◌, ◌⊎◌, inl, inr, arith, if◌then◌else◌, ◌==◌, subst, refl, ap, ◌∙◌,
  refl, ap, ◌∙◌,
}
use pris_kv.Base.Pow.{pow2, pow2_pos}
use pris_kv.Buddy.{Meta, max_of}
use pris_kv.Buddy.Node.{
  Node, Child, Above, left, right, level_unique, next, further, parent-Node, Child-unique,
  Child-ne_zero,
}

-- `merged`, where no sum wraps.
abbrev pub join : ℕ → ℕ → ℕ → ℕ
join nodes l r = if (l + r) == nodes then nodes else max_of l r

-- The node is handed out: its children are free as a whole, if it has any.
abbrev pub Handed : Meta → ℕ → ℕ → Type 0
Handed m i zero = m i ≡ 0
Handed m i (suc k) = (m i ≡ 0) × (m (i + i + 1) ≡ pow2 k) × (m (i + i + 2) ≡ pow2 k)

-- The node holds the largest block below it.
abbrev pub Joined : Meta → ℕ → ℕ → Type 0
Joined m i k = m i ≡ join (pow2 (suc k)) (m (i + i + 1)) (m (i + i + 2))

pub record Shape (n : ℕ) (m : Meta) : Type 0 where
  pub leaf : (i : ℕ) → Node n i 0 → m i ≤ 1
  pub inner : (i k : ℕ) → Node n i (suc k) → Handed m i (suc k) ⊎ Joined m i k

-- A block is handed out: the node `i`, of 2^k blocks.
pub record Used (n : ℕ) (m : Meta) (i k : ℕ) : Type 0 where
  pub node : Node n i k
  pub handed : Handed m i k

pub Handed-zero : (m : Meta) (i k : ℕ) → Handed m i k → m i ≡ 0
Handed-zero m i zero h = h
Handed-zero m i (suc k) h = h.0

module _ {n : ℕ} {m : Meta} (s : Shape n m) where
  -- No node promises more than it has.
  pub bound : (k i : ℕ) → Node n i k → m i ≤ pow2 k
  bound zero i d = s.leaf i d
  bound (suc k) i d =
      ground (
        arith,
        s.inner i k d,
        bound k (i + i + 1) (left d refl),
        bound k (i + i + 2) (right d refl),
      )

  -- A node that is free as a whole has children that are.
  pub Full-children : {i k c : ℕ} → Node n i (suc k) → m i ≡ pow2 (suc k) → Child i c → m c ≡ pow2 k
  Full-children {i} {k} {c} d e g =
      let both : (m (i + i + 1) ≡ pow2 k) × (m (i + i + 2) ≡ pow2 k) = ground (
        arith,
        s.inner i k d,
        bound k (i + i + 1) (left d refl),
        bound k (i + i + 2) (right d refl),
        pow2_pos k,
      ) in
      elim g [ inl l ↦ ap m l ∙ both.0 | inr r ↦ ap m r ∙ both.1 ]

  -- Below children that are free as a whole every node is.
  pub Above-Full :
      {i k c j : ℕ}
      → Node n i (suc k)
      → m (i + i + 1) ≡ pow2 k
      → m (i + i + 2) ≡ pow2 k
      → Above i c
      → Node n c j
      → m c ≡ pow2 j
  Above-Full d l r (next (inl e)) node = ap m e ∙ l ∙ ap pow2 (level_unique (left d e) node)
  Above-Full d l r (next (inr e)) node = ap m e ∙ r ∙ ap pow2 (level_unique (right d e) node)
  Above-Full {j} d l r (further {y = y} a g) node =
      let (p, up, h, lt) = parent-Node node (Child-ne_zero y g) in
      let same : p ≡ y = Child-unique h g in
      let up' : Node n y (suc j) = subst (λ z. Node n z (suc j)) same up in
      Full-children up' (Above-Full d l r a up') g

  -- Nothing that is handed out stands above a node that holds less than a free one.
  pub Above-not-Handed :
      {i k c j : ℕ}
      → Node n i (suc k)
      → Above i c
      → Node n c j
      → m c < pow2 j
      → ¬ Handed m i (suc k)
  Above-not-Handed d a node h u = omega (arith, Above-Full d u.1 u.2 a node)
