-- ===== src/Buddy/Descend.antt =====
-- The walk down of `priskv_buddy_alloc` (`descend`).
use pris_kv.Base.{
  ℕ, zero, suc, ◌+◌, ◌/◌, ◌≤◌, ◌<◌, ◌≡◌, inl, inr, arith, true, false, some, if◌then◌else◌, ◌==◌,
  leb, Bool-cases, subst, refl, ap,
}
use pris_kv.Base.Pow.{pow2, pow2_pos, pow2_mono}
use pris_kv.Buddy.{Meta, descend}
use pris_kv.Buddy.Node.{
  Node, Child, Above, child, left, right, inner-lt, l_leaf_lem, r_leaf_lem, Above-Child,
}
use pris_kv.Buddy.Inv.{Shape, bound}

module _ {n : ℕ} {m : Meta} (small : pow2 n ≤ 1073741824) (s : Shape n m) (j : ℕ) where
  -- Where the walk stands: at a node with room, below nodes that are not handed out.
  pub record Room (i k : ℕ) : Type 0 where
    pub node : Node n i k
    pub room : pow2 j ≤ m i
    pub open_above : (x : ℕ) → Above x i → 0 < m x

  -- The next node of the walk.
  turn : ℕ → ℕ
  turn i = if leb (pow2 j) (m (i + i + 1)) then i + i + 1 else i + i + 2

  turn-Child : (i : ℕ) → Child i (turn i)
  unfolding turn
  turn-Child i = elim (Bool-cases (leb (pow2 j) (m (i + i + 1)))) [
    | inl e ↦ rw (e, turn) (inl refl)
    | inr e ↦ rw (e, turn) (inr refl)
  ]

  turn-room : (i k : ℕ) → j ≤ k → Node n i (suc k) → pow2 j ≤ m i → pow2 j ≤ m (turn i)
  unfolding turn
  turn-room i k le d h = elim (Bool-cases (leb (pow2 j) (m (i + i + 1)))) [
    | inl e ↦ rw (e, turn) (ground arith)
    | inr e ↦
        rw (e, turn)
          (ground (
            arith,
            s.inner i k d,
            bound s k (i + i + 1) (left d refl),
            bound s k (i + i + 2) (right d refl),
            pow2_mono j k le,
            pow2_pos j,
          ))
  ]

  turn-Room : (i k : ℕ) → j ≤ k → Room i (suc k) → Room (turn i) k
  turn-Room i k le r = record {
    node = child r.node (turn-Child i);
    room = turn-room i k le r.node r.room;
    open_above = λ x a. elim (Above-Child (turn-Child i) a) [
      | inl e ↦ omega (arith, ap m e, r.room, pow2_pos j)
      | inr b ↦ r.open_above x b
    ];
  }

  descend_step :
      (f i k : ℕ)
      → j ≤ k
      → Node n i (suc k)
      → descend (suc f) m (pow2 j) i (pow2 (suc k)) ≡ descend f m (pow2 j) (turn i) (pow2 k)
  unfolding descend turn
  descend_step f i k le d =
      let low : i < 2000000000 = omega (arith, inner-lt d) in
      let test : (pow2 (suc k) == pow2 j) ≡ false = ground (arith, pow2_mono j k le, pow2_pos j) in
      let half : pow2 (suc k) / 2 ≡ pow2 k = omega arith in
      rw (test, descend, half, l_leaf_lem i low, r_leaf_lem i low)

  -- The walk ends at a node of the size that is asked for, which is free as a whole.
  pub descend_finds :
      (d f i k : ℕ)
      → k ≡ d + j
      → d < f
      → Room i k
      → (i' : ℕ) × (descend f m (pow2 j) i (pow2 k) ≡ some (i', pow2 j))
        × (Node n i' j)
        × (m i' ≡ pow2 j)
        × ((x : ℕ) → Above x i' → 0 < m x)
  unfolding descend
  descend_finds d zero i k e lt r = absurd (omega arith)
  descend_finds zero (suc f) i k e lt r =
      let same : k ≡ j = omega arith in
      let test : (pow2 k == pow2 j) ≡ true = ground (arith, ap pow2 same) in
      let d' : Node n i j = subst (λ z. Node n i z) same r.node in
      (
        i,
        rw (test, descend) (ap (λ z. some (i, pow2 z)) same),
        d',
        omega (arith, bound s j i d', r.room),
        r.open_above,
      )
  descend_finds (suc d) (suc f) i zero e lt r = absurd (omega arith)
  descend_finds (suc d) (suc f) i (suc k) e lt r =
      let le : j ≤ k = omega arith in
      rw (descend_step f i k le r.node)
        (descend_finds d f (turn i) k (omega arith) (omega arith) (turn-Room i k le r))
