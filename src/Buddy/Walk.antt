-- ===== src/Buddy/Walk.antt =====
-- The walk up to the root of server/buddy.c (`update_parents`), for any value that a parent gets.
use pris_kv.Base.{
  ℕ, zero, suc, ◌+◌, ◌*◌, ◌≤◌, ◌<◌, ◌≡◌, ◌≢◌, ◌⊎◌, inl, inr, arith, false, ◌==◌, ℕ_discrete, subst,
  sym, refl,
}
use pris_kv.Base.Pow.{pow2, pow2_mono}
use pris_kv.Base.Word.{u32}
use pris_kv.Buddy.{Meta, store, update_parents}
use pris_kv.Buddy.Node.{
  Node, Child, Above, level_unique, level-le, next, further, parent-Node, Child-lt, Above-lt,
  Above-Child, inner-lt, parent_lem, l_leaf_lem, r_leaf_lem,
}

zero_of_le : {i : ℕ} → i ≤ 0 → i ≡ 0
zero_of_le h = omega arith

module _ (value : ℕ → ℕ → ℕ → ℕ) (n : ℕ) where
  abbrev pub Fixed : Meta → ℕ → ℕ → Type 0
  Fixed m x k = m x ≡ value (pow2 (suc k)) (m (x + x + 1)) (m (x + x + 2))

  abbrev pub Same : Meta → Meta → ℕ → Type 0
  Same m m' x = (m' x ≡ m x) × (m' (x + x + 1) ≡ m (x + x + 1)) × (m' (x + x + 2) ≡ m (x + x + 2))

  -- What a walk from `i` leaves of `m`: new values above `i`, and nothing else touched.
  pub record Walked (m m' : Meta) (i : ℕ) : Type 0 where
    pub inner : (x k : ℕ) → Node n x (suc k) → (Above x i × Fixed m' x k) ⊎ Same m m' x
    pub above : (x k : ℕ) → Node n x (suc k) → Above x i → Fixed m' x k
    pub frame : (x : ℕ) → i ≤ x → m' x ≡ m x
    pub leaf : (x : ℕ) → Node n x 0 → m' x ≡ m x

  Walked-root : (m : Meta) → Walked m m 0
  Walked-root m = record {
    inner = λ x k d. inr (refl, refl, refl);
    above = λ x k d a. absurd (omega (arith, Above-lt a));
    frame = λ x h. refl;
    leaf = λ x d. refl;
  }

  module _ {i p j : ℕ} (m m' : Meta) (up : Node n p (suc j)) (g : Child p i) where
    abbrev m₁ : Meta
    m₁ = store m p (value (pow2 (suc j)) (m (p + p + 1)) (m (p + p + 2)))

    inner_parent : Walked m₁ m' p → Fixed m' p j
    inner_parent w =
        let l : m' (p + p + 1) ≡ m (p + p + 1) =
          ground (arith, w.frame (p + p + 1) (omega arith)) in
        let r : m' (p + p + 2) ≡ m (p + p + 2) =
          ground (arith, w.frame (p + p + 2) (omega arith)) in
        let here : m' p ≡ value (pow2 (suc j)) (m (p + p + 1)) (m (p + p + 2)) =
          ground (arith, w.frame p (omega arith)) in
        rw (l, r) here

    inner_at : (x k : ℕ) → Walked m₁ m' p → Node n x (suc k) → x ≡ p → Fixed m' x k
    inner_at x k w d e =
        let same : suc k ≡ suc j = level_unique (subst (λ z. Node n z (suc k)) e d) up in
        let at : Fixed m' p k = subst (λ z. Fixed m' p z) (sym (omega arith)) (inner_parent w) in
        subst (λ z. Fixed m' z k) (sym e) at

    leaf_other : (x : ℕ) → Node n x 0 → x ≢ p
    leaf_other x d e = absurd (omega (arith, level_unique (subst (λ z. Node n z 0) e d) up))

    inner_other :
        (x k : ℕ)
        → Walked m₁ m' p
        → Node n x (suc k)
        → x ≢ p
        → (Above x i × Fixed m' x k) ⊎ Same m m' x
    inner_other x k w d ne = elim (w.inner x k d) [
      | inl (a, f) ↦ inl (further a g, f)
      | inr (s, l, r) ↦ elim (ℕ_discrete (x + x + 1) p) [
        | yes e ↦ inl (further (next (inl (sym e))) g, w.above x k d (next (inl (sym e))))
        | no ne₁ ↦ elim (ℕ_discrete (x + x + 2) p) [
          | yes e ↦ inl (further (next (inr (sym e))) g, w.above x k d (next (inr (sym e))))
          | no ne₂ ↦ inr (ground arith, ground arith, ground arith)
        ]
      ]
    ]

    Walked-step : Walked m₁ m' p → Walked m m' i
    Walked-step w = record {
      inner = λ x k d. elim (ℕ_discrete x p) [
        | yes e ↦ inl (subst (λ z. Above z i) (sym e) (next g), inner_at x k w d e)
        | no ne ↦ inner_other x k w d ne
      ];
      above = λ x k d a. elim (Above-Child g a) [
        | inl e ↦ inner_at x k w d e
        | inr a' ↦ w.above x k d a'
      ];
      frame = λ x h. ground (arith, w.frame x (omega arith), Child-lt g);
      leaf = λ x d. ground (arith, w.leaf x d, leaf_other x d);
    }

  -- One round, where nothing wraps.
  update_parents_step :
      (f i j p : ℕ) (m : Meta)
      → pow2 n ≤ 1073741824
      → Node n p (suc j)
      → Child p i
      → i ≢ 0
      → update_parents value (suc f) (pow2 j) m i
        ≡ update_parents value f
            (pow2 (suc j))
            (store m p (value (pow2 (suc j)) (m (p + p + 1)) (m (p + p + 2))))
            p
  unfolding update_parents
  update_parents_step f i j p m small up g ne =
      let low : p < 2000000000 = omega (arith, inner-lt up) in
      let level : pow2 (suc j) ≤ pow2 n = pow2_mono (suc j) n (level-le up) in
      let nodes : u32 (pow2 j * 2) ≡ pow2 (suc j) = omega arith in
      let test : (i == 0) ≡ false = ground arith in
      rw (test, update_parents, parent_lem g low, nodes, l_leaf_lem p low, r_leaf_lem p low)

  -- The walk leaves every inner node fixed or as it was.
  pub update_parents-Walked :
      (f i j : ℕ) (m : Meta)
      → pow2 n ≤ 1073741824
      → i ≤ f
      → Node n i j
      → Walked m (update_parents value f (pow2 j) m i) i
  unfolding update_parents
  update_parents-Walked zero i j m small h d = rw (zero_of_le h) (Walked-root m)
  update_parents-Walked (suc f) i j m small h d = elim (ℕ_discrete i 0) [
    | yes e ↦ rw e (Walked-root m)
    | no ne ↦
        let (p, up, g, lt) = parent-Node d ne in
        rw (update_parents_step f i j p m small up g ne)
          (Walked-step m _ up g (update_parents-Walked f p (suc j) _ small (omega arith) up))
  ]

  -- What a walk from a node that has just been given `v` leaves.
  pub record Rewritten (m : Meta) (v : ℕ) (m' : Meta) (i : ℕ) : Type 0 where
    pub cases : (x k : ℕ) → Node n x (suc k) → (Above x i × Fixed m' x k) ⊎ ((x ≡ i) ⊎ Same m m' x)
    pub above : (x k : ℕ) → Node n x (suc k) → Above x i → Fixed m' x k
    pub at : m' i ≡ v
    pub below : (x : ℕ) → i < x → m' x ≡ m x
    pub leaf : (x : ℕ) → Node n x 0 → m' x ≡ store m i v x

  module _ (m m' : Meta) (v i : ℕ) (w : Walked (store m i v) m' i) where
    Rewritten-cases :
        (x k : ℕ) → Node n x (suc k) → (Above x i × Fixed m' x k) ⊎ ((x ≡ i) ⊎ Same m m' x)
    Rewritten-cases x k d = elim (ℕ_discrete (x + x + 1) i) [
      | yes e ↦ let a : Above x i = next (inl (sym e)) in inl (a, w.above x k d a)
      | no ne₁ ↦ elim (ℕ_discrete (x + x + 2) i) [
        | yes e ↦ let a : Above x i = next (inr (sym e)) in inl (a, w.above x k d a)
        | no ne₂ ↦ elim (ℕ_discrete x i) [
          | yes e ↦ inr (inl e)
          | no ne ↦ elim (w.inner x k d) [
            | inl f ↦ inl f
            | inr (s, l, r) ↦ inr (inr (ground arith, ground arith, ground arith))
          ]
        ]
      ]
    ]

    Walked-Rewritten : Rewritten m v m' i
    Walked-Rewritten = record {
      cases = Rewritten-cases;
      above = w.above;
      at = ground (arith, w.frame i (omega arith));
      below = λ x h. ground (arith, w.frame x (omega arith));
      leaf = w.leaf;
    }

  pub update_parents-Rewritten :
      (m : Meta) (v i j : ℕ)
      → pow2 n ≤ 1073741824
      → Node n i j
      → Rewritten m v (update_parents value i (pow2 j) (store m i v) i) i
  update_parents-Rewritten m v i j small d =
      Walked-Rewritten m _ v i (update_parents-Walked i i j (store m i v) small (omega arith) d)
