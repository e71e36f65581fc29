-- ===== src/Buddy/Node.antt =====
-- Where the nodes of the tree of server/buddy.c stand in its array.
use pris_kv.Base.{ℕ, suc, ◌+◌, ◌≤◌, ◌<◌, ◌≡◌, refl, sym, subst, ◌≢◌, ◌⊎◌, inl, inr, arith}
use pris_kv.Base.Pow.{pow2, pow2_mono}
use pris_kv.Buddy.{l_leaf, r_leaf, parent}

-- Where the root has 2^n blocks, index `i` is a node of 2^k blocks.
pub data Node (n : ℕ) : ℕ → ℕ → Type 0 where
  root : {i k : ℕ} → i ≡ 0 → k ≡ n → Node n i k
  left : {i c k : ℕ} → Node n i (suc k) → c ≡ i + i + 1 → Node n c k
  right : {i c k : ℕ} → Node n i (suc k) → c ≡ i + i + 2 → Node n c k

abbrev pub Child : ℕ → ℕ → Type 0
Child i c = (c ≡ i + i + 1) ⊎ (c ≡ i + i + 2)

-- `x` stands strictly above `i`.
pub data Above (x : ℕ) : ℕ → Type 0 where
  next : {c : ℕ} → Child x c → Above x c
  further : {y c : ℕ} → Above x y → Child y c → Above x c

module _ {n : ℕ} where
  pub child : {i c k : ℕ} → Node n i (suc k) → Child i c → Node n c k
  child d (inl e) = left d e
  child d (inr e) = right d e

  -- The depth of a node, and the range of indices at that depth.
  pub depth :
      {i k : ℕ} → Node n i k → (d : ℕ) × (d + k ≡ n) × (pow2 d ≤ i + 1) × (i + 2 ≤ pow2 d + pow2 d)
  depth (root e f) = (0, omega arith, omega arith, omega arith)
  depth (left d e) = let (m, p, q, r) = depth d in (suc m, omega arith, omega arith, omega arith)
  depth (right d e) = let (m, p, q, r) = depth d in (suc m, omega arith, omega arith, omega arith)

  pub level-le : {i k : ℕ} → Node n i k → k ≤ n
  level-le d = let (m, p, q, r) = depth d in omega arith

  pub index-lt : {i k : ℕ} → Node n i k → i + 2 ≤ pow2 n + pow2 n
  index-lt d = let (m, p, q, r) = depth d in omega (arith, pow2_mono m n (omega arith))

  -- An inner node has its children inside the array.
  pub inner-lt : {i k : ℕ} → Node n i (suc k) → i + 2 ≤ pow2 n
  inner-lt {i} {k} d =
      let (m, p, q, r) = depth d in omega (arith, pow2_mono (suc m) n (omega arith))

  pub level_unique : {i j k : ℕ} → Node n i j → Node n i k → j ≡ k
  level_unique (root e f) (root e' f') = omega arith
  level_unique (root e f) (left d e') = absurd (omega arith)
  level_unique (root e f) (right d e') = absurd (omega arith)
  level_unique (left d e) (root e' f') = absurd (omega arith)
  level_unique (left {i = x} d e) (left {i = y} {k = k} d' e') =
      let same : y ≡ x = omega arith in
      omega (arith, level_unique d (subst (λ z. Node n z (suc k)) same d'))
  level_unique (left d e) (right d' e') = absurd (omega arith)
  level_unique (right d e) (root e' f') = absurd (omega arith)
  level_unique (right d e) (left d' e') = absurd (omega arith)
  level_unique (right {i = x} d e) (right {i = y} {k = k} d' e') =
      let same : y ≡ x = omega arith in
      omega (arith, level_unique d (subst (λ z. Node n z (suc k)) same d'))

-- A node other than the root is the child of one.
pub parent-Node :
    {n i k : ℕ} → Node n i k → i ≢ 0 → (p : ℕ) × (Node n p (suc k)) × Child p i × (p < i)
parent-Node (root e f) h = absurd (h e)
parent-Node (left {i = p} d e) h = (p, d, inl e, omega arith)
parent-Node (right {i = p} d e) h = (p, d, inr e, omega arith)

pub Child-ne_zero : (p : ℕ) {c : ℕ} → Child p c → c ≢ 0
Child-ne_zero p (inl e) = omega arith
Child-ne_zero p (inr e) = omega arith

pub Child-lt : {p c : ℕ} → Child p c → p < c
Child-lt (inl e) = omega arith
Child-lt (inr e) = omega arith

-- The macros compute the tree's arithmetic where no `uint32_t` wraps.
pub parent_lem : {p i : ℕ} → Child p i → p < 2000000000 → parent i ≡ p
parent_lem (inl e) h = omega arith
parent_lem (inr e) h = omega arith

pub l_leaf_lem : (p : ℕ) → p < 2000000000 → l_leaf p ≡ p + p + 1
l_leaf_lem p h = omega arith

pub r_leaf_lem : (p : ℕ) → p < 2000000000 → r_leaf p ≡ p + p + 2
r_leaf_lem p h = omega arith

pub Above-lt : {x i : ℕ} → Above x i → x < i
Above-lt (next (inl e)) = omega arith
Above-lt (next (inr e)) = omega arith
Above-lt (further a (inl e)) = omega (arith, Above-lt a)
Above-lt (further a (inr e)) = omega (arith, Above-lt a)

pub Child-unique : {x y c : ℕ} → Child x c → Child y c → x ≡ y
Child-unique (inl e) (inl f) = omega arith
Child-unique (inl e) (inr f) = absurd (omega arith)
Child-unique (inr e) (inl f) = absurd (omega arith)
Child-unique (inr e) (inr f) = omega arith

-- What stands above a child is its parent, or stands above that.
pub Above-Child : {x p c : ℕ} → Child p c → Above x c → (x ≡ p) ⊎ Above x p
Above-Child h (next g) = inl (Child-unique g h)
Above-Child {x} {p} h (further {y = y} a g) = inr (subst (Above x) (Child-unique g h) a)

-- The levels fall on the way down.
pub Above-level : {n x i k j : ℕ} → Above x i → Node n x k → Node n i j → j < k
Above-level {n} {x} {i} {k} {j} (next g) d node =
    let (p, up, h, lt) = parent-Node node (Child-ne_zero x g) in
    let same : p ≡ x = Child-unique h g in
    omega (arith, level_unique d (subst (λ z. Node n z (suc j)) same up))
Above-level {n} {x} {i} {k} {j} (further {y = y} a g) d node =
    let (p, up, h, lt) = parent-Node node (Child-ne_zero y g) in
    let same : p ≡ y = Child-unique h g in
    omega (arith, Above-level a d (subst (λ z. Node n z (suc j)) same up))

-- The child through which `x` stands above `i`.
pub Above-first : {x i : ℕ} → Above x i → (c : ℕ) × Child x c × ((c ≡ i) ⊎ Above c i)
Above-first {x} {i} (next g) = (i, g, inl refl)
Above-first {x} {i} (further {y = y} a g) =
    let (c, h, r) = Above-first a in
    (c, h, inr (elim r [ inl e ↦ next (subst (λ z. Child z i) (sym e) g) | inr b ↦ further b g ]))
