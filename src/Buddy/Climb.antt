-- ===== src/Buddy/Climb.antt =====
-- The first loop of `priskv_buddy_free` (`climb`): from the first leaf of a block up to its node.
use pris_kv.Base.{
  ℕ, zero, suc, ◌+◌, ◌*◌, ◌≤◌, ◌<◌, ◌≡◌, inl, arith, true, false, some, ◌==◌, subst, sym, refl, ap,
  ◌∙◌,
}
use pris_kv.Base.Pow.{pow2, pow2_pos, pow2_mono}
use pris_kv.Base.Word.{u32}
use pris_kv.Buddy.{Meta, climb, parent}
use pris_kv.Buddy.Node.{
  Node, Above, left, inner-lt, level-le, parent_lem, next, further, Above-level,
}
use pris_kv.Buddy.Inv.{Shape, Used, Handed, Above-Full, Handed-zero}

-- `x`, of 2^t blocks, holds the first blocks of `i`, of 2^j.
pub data Leftmost (i j : ℕ) : ℕ → ℕ → Type 0 where
  here : {x t : ℕ} → x ≡ i → t ≡ j → Leftmost i j x t
  down : {p x t : ℕ} → Leftmost i j p (suc t) → x ≡ p + p + 1 → Leftmost i j x t

-- The first leaf of a node.
pub Leftmost-leaf :
    {i j : ℕ} (t x : ℕ) → Leftmost i j x t → (y : ℕ) × Leftmost i j y 0 × (y + 1 ≡ (x + 1) * pow2 t)
Leftmost-leaf zero x l = (x, l, omega arith)
Leftmost-leaf (suc t) x l =
    let (y, l', e) = Leftmost-leaf t (x + x + 1) (down l refl) in (y, l', omega arith)

pub below-Handed :
    {n i x t : ℕ} {m : Meta}
    → Shape n m
    → (j : ℕ) → Node n i j
    → Handed m i j
    → Above i x
    → Node n x t
    → m x ≡ pow2 t
below-Handed s zero node h a d = absurd (omega (arith, Above-level a node d))
below-Handed s (suc j) node h a d = Above-Full s node h.1 h.2 a d

module _ {n i j : ℕ} {m : Meta} (small : pow2 n ≤ 1073741824) (s : Shape n m)
    (used : Used n m i j) where
  Leftmost-Node : {x t : ℕ} → Leftmost i j x t → Node n x t
  Leftmost-Node {t = t} (here e f) =
      subst (λ z. Node n z t) (sym e) (subst (λ z. Node n i z) (sym f) used.node)
  Leftmost-Node (down l e) = left (Leftmost-Node l) e

  Leftmost-Above : {p x t : ℕ} → Leftmost i j p t → x ≡ p + p + 1 → Above i x
  Leftmost-Above (here e f) g = next (inl (omega arith))
  Leftmost-Above (down l e) g = further (Leftmost-Above l e) (inl g)

  -- Below a block that is handed out every node is free as a whole.
  handed-Full : {x t : ℕ} → Above i x → Node n x t → m x ≡ pow2 t
  handed-Full = below-Handed s j used.node used.handed

  -- One round of the loop, below the node.
  climb_step :
      (f p x t : ℕ)
      → Node n p (suc t)
      → x ≡ p + p + 1
      → m x ≡ pow2 t
      → climb (suc f) m x (pow2 t) ≡ climb f m p (pow2 (suc t))
  unfolding climb
  climb_step f p x t up e full =
      let low : p < 2000000000 = omega (arith, inner-lt up) in
      let level : pow2 (suc t) ≤ pow2 n = pow2_mono (suc t) n (level-le up) in
      let nodes : u32 (pow2 t * 2) ≡ pow2 (suc t) = omega arith in
      let test : (m x == 0) ≡ false = ground (arith, pow2_pos t) in
      let test' : (x == 0) ≡ false = ground arith in
      let up' : parent x ≡ p = parent_lem (inl e) low in rw (test, climb, test', nodes, up')

  pub climb_finds : (f x t : ℕ) → Leftmost i j x t → x < f → climb f m x (pow2 t) ≡ some (i, pow2 j)
  unfolding climb
  climb_finds zero x t l lt = absurd (omega arith)
  climb_finds (suc f) x t (here e g) lt =
      let handed : m x ≡ 0 = ap m e ∙ Handed-zero m i j used.handed in
      let test : (m x == 0) ≡ true = ground arith in rw (test, climb, e, g) refl
  climb_finds (suc f) x t (down {p = p} l e) lt =
      let d = Leftmost-Node l in
      let full = handed-Full (Leftmost-Above l e) (left d e) in
      climb_step f p x t d e full ∙ climb_finds f p (suc t) l (omega arith)
