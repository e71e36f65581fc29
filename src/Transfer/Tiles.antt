-- ===== src/Transfer/Tiles.antt =====
-- What the pieces of a transfer of server/rdma.c have to do: lie end to end in the value, and inside
-- the segments of the client.
use pris_kv.Base.{ℕ, ◌+◌, ◌-◌, ◌≤◌, ◌<◌, ◌≡◌, ◌⊎◌, inl, inr, refl, List, [], ◌∷◌, ◌++◌, sym, subst}
use pris_kv.Base.Word.{u64_mod}
use pris_kv.Transfer.{KeyedSgl, Piece, max_rw_size}

-- The pieces lie end to end from `a` to `b`.
unfoldable pub Tiles : ℕ → List Piece → ℕ → Type 0
Tiles a [] b = a ≡ b
Tiles a (p ∷ ps) b = (p.addr ≡ a) × Tiles (a + p.length) ps b

-- The piece is no longer than the transport allows, and goes to the segment.
pub record Inside (s : KeyedSgl) (p : Piece) : Type 0 where
  pub rkey : p.rkey ≡ s.key
  pub from : s.addr ≤ p.remote_addr
  pub to : p.remote_addr + p.length ≤ s.addr + s.length
  pub short : p.length ≤ max_rw_size

unfoldable pub Each : (Piece → Type 0) → List Piece → Type 0
Each P [] = Unit {0}
Each P (p ∷ ps) = P p × Each P ps

-- A piece goes to one of the segments.
unfoldable pub Reaches : List KeyedSgl → Piece → Type 0
Reaches [] p = ⊥
Reaches (s ∷ sgls) p = Inside s p ⊎ Reaches sgls p

-- The bytes of the piece have the same place in the segment as in the value, where those of the
-- segment begin at `at`.
pub record Moved (at : ℕ) (s : KeyedSgl) (p : Piece) : Type 0 where
  pub inside : Inside s p
  pub same : p.addr + s.addr ≡ at + p.remote_addr

-- So for one of the segments, which lie end to end in the value from `at` on.
unfoldable pub Moves : ℕ → List KeyedSgl → Piece → Type 0
Moves at [] p = ⊥
Moves at (s ∷ sgls) p = Moved at s p ⊎ Moves (at + s.length) sgls p

pub Moves→Reaches : (at : ℕ) (sgls : List KeyedSgl) (p : Piece) → Moves at sgls p → Reaches sgls p
unfolding Moves Reaches
Moves→Reaches at [] p m = elim m [ ]
Moves→Reaches at (s ∷ sgls) p (inl m) = inl m.inside
Moves→Reaches at (s ∷ sgls) p (inr m) = inr (Moves→Reaches (at + s.length) sgls p m)

unfoldable pub total : List KeyedSgl → ℕ
total [] = 0
total (s ∷ sgls) = s.length + total sgls

-- The segments lie in the address space.
unfoldable pub Placed : List KeyedSgl → Type 0
Placed [] = Unit {0}
Placed (s ∷ sgls) = (s.addr + s.length < u64_mod) × Placed sgls

-- Only the last segment may have room to spare, and then the rest is one piece.
unfoldable pub Fits : ℕ → List KeyedSgl → Type 0
Fits r [] = r ≡ 0
Fits r (s ∷ []) = (r ≤ s.length) × ((s.length ≤ r) ⊎ (r ≤ max_rw_size))
Fits r (s ∷ t ∷ sgls) = (s.length ≤ r) × Fits (r - s.length) (t ∷ sgls)

pub Tiles-append :
    (a b c : ℕ) (ps qs : List Piece) → Tiles a ps b → Tiles b qs c → Tiles a (ps ++ qs) c
unfolding Tiles
Tiles-append a b c [] qs e t = subst (λ x. Tiles x qs c) (sym e) t
Tiles-append a b c (p ∷ ps) qs (e, t) u = (e, Tiles-append (a + p.length) b c ps qs t u)

pub move_pieces :
    {a a' b b' : ℕ} (ps : List Piece) → a ≡ a' → b ≡ b' → Tiles a ps b → Tiles a' ps b'
move_pieces {a} {a'} {b} {b'} ps e f t =
    subst (λ x. Tiles x ps b') e (subst (λ x. Tiles a ps x) f t)

pub Tiles-nil : (a : ℕ) → Tiles a [] a
unfolding Tiles
Tiles-nil a = refl

pub Each-append :
    (P : Piece → Type 0) (ps qs : List Piece) → Each P ps → Each P qs → Each P (ps ++ qs)
unfolding Each
Each-append P [] qs e f = f
Each-append P (p ∷ ps) qs (x, e) f = (x, Each-append P ps qs e f)

pub Each-map :
    (P Q : Piece → Type 0) → ((p : Piece) → P p → Q p) → (ps : List Piece) → Each P ps → Each Q ps
unfolding Each
Each-map P Q f [] e = tt
Each-map P Q f (p ∷ ps) (x, e) = (f p x, Each-map P Q f ps e)
