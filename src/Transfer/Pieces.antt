-- ===== src/Transfer/Pieces.antt =====
-- The pieces of a transfer (`priskv_rdma_rw_req` of server/rdma.c): they lie end to end in the
-- value, and each inside one segment of the client.
use mathlib.Core.Option.{some-injective}
use pris_kv.Base.{
  ℕ, suc, ◌+◌, ◌-◌, ◌≤◌, ◌<◌, ◌≡◌, ◌⊎◌, inl, inr, arith, refl, some, List, [], ◌∷◌, ◌++◌, sym,
  subst,
}
use pris_kv.Base.Word.{u32, u32_mod, sub_u32, u64_mod}
use pris_kv.Transfer.{KeyedSgl, Piece, sgl_size, min_u32, max_rw_size, rw_pieces}
use pris_kv.Transfer.Tiles.{
  Tiles, Moved, Moves, Moves→Reaches, Each, Reaches, total, Placed, Fits, Tiles-append, move_pieces,
  Tiles-nil, Each-append, Each-map,
}
use pris_kv.Transfer.Segment.{sgl_pieces_lem}

Moved-Moves :
    (at : ℕ) (s : KeyedSgl) (sgls : List KeyedSgl) (p : Piece)
    → Moved at s p
    → Moves at (s ∷ sgls) p
unfolding Moves
Moved-Moves at s sgls p q = inl q

Moves-later :
    (at next : ℕ) (s : KeyedSgl) (sgls : List KeyedSgl)
    → next ≡ at + s.length
    → (p : Piece) → Moves next sgls p
    → Moves at (s ∷ sgls) p
unfolding Moves
Moves-later at next s sgls e p q = inr (subst (λ x. Moves x sgls p) e q)

-- The pieces of a segment, and those of the segments behind it.
join_pieces :
    (val offset r : ℕ) (s : KeyedSgl) (sgls : List KeyedSgl) (ps qs : List Piece)
    → r < u32_mod
    → offset + total (s ∷ sgls) < u32_mod
    → rw_pieces val (u32 (offset + s.length)) (sub_u32 r s.length) sgls ≡ some qs
    → ((s.length ≤ r) ⊎ ((r ≤ max_rw_size) × (◌≡◌ {A = ℕ} 0 0))
        → Tiles (val + offset + 0) ps (val + offset + min_u32 s.length r))
    → (Fits (sub_u32 r s.length) sgls
        → Tiles
            (val + u32 (offset + s.length))
            qs
            (val + u32 (offset + s.length) + sub_u32 r s.length))
    → Fits r (s ∷ sgls)
    → Tiles (val + offset) (ps ++ qs) (val + offset + r)
unfolding rw_pieces Fits total
join_pieces val offset r s [] ps qs small w f tiles rest (le, fit) =
    let none_left : [] ≡ qs = some-injective _ _ f in
    let upto : min_u32 s.length r ≡ r = ground (arith, le) in
    let ends : val + offset + min_u32 s.length r ≡ val + offset + r = omega (arith, upto) in
    let t : Tiles (val + offset) ps (val + offset + r) =
      move_pieces ps (omega arith) ends
        (tiles (elim fit [ inl whole ↦ inl whole | inr short ↦ inr (short, refl) ])) in
    Tiles-append (val + offset) (val + offset + r) (val + offset + r) ps qs t (
      subst (λ l. Tiles (val + offset + r) l (val + offset + r)) none_left
        (Tiles-nil (val + offset + r)))
join_pieces val offset r s (t ∷ sgls) ps qs small w f tiles rest (le, fit) =
    let plain : u32 (offset + s.length) ≡ offset + s.length = omega (arith, w) in
    let left : sub_u32 r s.length ≡ r - s.length = omega (arith, le, small) in
    let whole : min_u32 s.length r ≡ s.length = ground (arith, le) in
    let middle : val + u32 (offset + s.length) ≡ val + offset + min_u32 s.length r =
      omega (arith, plain, whole) in
    let ends : val + u32 (offset + s.length) + sub_u32 r s.length ≡ val + offset + r =
      omega (arith, plain, left, le) in
    let behind = rest (subst (λ x. Fits x (t ∷ sgls)) (sym left) fit) in
    Tiles-append (val + offset) (val + offset + min_u32 s.length r) (val + offset + r) ps qs
      (move_pieces ps (omega arith) refl (tiles (inl le)))
      (subst (λ x. Tiles x qs (val + offset + r)) middle
        (subst (λ x. Tiles (val + u32 (offset + s.length)) qs x) ends behind))

rw_pieces_total :
    (val offset r : ℕ) (sgls : List KeyedSgl)
    → Placed sgls
    → r < u32_mod
    → offset + total sgls < u32_mod
    → val + offset + total sgls < u64_mod
    → (ps : List Piece) × (rw_pieces val offset r sgls ≡ some ps)
      × Each (Moves (val + offset) sgls) ps
      × (Fits r sgls → Tiles (val + offset) ps (val + offset + r))
unfolding rw_pieces Placed total Fits Tiles Each
rw_pieces_total val offset r [] _ small w q = ([], refl, tt, λ z. omega (arith, z))
rw_pieces_total val offset r (s ∷ sgls) (p, placed) small w q =
    let (ps, e, inside, tiles) =
      sgl_pieces_lem (suc s.length) val offset s 0 r (omega arith) (omega arith) (omega (arith, w))
        p (omega (arith, q)) in
    let plain : u32 (offset + s.length) ≡ offset + s.length = omega (arith, w) in
    let (qs, f, reach, rest) =
      rw_pieces_total val (u32 (offset + s.length)) (sub_u32 r s.length) sgls placed (omega arith)
        (omega (arith, plain, w)) (omega (arith, plain, q)) in
    (
      ps ++ qs,
      ground (arith, e, f),
      let at = val + offset in
          let next = val + u32 (offset + s.length) in
          Each-append (Moves at (s ∷ sgls)) ps qs
            (Each-map (Moved at s) (Moves at (s ∷ sgls)) (Moved-Moves at s sgls) ps inside)
            (Each-map (Moves next sgls) (Moves at (s ∷ sgls))
              (Moves-later at next s sgls (omega (arith, plain))) qs reach),
      join_pieces val offset r s sgls ps qs small w f tiles rest,
    )

-- The loops of a transfer end, and every piece goes to one of the segments of the client, lies
-- inside it, and is no longer than 2^30 bytes, whatever the length of the value. It is asked that
-- the segments lie in the address space and have less than 2^32 bytes together, and the value
-- with as many bytes behind it too.
pub rw_pieces-Reaches :
    (val valuelen : ℕ) (sgls : List KeyedSgl)
    → Placed sgls
    → valuelen < u32_mod
    → total sgls < u32_mod
    → val + total sgls < u64_mod
    → (ps : List Piece) × (rw_pieces val 0 valuelen sgls ≡ some ps) × Each (Reaches sgls) ps
rw_pieces-Reaches val valuelen sgls placed small w q =
    let (ps, e, reach, _) =
      rw_pieces_total val 0 valuelen sgls placed small (omega (arith, w)) (omega (arith, q)) in
    (ps, e, Each-map (Moves (val + 0) sgls) (Reaches sgls) (Moves→Reaches (val + 0) sgls) ps reach)

-- The pieces of a transfer lie end to end in the value, from its first byte to its last, where no
-- segment but the last one has room to spare, and the last one only if the bytes for it are one
-- piece. It is asked as well that the segments lie in the address space and have less than 2^32
-- bytes together, and the value with as many bytes behind it too.
pub rw_pieces-Tiles :
    (val valuelen : ℕ) (sgls : List KeyedSgl)
    → Placed sgls
    → valuelen < u32_mod
    → total sgls < u32_mod
    → val + total sgls < u64_mod
    → Fits valuelen sgls
    → (ps : List Piece) × (rw_pieces val 0 valuelen sgls ≡ some ps) × Tiles val ps (val + valuelen)
rw_pieces-Tiles val valuelen sgls placed small w q fit =
    let (ps, e, _, tiles) =
      rw_pieces_total val 0 valuelen sgls placed small (omega (arith, w)) (omega (arith, q)) in
    (ps, e, move_pieces ps (omega arith) (omega arith) (tiles fit))

sgl_size_sum :
    (size : ℕ) (sgls : List KeyedSgl)
    → size + total sgls < u32_mod
    → sgl_size size sgls ≡ size + total sgls
unfolding sgl_size total
sgl_size_sum size [] w = omega arith
sgl_size_sum size (s ∷ sgls) w =
    let plain : u32 (size + s.length) ≡ size + s.length = omega (arith, w) in
    omega (arith, sgl_size_sum (u32 (size + s.length)) sgls (omega (arith, plain, w)), plain)

Fits-total : (s : KeyedSgl) (sgls : List KeyedSgl) → Fits (total (s ∷ sgls)) (s ∷ sgls)
unfolding Fits total
Fits-total s [] = (omega arith, inl (omega arith))
Fits-total s (t ∷ sgls) =
    (omega arith, subst (λ x. Fits x (t ∷ sgls)) (omega arith) (Fits-total t sgls))

-- A SET moves every byte of the client to its place: the pieces of a transfer whose value is as
-- long as `priskv_sgl_size_from_be` says lie end to end in it, and each moves bytes inside one
-- segment of the client, at the same offset there as in the part of the value that the segment
-- takes, where the segments follow each other in the value. It is asked that there is a segment, and that the segments lie in the address space and have less than 2^32 bytes together, and the
-- value too.
pub sgl_size-rw_pieces :
    (val : ℕ) (s : KeyedSgl) (sgls : List KeyedSgl)
    → Placed (s ∷ sgls)
    → total (s ∷ sgls) < u32_mod
    → val + total (s ∷ sgls) < u64_mod
    → (ps : List Piece) × (rw_pieces val 0 (sgl_size 0 (s ∷ sgls)) (s ∷ sgls) ≡ some ps)
      × Tiles val ps (val + sgl_size 0 (s ∷ sgls))
      × Each (Moves val (s ∷ sgls)) ps
sgl_size-rw_pieces val s sgls placed w q =
    let e : sgl_size 0 (s ∷ sgls) ≡ total (s ∷ sgls) =
      omega (arith, sgl_size_sum 0 (s ∷ sgls) (omega (arith, w))) in
    let (ps, f, reach, tiles) =
      rw_pieces_total val 0 (sgl_size 0 (s ∷ sgls)) (s ∷ sgls) placed (omega (arith, e, w))
        (omega (arith, w)) (omega (arith, q)) in
    (
      ps,
      f,
      move_pieces ps (omega arith) (omega arith)
          (tiles (subst (λ x. Fits x (s ∷ sgls)) (sym e) (Fits-total s sgls))),
      subst (λ x. Each (Moves x (s ∷ sgls)) ps) (omega arith) reach,
    )
