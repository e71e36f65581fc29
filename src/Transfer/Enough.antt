-- ===== src/Transfer/Enough.antt =====
-- The loops of `priskv_rdma_rw_req` (server/rdma.c) end, with at most four pieces for a segment.
use pris_kv.Base.{
  ℕ, zero, suc, ◌+◌, ◌-◌, ◌*◌, ◌≤◌, ◌<◌, ◌≡◌, inl, inr, arith, refl, some, Bool-cases, true, List,
  [], ◌∷◌, ◌++◌, ltb, length, length-append,
}
use pris_kv.Base.Word.{u32, u32_mod, sub_u32}
use pris_kv.Transfer.{KeyedSgl, Piece, min_u32, max_rw_size, piece_at, sgl_pieces, rw_pieces}

-- The lengths are those of a `uint32_t`.
unfoldable pub Words : List KeyedSgl → Type 0
Words [] = Unit {0}
Words (s ∷ sgls) = (s.length < u32_mod) × Words sgls

-- A piece that is not the last one of its segment has 2^30 bytes.
whole_piece :
    (n off r : ℕ)
    → off ≤ n
    → n < u32_mod
    → let next = u32 (off + min_u32 (min_u32 (sub_u32 n off) r) max_rw_size) in
      ltb next (min_u32 n r) ≡ true → (next ≡ off + max_rw_size) × (next ≤ n)
whole_piece n off r le w t = ground (arith, le, w, t)

segment_enough :
    (fuel val offset : ℕ) (s : KeyedSgl) (off r : ℕ)
    → off ≤ s.length
    → s.length - off < fuel
    → s.length < u32_mod
    → (ps : List Piece) × (sgl_pieces fuel val offset s off r ≡ some ps)
      × (1 ≤ length ps)
      × (length ps * max_rw_size ≤ s.length - off + max_rw_size)
unfolding sgl_pieces piece_at
segment_enough zero val offset s off r le lt w = absurd (omega (arith, lt))
segment_enough (suc fuel) val offset s off r le lt w =
    let a = piece_at val offset s off r in
    let next = u32 (off + a.length) in
    elim (Bool-cases (ltb next (min_u32 s.length r))) [
      | inr f ↦ (a ∷ [], ground (arith, f), omega arith, omega arith)
      | inl t ↦
          let (plain, upto) = whole_piece s.length off r le w t in
          let (ps, e, one, few) =
            segment_enough fuel val offset s next r upto (omega (arith, plain, upto, lt)) w in
          (a ∷ ps, ground (arith, t, e), omega arith, omega (arith, few, plain, upto))
    ]

pub rw_pieces_enough :
    (val offset r : ℕ) (sgls : List KeyedSgl)
    → Words sgls
    → (ps : List Piece) × (rw_pieces val offset r sgls ≡ some ps)
      × (length sgls ≤ length ps)
      × (length ps ≤ 4 * length sgls)
unfolding rw_pieces Words
rw_pieces_enough val offset r [] _ = ([], refl, omega arith, omega arith)
rw_pieces_enough val offset r (s ∷ sgls) (w, words) =
    let (ps, e, one, few) =
      segment_enough (suc s.length) val offset s 0 r (omega arith) (omega arith) w in
    let (qs, f, many, few') =
      rw_pieces_enough val (u32 (offset + s.length)) (sub_u32 r s.length) sgls words in
    (
      ps ++ qs,
      ground (arith, e, f),
      omega (arith, length-append ps qs, one, many),
      omega (arith, length-append ps qs, few, w, few'),
    )
