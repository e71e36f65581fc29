-- ===== src/Transfer/Segment.antt =====
-- The pieces of one segment: the inner loop of `priskv_rdma_rw_req` (server/rdma.c).
use pris_kv.Base.{
  ℕ, zero, suc, ◌+◌, ◌-◌, ◌≤◌, ◌<◌, ◌≡◌, ◌⊎◌, inl, inr, arith, refl, some, Bool-cases, false, List,
  [], ◌∷◌, ltb, subst,
}
use pris_kv.Base.Word.{u32, u32_mod, sub_u32, u64_mod}
use pris_kv.Transfer.{KeyedSgl, Piece, min_u32, max_rw_size, piece_at, sgl_pieces}
use pris_kv.Transfer.Tiles.{Tiles, Inside, Moved, Each}

abbrev piece_length : ℕ → ℕ → ℕ → ℕ
piece_length n off r = min_u32 (min_u32 (sub_u32 n off) r) max_rw_size

last_piece :
    (at n off r : ℕ)
    → off ≤ n
    → n < u32_mod
    → ltb (u32 (off + piece_length n off r)) (min_u32 n r) ≡ false
    → (n ≤ r) ⊎ ((r ≤ max_rw_size) × (off ≡ 0))
    → at + off + piece_length n off r ≡ at + min_u32 n r
last_piece at n off r le w f fit = ground (arith, le, w, f, fit)

one_round :
    (n off r : ℕ)
    → n < u32_mod
    → r ≤ max_rw_size
    → off ≡ 0
    → ¬ (u32 (off + piece_length n off r) < min_u32 n r)
one_round n off r w small z lt = ground (arith, w, small, z, lt)

-- The inner loop from `off` on.
pub sgl_pieces_lem :
    (fuel val offset : ℕ) (s : KeyedSgl) (off r : ℕ)
    → off ≤ s.length
    → s.length - off < fuel
    → s.length < u32_mod
    → s.addr + s.length < u64_mod
    → val + offset + s.length < u64_mod
    → (ps : List Piece) × (sgl_pieces fuel val offset s off r ≡ some ps)
      × Each (Moved (val + offset) s) ps
      × ((s.length ≤ r) ⊎ ((r ≤ max_rw_size) × (off ≡ 0))
          → Tiles (val + offset + off) ps (val + offset + min_u32 s.length r))
unfolding sgl_pieces Each Tiles piece_at
sgl_pieces_lem zero val offset s off r le lt w p q = absurd (omega (arith, lt))
sgl_pieces_lem (suc fuel) val offset s off r le lt w p q =
    let a = piece_at val offset s off r in
    let next = u32 (off + a.length) in
    let upto : a.length ≤ s.length - off = ground (arith, le, w) in
    let short : a.length ≤ max_rw_size = ground arith in
    let plain : next ≡ off + a.length = omega (arith, upto, le, w) in
    let here : a.addr ≡ val + offset + off = omega (arith, q, le) in
    let there : a.remote_addr ≡ s.addr + off = omega (arith, p, le) in
    let inside : Inside s a = record {
      rkey = refl;
      from = omega (arith, there);
      to = omega (arith, there, upto, le);
      short = short;
    } in
    let moved : Moved (val + offset) s a = record {
      inside = inside;
      same = omega (arith, here, there);
    } in
    elim (Bool-cases (ltb next (min_u32 s.length r))) [
      | inr f ↦ (
        a ∷ [],
        ground (arith, f),
        (moved, tt),
        λ fit. (here, last_piece (val + offset) s.length off r le w f fit),
      )
      | inl t ↦
          let more : next < min_u32 s.length r = ground (arith, t) in
          let (ps, e, each, tiles) =
            sgl_pieces_lem fuel val offset s next r (ground (arith, more))
              (ground (arith, more, plain, le, lt, w)) w p q in
          (
            a ∷ ps,
            ground (arith, t, e),
            (moved, each),
            λ fit. (
              here,
              subst (λ x. Tiles x ps (val + offset + min_u32 s.length r)) (omega (arith, plain))
                  (tiles (elim fit [
                    | inl whole ↦ inl whole
                    | inr (small, zero_off) ↦
                        absurd (one_round s.length off r w small zero_off more)
                  ])),
            ),
          )
    ]
