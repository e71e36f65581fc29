-- ===== src/Transfer.antt =====
-- The transfers of server/rdma.c: how `priskv_rdma_rw_req` cuts a value into the pieces that it
-- posts, over the segments of the client's memory (`priskv_keyed_sgl`), and how
-- `priskv_rdma_handle_rw` counts the completions. A request's numbers have been read from the wire.
pub mod Tiles
pub mod Segment
pub mod Pieces
pub mod Works
pub mod Enough
mod Tests
use pris_kv.Base.{
  ℕ, zero, suc, ◌+◌, ◌-◌, ◌%◌, Option, none, some, Bool, true, false, List, [], ◌∷◌, ◌++◌, ltb, leb,
  ◌==◌, if◌then◌else◌, length,
}
use pris_kv.Base.Word.{u32, sub_u32, u64_mod}

-- `priskv_keyed_sgl`
pub record KeyedSgl : Type 0 where
  pub addr : ℕ
  pub length : ℕ
  pub key : ℕ

-- The `ibv_send_wr` of a piece, with its `ibv_sge`.
pub record Piece : Type 0 where
  pub remote_addr : ℕ
  pub rkey : ℕ
  pub addr : ℕ
  pub length : ℕ

-- `priskv_sgl_size_from_be`
unfoldable pub sgl_size : ℕ → List KeyedSgl → ℕ
sgl_size size [] = size
sgl_size size (s ∷ sgls) = sgl_size (u32 (size + s.length)) sgls

-- `priskv_min_u32`
abbrev pub min_u32 : ℕ → ℕ → ℕ
min_u32 a b = if ltb a b then a else b

-- `priskv_rdma_max_rw_size`
abbrev pub max_rw_size : ℕ
max_rw_size = 1073741824

unfoldable pub piece_at : ℕ → ℕ → KeyedSgl → ℕ → ℕ → Piece
piece_at val offset s sgl_offset valuelen = record {
  remote_addr = (s.addr + sgl_offset) % u64_mod;
  rkey = s.key;
  addr = (val + offset + sgl_offset) % u64_mod;
  length = min_u32 (min_u32 (sub_u32 s.length sgl_offset) valuelen) max_rw_size;
}

-- The inner loop of `priskv_rdma_rw_req`. `none` means that the fuel ran out.
unfoldable pub sgl_pieces : ℕ → ℕ → ℕ → KeyedSgl → ℕ → ℕ → Option (List Piece)
sgl_pieces zero val offset s sgl_offset valuelen = none
sgl_pieces (suc fuel) val offset s sgl_offset valuelen =
    let p = piece_at val offset s sgl_offset valuelen in
    let next = u32 (sgl_offset + p.length) in
    elim (ltb next (min_u32 s.length valuelen)) [
      | false ↦ some (p ∷ [])
      | true ↦ elim (sgl_pieces fuel val offset s next valuelen) [
        | none ↦ none
        | some ps ↦ some (p ∷ ps)
      ]
    ]

-- The outer loop, over the segments that are left: a segment takes no more rounds than it has
-- bytes, and one.
unfoldable pub rw_pieces : ℕ → ℕ → ℕ → List KeyedSgl → Option (List Piece)
rw_pieces val offset valuelen [] = some []
rw_pieces val offset valuelen (s ∷ sgls) =
    elim (sgl_pieces (suc s.length) val offset s 0 valuelen) [
      | none ↦ none
      | some ps ↦ elim (rw_pieces val (u32 (offset + s.length)) (sub_u32 valuelen s.length) sgls) [
        | none ↦ none
        | some qs ↦ some (ps ++ qs)
      ]
    ]

-- `priskv_rdma_rw_work`, as far as it counts.
pub record Work : Type 0 where
  pub valuelen : ℕ
  pub nsgl : ℕ
  pub completed : ℕ
  pub defer_resp : Bool

-- The end of `priskv_rdma_rw_req` with all pieces posted.
unfoldable pub posted : List Piece → ℕ → Bool → Work
posted ps valuelen defer_resp = record {
  valuelen = valuelen;
  nsgl = length ps % 65536;
  completed = 0;
  defer_resp = defer_resp;
}

-- `priskv_rdma_handle_rw` at the completion of one piece: has it called `cb`, and has it sent the
-- response? `none` is a failed assertion.
unfoldable pub handle_rw : Work → Option (Work × Bool × Bool)
handle_rw w =
    let completed = (w.completed + 1) % 65536 in
    let w' : Work = record w { completed = completed } in
    if leb completed w.nsgl
    then (if ltb completed w.nsgl
        then some (w', false, false)
        else (if w.defer_resp then some (w', true, false) else some (w', true, true)))
    else none
