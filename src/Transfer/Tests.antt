-- ===== src/Transfer/Tests.antt =====
-- Transfers of server/rdma.c on small segments, and the theorems at them.
use pris_kv.Base.{ℕ, ◌+◌, ◌≡◌, arith, refl, some, true, false, List, [], ◌∷◌, map}
use mathlib.Core.Option
use pris_kv.Transfer.{KeyedSgl, Piece, sgl_size, piece_at, sgl_pieces, rw_pieces, posted}
use pris_kv.Transfer.Tiles.{Tiles, Each, Reaches, Moves, total, Placed}
use pris_kv.Transfer.Pieces.{rw_pieces-Reaches, sgl_size-rw_pieces}
use pris_kv.Transfer.Works.{completions, posted-handle_rw}

abbrev two : List KeyedSgl
two =
    record { addr = 1000; length = 100; key = 7 }
    ∷ record { addr = 5000; length = 60; key = 8 }
    ∷ []

abbrev shape : Piece → ℕ × ℕ × ℕ
shape p = (p.remote_addr, p.addr, p.length)

-- A value of 130 bytes goes to both segments.
rw_pieces-two :
    Option.map (map shape) (rw_pieces 4096 0 130 two)
    ≡ some ((1000, 4096, 100) ∷ (5000, 4196, 30) ∷ [])
unfolding rw_pieces sgl_pieces piece_at
rw_pieces-two = refl

-- A value of 50 bytes leaves room in the first segment, and then the 60 bytes from its byte 100 on,
-- which are not its own, go to the second segment.
rw_pieces-overread :
    Option.map (map shape) (rw_pieces 4096 0 50 two)
    ≡ some ((1000, 4096, 50) ∷ (5000, 4196, 60) ∷ [])
unfolding rw_pieces sgl_pieces piece_at
rw_pieces-overread = refl

-- A segment of 2^31 bytes and a value of 2^30 + 1 bytes: the second piece is a whole one.
rw_pieces-last_too_long :
    Option.map
      (map shape)
      (rw_pieces 4096 0 1073741825 (record { addr = 0; length = 2147483648; key = 7 } ∷ []))
    ≡ some ((0, 4096, 1073741824) ∷ (1073741824, 1073745920, 1073741824) ∷ [])
unfolding rw_pieces sgl_pieces piece_at
rw_pieces-last_too_long = refl

two-Placed : Placed two
unfolding Placed
two-Placed = (omega arith, (omega arith, tt))

two-total : total two ≡ 160
unfolding total
two-total = refl

rw_pieces-Reaches_example :
    (ps : List Piece) × (rw_pieces 4096 0 50 two ≡ some ps) × Each (Reaches two) ps
rw_pieces-Reaches_example =
    rw_pieces-Reaches 4096 50 two two-Placed (omega arith) (omega (arith, two-total))
      (omega (arith, two-total))

sgl_size-rw_pieces_example :
    (ps : List Piece) × (rw_pieces 4096 0 (sgl_size 0 two) two ≡ some ps)
    × Tiles 4096 ps (4096 + sgl_size 0 two)
    × Each (Moves 4096 two) ps
sgl_size-rw_pieces_example =
    sgl_size-rw_pieces 4096 (record { addr = 1000; length = 100; key = 7 })
      (record { addr = 5000; length = 60; key = 8 } ∷ []) two-Placed (omega (arith, two-total))
      (omega (arith, two-total))

abbrev piece : Piece
piece = record { remote_addr = 1000; rkey = 7; addr = 4096; length = 100 }

posted-handle_rw_example :
    completions 3 (posted (piece ∷ piece ∷ piece ∷ []) 300 true)
    ≡ some ((false, false) ∷ (false, false) ∷ (true, false) ∷ [])
posted-handle_rw_example = posted-handle_rw piece (piece ∷ piece ∷ []) 300 true (omega arith)
