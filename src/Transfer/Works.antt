-- ===== src/Transfer/Works.antt =====
-- The completions of a transfer (`priskv_rdma_handle_rw` of server/rdma.c).
use pris_kv.Base.{
  ℕ, zero, suc, ◌+◌, ◌%◌, ◌<◌, ◌≡◌, arith, Option, none, some, Bool, true, false, List, [], ◌∷◌,
  ◌++◌, replicate, length, leb, ltb, not, inl, inr, Bool-cases,
}
use pris_kv.Transfer.{Piece, Work, posted, handle_rw}

-- For each of so many completions: has it called `cb`, and has it sent the response?
unfoldable pub completions : ℕ → Work → Option (List (Bool × Bool))
completions zero w = some []
completions (suc k) w = elim (handle_rw w) [
  | none ↦ none
  | some (w', called, sent) ↦ elim (completions k w') [
    | none ↦ none
    | some l ↦ some ((called, sent) ∷ l)
  ]
]

completions_left :
    (k : ℕ) (w : Work)
    → w.completed + suc k ≡ w.nsgl
    → w.nsgl < 65536
    → completions (suc k) w ≡ some (replicate k (false, false) ++ ((true, not w.defer_resp) ∷ []))
unfolding completions handle_rw
completions_left zero w e small =
    let next : (w.completed + 1) % 65536 ≡ w.nsgl = omega (arith, e, small) in
    let fine : leb ((w.completed + 1) % 65536) w.nsgl ≡ true = ground (arith, next) in
    let last : ltb ((w.completed + 1) % 65536) w.nsgl ≡ false = ground (arith, next) in
    elim (Bool-cases w.defer_resp) [
      | inl d ↦ ground (arith, fine, last, d)
      | inr d ↦ ground (arith, fine, last, d)
    ]
completions_left (suc k) w e small =
    let next : (w.completed + 1) % 65536 ≡ w.completed + 1 = omega (arith, e, small) in
    let fine : leb ((w.completed + 1) % 65536) w.nsgl ≡ true = ground (arith, next, e) in
    let more : ltb ((w.completed + 1) % 65536) w.nsgl ≡ true = ground (arith, next, e) in
    let w' : Work = record w { completed = (w.completed + 1) % 65536 } in
    let rest = completions_left k w' (omega (arith, next, e)) small in
    ground (arith, fine, more, rest)

-- A transfer is answered once, when its last piece is done: of as many completions as pieces were
-- posted the last one calls the callback, and sends the response unless the transfer leaves it to
-- the callback (`defer_resp`); no other does either, and no assertion fails. It is asked that at
-- least one and fewer than 65536 pieces were posted.
pub posted-handle_rw :
    (p : Piece) (ps : List Piece) (valuelen : ℕ) (defer_resp : Bool)
    → length (p ∷ ps) < 65536
    → completions (length (p ∷ ps)) (posted (p ∷ ps) valuelen defer_resp)
      ≡ some (replicate (length ps) (false, false) ++ ((true, not defer_resp) ∷ []))
unfolding posted
posted-handle_rw p ps valuelen defer_resp small =
    completions_left (length ps) (posted (p ∷ ps) valuelen defer_resp) (omega (arith, small))
      (omega (arith, small))
