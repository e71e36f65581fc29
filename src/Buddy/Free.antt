-- ===== src/Buddy/Free.antt =====
-- What `priskv_buddy_free` does to a well-formed allocator, at an address that is handed out.
use pris_kv.Base.{
  ℕ, suc, ◌+◌, ◌-◌, ◌*◌, ◌/◌, ◌≤◌, ◌<◌, ◌≡◌, ◌≢◌, arith, some, true, ◌==◌, ltb, leb, refl, ap, ◌∙◌,
}
use pris_kv.Base.Word.{u32, u64, sub_u32, u64_mod}
use pris_kv.Base.Pow.{pow2}
use pris_kv.Buddy.{Buddy, free, offset_of, climb, put_node, update_parents, merged, store}
use pris_kv.Buddy.Node.{index-lt}
use pris_kv.Buddy.Inv.{Used}
use pris_kv.Buddy.Walk.{update_parents-Rewritten}
use pris_kv.Buddy.Put.{put-Shape, put-Used_to, put-Used_old}
use pris_kv.Buddy.Climb.{climb_finds, Leftmost-leaf, here}
use pris_kv.Buddy.Valid.{IsValid, first_block, address, Node-range}
use native.Mathlib.Nat.{mul-div_cancel, mul-le-mul_right}

-- From `b` to `b'` the node `i`, and nothing else, has been taken back.
pub record TakenBack (n : ℕ) (b b' : Buddy) (i j : ℕ) : Type 0 where
  pub valid : IsValid n b'
  pub only : (x k : ℕ) → Used n b'.meta x k → Used n b.meta x k × (x ≢ i)
  pub kept : (x k : ℕ) → Used n b.meta x k → x ≢ i → Used n b'.meta x k
  pub inuse : b'.inuse ≡ sub_u32 b.inuse (pow2 j)
  pub place : (b'.base ≡ b.base) × (b'.size ≡ b.size) × (b'.nmemb ≡ b.nmemb)

-- The checks of `priskv_buddy_free` pass where the address is that of a block.
free_at :
    (b : Buddy) (offset index i nodes : ℕ)
    → 0 < b.size
    → b.base + offset * b.size < u64_mod
    → u32 (offset + b.nmemb + u64_mod - 1) ≡ index
    → index < u32 (2 * b.nmemb)
    → climb (suc index) b.meta index 1 ≡ some (i, nodes)
    → i < u32 (2 * b.nmemb)
    → free b (b.base + offset * b.size) ≡ some (put_node b i nodes)
unfolding free offset_of
free_at b offset index i nodes pos memory at lt found lt' =
    let below : leb b.base (b.base + offset * b.size) ≡ true = ground arith in
    let diff : b.base + offset * b.size - b.base ≡ offset * b.size = omega arith in
    let back : (b.base + offset * b.size - b.base) / b.size ≡ offset =
      ap (λ z. z / b.size) diff ∙ mul-div_cancel offset pos in
    let exact : (u64 (offset * b.size + b.base) == b.base + offset * b.size) ≡ true =
      ground arith in
    let in_range : ltb index (u32 (2 * b.nmemb)) ≡ true = ground arith in
    let in_range' : ltb i (u32 (2 * b.nmemb)) ≡ true = ground arith in
    rw (below, back, exact, at, in_range, found, in_range')

module _ {n i j : ℕ} {b : Buddy} (v : IsValid n b) (used : Used n b.meta i j) where
  put_node-TakenBack : TakenBack n b (put_node b i (pow2 j)) i j
  unfolding put_node
  put_node-TakenBack =
      let w = update_parents-Rewritten merged n b.meta (pow2 j) i j v.small used.node in
      let m' = update_parents merged i (pow2 j) (store b.meta i (pow2 j)) i in
      record {
        valid = record {
          nmemb = v.nmemb;
          small = v.small;
          size = v.size;
          memory = v.memory;
          shape = put-Shape v.small v.shape used m' w;
        };
        only = put-Used_to v.small v.shape used m' w;
        kept = put-Used_old v.small v.shape used m' w;
        inuse = refl;
        place = (refl, refl, refl);
      }

  -- The address of a block that is handed out is taken back: no assertion fails, that block and no
  -- other becomes free, `inuse` falls by its size, and the allocator stays well-formed.
  pub free_lem : (b' : Buddy) × (free b (address b i j) ≡ some b') × TakenBack n b b' i j
  free_lem =
      let (y, l, e) = Leftmost-leaf j i (here refl refl) in
      let (lo, hi) = Node-range used.node in
      let found = climb_finds v.small v.shape used (suc y) y 0 l (omega arith) in
      let inside : first_block b i j * b.size ≤ b.nmemb * b.size =
        mul-le-mul_right b.size (omega (arith, v.nmemb)) in
      (
        put_node b i (pow2 j),
        free_at b (first_block b i j) y i (pow2 j) v.size (omega (arith, v.memory))
            (omega (arith, v.nmemb, v.small)) (omega (arith, v.nmemb, v.small)) found
            (omega (arith, v.nmemb, v.small, index-lt used.node)),
        put_node-TakenBack,
      )
