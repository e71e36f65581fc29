-- ===== src/Buddy/Alloc.antt =====
-- What `priskv_buddy_alloc` does to a well-formed allocator.
use pris_kv.Base.{
  ℕ, suc, ◌+◌, ◌-◌, ◌*◌, ◌≤◌, ◌<◌, ◌≡◌, ◌⊎◌, inl, inr, arith, none, some, true, false, ◌==◌, ltb,
  dec_lt, subst, refl, ap, ◌∙◌,
}
use pris_kv.Base.Word.{u32}
use pris_kv.Base.Pow.{pow2, pow2_pos, pow2_lt}
use pris_kv.Buddy.{Buddy, alloc, blocks_for, descend, take_node, update_parents, larger, store}
use pris_kv.Buddy.Node.{Node, Above, root, Above-lt}
use pris_kv.Buddy.Inv.{Used, bound}
use pris_kv.Buddy.Blocks.{Fits, blocks_for-Fits}
use pris_kv.Buddy.Walk.{update_parents-Rewritten}
use pris_kv.Buddy.Take.{take-Shape, take-Used_to, take-Used_old, take-Used_new}
use pris_kv.Buddy.Descend.{descend_finds}
use pris_kv.Buddy.Valid.{IsValid, address, offset_lem}

-- From `b` to `b'` the node `i` of 2^j blocks, and nothing else, has been handed out.
pub record HandedOut (n : ℕ) (b b' : Buddy) (i j : ℕ) : Type 0 where
  pub valid : IsValid n b'
  pub node : Node n i j
  pub was_free : b.meta i ≡ pow2 j
  pub new : Used n b'.meta i j
  pub kept : (x k : ℕ) → Used n b.meta x k → Used n b'.meta x k
  pub only : (x k : ℕ) → Used n b'.meta x k → Used n b.meta x k ⊎ (x ≡ i)
  pub inuse : b'.inuse ≡ u32 (b.inuse + pow2 j)
  pub place : (b'.base ≡ b.base) × (b'.size ≡ b.size) × (b'.nmemb ≡ b.nmemb)

alloc_full :
    (b : Buddy) (size a : ℕ) → blocks_for b size ≡ a → b.meta 0 < a → alloc b size ≡ some (b, none)
unfolding alloc
alloc_full b size a count h = let test : ltb (b.meta 0) a ≡ true = ground arith in rw (count, test)

alloc_at :
    (b : Buddy) (size i : ℕ)
    → blocks_for b size ≤ b.meta 0
    → descend 33 b.meta (blocks_for b size) 0 b.nmemb ≡ some (i, blocks_for b size)
    → 0 < b.meta i
    → alloc b size ≡ some (take_node b (blocks_for b size) i (blocks_for b size))
unfolding alloc
alloc_at b size i room found free =
    let test : ltb (b.meta 0) (blocks_for b size) ≡ false = ground arith in
    let test' : (b.meta i == 0) ≡ false = ground arith in rw (test, found, test')

alloc_found :
    (b : Buddy) (size a i : ℕ)
    → blocks_for b size ≡ a
    → a ≤ b.meta 0
    → descend 33 b.meta a 0 b.nmemb ≡ some (i, a)
    → 0 < b.meta i
    → alloc b size ≡ some (take_node b a i a)
alloc_found b size a i count =
    subst
      (λ a.
        a ≤ b.meta 0
        → descend 33 b.meta a 0 b.nmemb ≡ some (i, a)
        → 0 < b.meta i
        → alloc b size ≡ some (take_node b a i a))
      count (alloc_at b size i)

module _ {n i j : ℕ} {b : Buddy} (v : IsValid n b) (node : Node n i j) (full : b.meta i ≡ pow2 j)
    (open_above : (x : ℕ) → Above x i → 0 < b.meta x) where
  take_node-eq :
      take_node b (pow2 j) i (pow2 j) ≡ ((take_node b (pow2 j) i (pow2 j)).0, some (address b i j))
  unfolding take_node
  take_node-eq =
      ap (λ z. ((take_node b (pow2 j) i (pow2 j)).0, some (b.base + z * b.size)))
        (offset_lem v node)

  take_node-HandedOut : HandedOut n b (take_node b (pow2 j) i (pow2 j)).0 i j
  unfolding take_node
  take_node-HandedOut =
      let w = update_parents-Rewritten larger n b.meta 0 i j v.small node in
      let m' = update_parents larger i (pow2 j) (store b.meta i 0) i in
      record {
        valid = record {
          nmemb = v.nmemb;
          small = v.small;
          size = v.size;
          memory = v.memory;
          shape = take-Shape v.shape node full open_above m' w;
        };
        node = node;
        was_free = full;
        new = take-Used_new v.shape node full open_above m' w j node;
        kept = take-Used_old v.shape node full open_above m' w;
        only = take-Used_to v.shape node full open_above m' w;
        inuse = refl;
        place = (refl, refl, refl);
      }

-- On a well-formed allocator `priskv_buddy_alloc` ends, for a request of 1 byte to 2^31. With 2^j
-- the least power of two of blocks that hold the request, either it returns NULL, changes nothing
-- and the root has no room for them, or it returns the address of an aligned node of 2^j blocks
-- that was free as a whole. Then that node, and nothing else, is handed out, `inuse` grows by 2^j,
-- and the allocator is well-formed.
pub alloc_lem :
    {n : ℕ} {b : Buddy} (size : ℕ)
    → IsValid n b
    → 0 < size
    → size ≤ 2147483648
    → (j : ℕ) × Fits b size j
      × (((alloc b size ≡ some (b, none)) × (b.meta 0 < pow2 j))
          ⊎ ((i : ℕ) × (b' : Buddy) × (alloc b size ≡ some (b', some (address b i j)))
              × HandedOut n b b' i j))
alloc_lem {n} {b} size v p small =
    let (j, fits) = blocks_for-Fits b size p small v.size in
    (
      j,
      fits,
      elim (dec_lt (b.meta 0) (pow2 j)) [
        | yes h ↦ inl (alloc_full b size (pow2 j) fits.count h, h)
        | no h ↦ inr (found j fits (omega arith))
      ],
    )
  where
    found :
        (j : ℕ)
        → Fits b size j
        → pow2 j ≤ b.meta 0
        → (i : ℕ) × (b' : Buddy) × (alloc b size ≡ some (b', some (address b i j)))
          × HandedOut n b b' i j
    found j fits room =
        let top : Node n 0 n = root refl refl in
        let le : j < suc n =
          pow2_lt j (suc n) (omega (arith, room, bound v.shape n 0 top, pow2_pos n)) in
        let short : n < 33 = omega (arith, pow2_lt n 33 (omega (arith, v.small))) in
        let (i, walk, node, full, above) =
          descend_finds v.small v.shape j (n - j) 33 0 n (omega arith) (omega arith) (record {
            node = top;
            room = room;
            open_above = λ x a. absurd (omega (arith, Above-lt a));
          }) in
        let walk' = ap (λ z. descend 33 b.meta (pow2 j) 0 z) v.nmemb ∙ walk in
        (
          i,
          (take_node b (pow2 j) i (pow2 j)).0,
          alloc_found b size (pow2 j) i fits.count room walk' (omega (arith, full, pow2_pos j))
              ∙ ap some (take_node-eq v node full above),
          take_node-HandedOut v node full above,
        )
