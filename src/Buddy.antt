-- ===== src/Buddy.antt =====
-- server/buddy.c: the buddy allocator of the value blocks. `meta` is a complete binary tree in an
-- array, the root at 0: at each node the largest block that is free below it, 0 where the node is
-- handed out. The array is the memory behind the blocks, so it is a function of the index. Each
-- operation runs under the mutex `lock` from its start to its end, so it is one step.
pub mod Node
pub mod Inv
mod Walk
mod Take
mod Put
mod Descend
mod Blocks
mod Climb
pub mod Valid
pub mod Alloc
pub mod Free
pub mod Create
pub mod Disjoint
mod RoundTrip
mod Tests
use pris_kv.Base.{
  ℕ, zero, suc, ◌+◌, ◌-◌, ◌*◌, ◌/◌, ◌^◌, Option, none, some, Bool, true, false, ltb, leb, ◌==◌,
  if◌then◌else◌,
}
use pris_kv.Base.Word.{u32_mod, u64_mod, u32, u64, sub_u32, is_power_of_2, bit_length, clz}

abbrev pub Meta : Type 0
Meta = ℕ → ℕ

pub record Buddy : Type 0 where
  pub nmemb : ℕ
  pub inuse : ℕ
  pub size : ℕ
  pub base : ℕ
  pub meta : Meta

abbrev pub store : Meta → ℕ → ℕ → Meta
store m i v j = if i == j then v else m j

abbrev pub l_leaf : ℕ → ℕ
l_leaf index = u32 (index * 2 + 1)

abbrev pub r_leaf : ℕ → ℕ
r_leaf index = u32 (index * 2 + 2)

abbrev pub parent : ℕ → ℕ
parent index = sub_u32 (u32 (index + 1) / 2) 1

abbrev pub max_of : ℕ → ℕ → ℕ
max_of a b = if ltb b a then a else b

-- At 2^31 < val the shift is by 32, which C leaves undefined; the model gives 0 there.
unfoldable pub roundup_power_of_2 : ℕ → ℕ
unfolding clz
roundup_power_of_2 val = u32 (2 ^ (32 - clz val))

-- The loop of `priskv_buddy_create`, `rounds` rounds before its end.
unfoldable pub fill : ℕ → ℕ → ℕ → Meta → Meta
fill zero i nodes m = m
fill (suc rounds) i nodes m =
    let nodes' : ℕ = if is_power_of_2 (u32 (i + 1)) then nodes / 2 else nodes in
    fill rounds (i + 1) nodes' (store m i nodes')

-- `calloc_ok` tells whether `calloc` finds memory for the handle, and `memory` is what stands
-- behind the blocks, at `base + nmemb * size`.
unfoldable pub create : Bool → Meta → ℕ → ℕ → ℕ → Option Buddy
create calloc_ok memory base nmemb size =
    if base == 0
    then none
    else if is_power_of_2 nmemb
    then (if calloc_ok
        then some (record {
          nmemb = nmemb;
          inuse = 0;
          size = size;
          base = base;
          meta = fill (sub_u32 (u32 (nmemb * 2)) 1) 0 (u32 (nmemb * 2)) memory;
        })
        else none)
    else none

unfoldable pub align_up : ℕ → ℕ
align_up alignup = if is_power_of_2 alignup then alignup else roundup_power_of_2 alignup

-- The number of blocks that a request for `size` bytes takes: `alignup`, once it is a power of two.
unfoldable pub blocks_for : Buddy → ℕ → ℕ
blocks_for b size = align_up (u32 ((size + b.size - 1) / b.size))

-- The walk down of `priskv_buddy_alloc`: the index and `nodes` at its end. `none` means that it
-- goes on for longer than `fuel` rounds.
unfoldable pub descend : ℕ → Meta → ℕ → ℕ → ℕ → Option (ℕ × ℕ)
descend zero m alignup index nodes = none
descend (suc fuel) m alignup index nodes = elim (nodes == alignup) [
  | true ↦ some (index, nodes)
  | false ↦
      descend fuel m alignup (if leb alignup (m (l_leaf index)) then l_leaf index else r_leaf index)
        (nodes / 2)
]

-- The walk up to the root that ends both operations: each parent gets what `value` makes of its
-- `nodes` and its children. `index` falls in each round, so `index` rounds are enough.
unfoldable pub update_parents : (ℕ → ℕ → ℕ → ℕ) → ℕ → ℕ → Meta → ℕ → Meta
update_parents value zero nodes m index = m
update_parents value (suc fuel) nodes m index = elim (index == 0) [
  | true ↦ m
  | false ↦
      update_parents value fuel (u32 (nodes * 2))
        (store m (parent index)
          (value (u32 (nodes * 2)) (m (l_leaf (parent index))) (m (r_leaf (parent index)))))
        (parent index)
]

-- `MAX(left, right)`, in `priskv_buddy_alloc`.
abbrev pub larger : ℕ → ℕ → ℕ → ℕ
larger nodes left right = max_of left right

-- The same where both children are free as a whole, in `priskv_buddy_free`.
abbrev pub merged : ℕ → ℕ → ℕ → ℕ
merged nodes left right = if u32 (left + right) == nodes then nodes else max_of left right

-- The state after the node `index` of `nodes` blocks is handed out, and the block's address.
unfoldable pub take_node : Buddy → ℕ → ℕ → ℕ → Buddy × Option ℕ
take_node b alignup index nodes = (
  record b {
    inuse = u32 (b.inuse + alignup);
    meta = update_parents larger index nodes (store b.meta index 0) index;
  },
  some (b.base + sub_u32 ((index + 1) * nodes) b.nmemb * b.size),
)

-- `priskv_buddy_alloc`: the address is `none` for NULL. The outer option is `none` where the walk
-- down goes on after 33 rounds, in which a `uint32_t` is halved to 0.
unfoldable pub alloc : Buddy → ℕ → Option (Buddy × Option ℕ)
alloc b size =
    let alignup = blocks_for b size in
    if ltb (b.meta 0) alignup then some (b, none) else elim (descend 33 b.meta alignup 0 b.nmemb) [
      | none ↦ none
      | some (index, nodes) ↦
          some (if b.meta index == 0 then (b, none) else take_node b alignup index nodes)
    ]

-- The first loop of `priskv_buddy_free`: up from a leaf to the node that is handed out, with its
-- `nodes`. `none` is the jump to `end`. `index` falls in each round, so `suc index` are enough.
unfoldable pub climb : ℕ → Meta → ℕ → ℕ → Option (ℕ × ℕ)
climb zero m index nodes = none
climb (suc fuel) m index nodes = elim (m index == 0) [
  | true ↦ some (index, nodes)
  | false ↦ elim (index == 0) [
    | true ↦ none
    | false ↦ climb fuel m (parent index) (u32 (nodes * 2))
  ]
]

unfoldable pub put_node : Buddy → ℕ → ℕ → Buddy
put_node b index nodes = record b {
  inuse = sub_u32 b.inuse nodes;
  meta = update_parents merged index nodes (store b.meta index nodes) index;
}

-- `((uint8_t *)addr - base) / size` as a `uint64_t`.
unfoldable pub offset_of : Buddy → ℕ → ℕ
offset_of b addr =
    if leb b.base addr then (addr - b.base) / b.size else u64 (u64_mod - (b.base - addr) / b.size)

-- `priskv_buddy_free`; `none` is an assertion that fails.
unfoldable pub free : Buddy → ℕ → Option Buddy
free b addr =
    let offset = offset_of b addr in
    let index = u32 (offset + b.nmemb + u64_mod - 1) in
    if u64 (offset * b.size + b.base) == addr
    then (if ltb index (u32 (2 * b.nmemb))
        then elim (climb (suc index) b.meta index 1) [
          | none ↦ some b
          | some (i, nodes) ↦ if ltb i (u32 (2 * b.nmemb)) then some (put_node b i nodes) else none
        ]
        else none)
    else none
