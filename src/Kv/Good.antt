-- ===== src/Kv/Good.antt =====
-- The invariant of the whole store of server/kv.c: what every node owns, that its reference count
-- is the number of its holders, and that the buckets hold every key at most once.
pub mod Counts
pub mod Refs
pub mod Release
pub mod Ops
pub mod Heaps
pub mod Pending
pub mod Insert
pub mod Set
pub mod Sweeps
pub mod Start
pub mod Reach
pub mod Served
pub mod Tests
use pris_kv.Base.{
  ℕ, zero, suc, ◌+◌, ◌%◌, ◌≤◌, ◌<◌, ◌≡◌, ◌≢◌, ◌⊎◌, Option, none, some, List, [], ◌∷◌, ◌==◌,
  if◌then◌else◌, length,
}
use pris_kv.Base.Word.{u32_mod}
use pris_kv.Buddy.{Buddy}
use pris_kv.Buddy.Valid as BuddyValid
use pris_kv.Slab.{Slab}
use pris_kv.Slab.Valid as SlabValid
use pris_kv.Kv.State.{Kv, KeyNode}
use pris_kv.Kv.Ops.{key_header}
use pris_kv.Kv.Owned.{HasSlot, HasBlock, HasRoom}

-- How often a node is on a list.
unfoldable pub times : ℕ → List ℕ → ℕ
times a [] = 0
times a (b ∷ l) = let rest = times a l in if a == b then suc rest else rest

-- A node with a reference whose value is at the address.
abbrev pub Owner : ℕ → (ℕ → KeyNode) → ℕ → Type 0
Owner base node v = (a : ℕ) × (0 < (node a).refcnt) × (base + (node a).value_off ≡ v)

-- A node with a reference owns its slot and a block with room for its value, which no other such
-- node has. SET may have taken a slot `pn`, and a block for so many bytes `pv`, that no node owns yet. Nothing else is in use. A slot
-- has room for a key of `klen` bytes, the store's `max_key_length`.
pub record Heap (klen n : ℕ) (pn : Option ℕ) (pv : Option (ℕ × ℕ)) (slab : Slab) (buddy : Buddy)
    (base : ℕ) (node : ℕ → KeyNode) : Type 0 where
  pub slab_valid : SlabValid.IsValid slab
  pub buddy_valid : BuddyValid.IsValid n buddy
  pub place : buddy.base ≡ base
  pub wide : key_header + klen ≤ slab.size
  pub slot : (a : ℕ) → 0 < (node a).refcnt → HasSlot slab a
  pub block :
      (a : ℕ) → 0 < (node a).refcnt → HasRoom n buddy (base + (node a).value_off) (node a).valuelen
  pub apart :
      (a c : ℕ)
      → 0 < (node a).refcnt
      → 0 < (node c).refcnt
      → (node a).value_off ≡ (node c).value_off
      → a ≡ c
  pub fresh : (a : ℕ) → pn ≡ some a → HasSlot slab a × ((node a).refcnt ≡ 0)
  pub room :
      (v len : ℕ)
      → pv ≡ some (v, len)
      → HasRoom n buddy v len × ((a : ℕ) → 0 < (node a).refcnt → base + (node a).value_off ≢ v)
  pub word : (a : ℕ) → (node a).refcnt < u32_mod
  pub slot_owner : (a : ℕ) → HasSlot slab a → (0 < (node a).refcnt) ⊎ (pn ≡ some a)
  pub block_owner :
      (v : ℕ) → HasBlock n buddy v → Owner base node v ⊎ ((len : ℕ) × (pv ≡ some (v, len)))

-- The bucket of the key of a node.
abbrev pub home : (List ℕ → ℕ) → ℕ → (ℕ → KeyNode) → ℕ → ℕ
home hash bucket_count node a = hash (node a).key % bucket_count

-- A reference is one of `held` or that of the bucket of the node, where it stands once, and alone
-- with its key.
pub record Index (hash : List ℕ → ℕ) (held : ℕ → ℕ) (buckets : ℕ → List ℕ) (bucket_count : ℕ)
    (node : ℕ → KeyNode) : Type 0 where
  pub refs : (a : ℕ) → (node a).refcnt ≡ held a + times a (buckets (home hash bucket_count node a))
  pub homes : (a b : ℕ) → 0 < times a (buckets b) → home hash bucket_count node a ≡ b
  pub single : (a b : ℕ) → times a (buckets b) ≤ 1
  pub sized : (a b : ℕ) → 0 < times a (buckets b) → (node a).keylen ≡ length (node a).key
  pub unique :
      (a c b : ℕ)
      → 0 < times a (buckets b)
      → 0 < times c (buckets b)
      → (node a).key ≡ (node c).key
      → a ≡ c

-- The store between two operations has no pending slot and block.
pub record Good (hash : List ℕ → ℕ) (klen n : ℕ) (held : ℕ → ℕ) (pn : Option ℕ)
    (pv : Option (ℕ × ℕ)) (kv : Kv) : Type 0 where
  pub heap : Heap klen n pn pv kv.key_slab kv.value_buddy kv.value_base kv.node
  pub index : Index hash held kv.buckets kv.bucket_count kv.node
