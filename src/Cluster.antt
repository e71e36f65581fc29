-- ===== src/Cluster.antt =====
-- cluster/client/client.c: the table of the slots that the client of a cluster keeps, and the node
-- that a key is sent to. A node is its number; whether a connection to it opens is an argument, as
-- is `crc16`, of which nothing is assumed. A failed assertion is `none`.
pub mod Table
pub mod Unload
pub mod Tags
mod Tests
use pris_kv.Base.{
  ℕ, zero, suc, ◌+◌, ◌-◌, ◌≤◌, ◌<◌, Option, none, some, Bool, true, false, List, [], ◌∷◌, ltb, leb,
  ◌==◌, if◌then◌else◌, bit_and, length, take,
}
use pris_kv.Kv.State.{store}

-- `PRISKV_CLUSTER_SLOTS`
abbrev pub cluster_slots : ℕ
cluster_slots = 4096

-- `priskvClusterMetaDataNodeSlotRange`
pub record SlotRange : Type 0 where
  pub start : ℕ
  pub last : ℕ

abbrev pub Slots : Type 0
Slots = ℕ → Option ℕ

-- `priskvClusterSlotAdd`
unfoldable pub slot_add : Slots → ℕ → ℕ → Option Slots
slot_add slots node slot = elim (ltb slot cluster_slots) [
  | false ↦ none
  | true ↦ elim (slots slot) [ none ↦ some (store slots slot (some node)) | some old ↦ none ]
]

-- `priskvClusterSlotDelete`
unfoldable pub slot_delete : Slots → ℕ → Option Slots
slot_delete slots slot = elim (ltb slot cluster_slots) [
  | false ↦ none
  | true ↦ elim (slots slot) [ none ↦ none | some old ↦ some (store slots slot none) ]
]

-- The inner loop of `priskvClusterMetaDataNodeLoad`, with so many slots left.
unfoldable pub add_slots : ℕ → ℕ → ℕ → Slots → Option Slots
add_slots node zero slot slots = some slots
add_slots node (suc left) slot slots = elim (slot_add slots node slot) [
  | none ↦ none
  | some slots' ↦ add_slots node left (slot + 1) slots'
]

-- The outer loop, over the ranges of the node.
unfoldable pub add_ranges : ℕ → List SlotRange → Slots → Option Slots
add_ranges node [] slots = some slots
add_ranges node (r ∷ ranges) slots = elim (leb r.start r.last) [
  | false ↦ none
  | true ↦ elim (ltb r.last cluster_slots) [
    | false ↦ none
    | true ↦ elim (add_slots node (r.last + 1 - r.start) r.start slots) [
      | none ↦ none
      | some slots' ↦ add_ranges node ranges slots'
    ]
  ]
]

-- The loop of `priskvClusterMetaDataLoad`, from the node `i` on. A node that does not open fails
-- the assertion.
unfoldable pub load_nodes : (ℕ → Bool) → ℕ → List (List SlotRange) → Slots → Option Slots
load_nodes opens i [] slots = some slots
load_nodes opens i (ranges ∷ nodes) slots = elim (opens i) [
  | false ↦ none
  | true ↦ elim (add_ranges i ranges slots) [
    | none ↦ none
    | some slots' ↦ load_nodes opens (i + 1) nodes slots'
  ]
]

-- `priskvClusterMetaDataLoad`
unfoldable pub meta_data_load : (ℕ → Bool) → List (List SlotRange) → Slots → Option Slots
meta_data_load opens nodes slots = load_nodes opens 0 nodes slots

abbrev pub is_node : Option ℕ → ℕ → Bool
is_node o node = elim o [ none ↦ false | some i ↦ i == node ]

-- The loop of `priskvClusterMetaDataNodeUnload`, with so many slots left.
unfoldable pub delete_slots : ℕ → ℕ → ℕ → Slots → Option Slots
delete_slots node zero slot slots = some slots
delete_slots node (suc left) slot slots = elim (is_node (slots slot) node) [
  | false ↦ delete_slots node left (slot + 1) slots
  | true ↦ elim (slot_delete slots slot) [
    | none ↦ none
    | some slots' ↦ delete_slots node left (slot + 1) slots'
  ]
]

-- `priskvClusterMetaDataNodeUnload`
unfoldable pub node_unload : ℕ → Slots → Option Slots
node_unload node slots = delete_slots node cluster_slots 0 slots

-- The loop of `priskvClusterMetaDataUnload`, with so many nodes left.
unfoldable pub unload_nodes : ℕ → ℕ → Slots → Option Slots
unload_nodes zero i slots = some slots
unload_nodes (suc left) i slots = elim (node_unload i slots) [
  | none ↦ none
  | some slots' ↦ unload_nodes left (i + 1) slots'
]

-- `priskvClusterMetaDataUnload`
unfoldable pub meta_data_unload : ℕ → Slots → Option Slots
meta_data_unload node_count slots = unload_nodes node_count 0 slots

-- The loops of `clusterManagerKeyHashSlot`: what stands behind the first `c`, if there is one, and
-- what stands before it.
unfoldable pub behind : ℕ → List ℕ → Option (List ℕ)
behind c [] = none
behind c (x ∷ l) = if x == c then some l else behind c l

unfoldable pub before : ℕ → List ℕ → Option (List ℕ)
before c [] = none
before c (x ∷ l) =
    let rest = before c l in
    if x == c then some [] else elim rest [ none ↦ none | some p ↦ some (x ∷ p) ]

-- The part of the key that is hashed.
unfoldable pub hashed_part : List ℕ → List ℕ
hashed_part key = elim (behind 123 key) [
  | none ↦ key
  | some l ↦ elim (before 125 l) [ none ↦ key | some [] ↦ key | some (x ∷ tag) ↦ x ∷ tag ]
]

module _ (crc16 : List ℕ → ℕ) where
  -- `clusterManagerKeyHashSlot`
  unfoldable pub key_hash_slot : List ℕ → ℕ
  key_hash_slot key = bit_and (crc16 (hashed_part key)) 4095

  -- `priskvClusterGetNode`
  unfoldable pub get_node : Slots → List ℕ → Option ℕ
  get_node slots key = slots (key_hash_slot key)
