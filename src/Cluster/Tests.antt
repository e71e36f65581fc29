-- ===== src/Cluster/Tests.antt =====
-- The table of slots of a small cluster (cluster/client/client.c), and the theorems at it.
use pris_kv.Base.{ℕ, ◌<◌, ◌≡◌, arith, refl, none, some, Bool, true, List, [], ◌∷◌, bit_and}
use pris_kv.Cluster.{
  cluster_slots, SlotRange, Slots, slot_add, add_slots, add_ranges, load_nodes, meta_data_load,
  meta_data_unload, behind, before, hashed_part, key_hash_slot, get_node,
}
use pris_kv.Cluster.Table.{owner}
use pris_kv.Cluster.Unload.{no_slots, meta_data_load-get_node, meta_data_load-meta_data_unload}
use pris_kv.Cluster.Tags.{Without, key_hash_slot_lem}

-- The first node has the slots 1, 2 and 5, and the second 3.
abbrev nodes : List (List SlotRange)
nodes =
    (record { start = 1; last = 2 } ∷ record { start = 5; last = 5 } ∷ [])
    ∷ (record { start = 3; last = 3 } ∷ [])
    ∷ []

abbrev opens : ℕ → Bool
opens i = true

-- Any sum will do.
abbrev sum16 : List ℕ → ℕ
sum16 [] = 0
sum16 (b ∷ bs) = b

abbrev loaded : Slots
loaded = elim (meta_data_load opens nodes no_slots) [ none ↦ no_slots | some s ↦ s ]

table : Unit {0}
unfolding meta_data_load load_nodes add_ranges add_slots slot_add
table = tt

loads : meta_data_load opens nodes no_slots ≡ some loaded
unfolding table
loads = refl

-- A slot that two nodes claim fails an assertion.
claimed_twice :
    meta_data_load opens
      ((record { start = 1; last = 2 } ∷ []) ∷ (record { start = 2; last = 3 } ∷ []) ∷ [])
      no_slots
    ≡ none
unfolding table
claimed_twice = refl

-- A key between empty braces is hashed as a whole.
empty_braces : hashed_part (b'a' ∷ 123 ∷ 125 ∷ []) ≡ b'a' ∷ 123 ∷ 125 ∷ []
unfolding hashed_part behind before
empty_braces = refl

meta_data_load-get_node_example :
    get_node sum16 loaded (3 ∷ []) ≡ owner 0 nodes (key_hash_slot sum16 (3 ∷ []))
meta_data_load-get_node_example = meta_data_load-get_node sum16 opens nodes (3 ∷ []) loads

meta_data_load-meta_data_unload_example :
    (slots' : Slots) × (meta_data_unload 2 loaded ≡ some slots') × ((s : ℕ) → slots' s ≡ none)
meta_data_load-meta_data_unload_example = meta_data_load-meta_data_unload opens nodes loads

front-Without : Without 123 (b'a' ∷ [])
unfolding Without
front-Without = (λ e. absurd (omega (arith, e)), tt)

tag-Without : Without 125 (b't' ∷ [])
unfolding Without
tag-Without = (λ e. absurd (omega (arith, e)), tt)

key_hash_slot_lem_example :
    (key_hash_slot sum16 (b'a' ∷ 123 ∷ b't' ∷ 125 ∷ b'z' ∷ []) ≡ bit_and 116 4095)
    × (key_hash_slot sum16 (b'a' ∷ []) ≡ bit_and 97 4095)
    × ((key : List ℕ) → key_hash_slot sum16 key < cluster_slots)
key_hash_slot_lem_example =
    key_hash_slot_lem sum16 (b'a' ∷ []) [] (b'z' ∷ []) (b'a' ∷ []) b't' front-Without tag-Without
      front-Without
