-- ===== src/Policy.antt =====
-- server/backend/policy_lru.c: which cached file or key a tiering backend gives up. The nodes are on
-- a list from the most recent, and in a hash table by key; both hold the same nodes, so the list is
-- the state and a search of the table is a search of the list. A C string is the list of its bytes
-- before the 0, and an `int` count a number.
pub mod Evict
pub mod Unique
mod Tests
use mathlib.Core.List.{reverse}
use pris_kv.Base.{
  ℕ, zero, suc, ◌+◌, ◌-◌, Option, none, some, Bool, true, false, List, [], ◌∷◌, ltb, ◌==◌,
  if◌then◌else◌,
}
use pris_kv.Kv.Find.{same_bytes}

-- `priskv_lru_node`
pub record LruNode : Type 0 where
  pub key : List ℕ
  pub ref_count : ℕ

-- `priskv_policy_lru`
abbrev pub Lru : Type 0
Lru = List LruNode

-- `HASH_FIND_STR`
unfoldable pub hash_find : Lru → List ℕ → Option LruNode
hash_find [] key = none
hash_find (n ∷ lru) key = if same_bytes n.key key then some n else hash_find lru key

-- `list_del` and `HASH_DEL` of the node that was found
unfoldable pub remove : Lru → List ℕ → Lru
remove [] key = []
remove (n ∷ lru) key = if same_bytes n.key key then lru else n ∷ remove lru key

-- `lru_policy_create`
abbrev pub lru_policy_create : Lru
lru_policy_create = []

-- `lru_policy_access`
unfoldable pub lru_policy_access : Lru → List ℕ → Lru
lru_policy_access lru key = elim (hash_find lru key) [
  | none ↦ record { key = key; ref_count = 0 } ∷ lru
  | some n ↦ n ∷ remove lru key
]

abbrev pub max_attempts : ℕ
max_attempts = 128

-- The loop of `lru_policy_evict` over the nodes from the tail: the key of the first without
-- references, and the nodes without it.
unfoldable pub evict_from : ℕ → Lru → Option (List ℕ × Lru)
evict_from zero nodes = none
evict_from (suc attempts) [] = none
evict_from (suc attempts) (n ∷ nodes) = elim (n.ref_count == 0) [
  | true ↦ some (n.key, nodes)
  | false ↦ elim (evict_from attempts nodes) [
    | none ↦ none
    | some (key, rest) ↦ some (key, n ∷ rest)
  ]
]

-- `lru_policy_evict`
unfoldable pub lru_policy_evict : Lru → Lru × Option (List ℕ)
lru_policy_evict lru = elim (evict_from max_attempts (reverse lru)) [
  | none ↦ (lru, none)
  | some (key, rest) ↦ (reverse rest, some key)
]

-- `lru_policy_del_key`
unfoldable pub lru_policy_del_key : Lru → List ℕ → Lru
lru_policy_del_key lru key = elim (hash_find lru key) [ none ↦ lru | some n ↦ remove lru key ]

-- `lru_policy_try_ref_key`
unfoldable pub lru_policy_try_ref_key : Lru → List ℕ → Lru × Bool
lru_policy_try_ref_key lru key = elim (hash_find lru key) [
  | none ↦ (lru, false)
  | some n ↦ (record n { ref_count = n.ref_count + 1 } ∷ remove lru key, true)
]

-- `node->ref_count--` at the node with the key
unfoldable pub unref_in : Lru → List ℕ → Lru
unref_in [] key = []
unref_in (n ∷ lru) key =
    if same_bytes n.key key
    then record n { ref_count = n.ref_count - 1 } ∷ lru
    else n ∷ unref_in lru key

-- `lru_policy_unref_key`
unfoldable pub lru_policy_unref_key : Lru → List ℕ → Lru
lru_policy_unref_key lru key = elim (hash_find lru key) [
  | none ↦ lru
  | some n ↦ if ltb 0 n.ref_count then unref_in lru key else lru
]
