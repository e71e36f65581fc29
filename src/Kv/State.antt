-- ===== src/Kv/State.antt =====
-- The state of `priskv_kv` (server/kv.c) and of its key nodes (`priskv_key`, server/memory.h), the
-- list of recent use, and the reference counts. A pointer to a key node is its address. A list of
-- server/list.h is the list of the addresses on it, from its head; a step that the source makes
-- under a lock is a step here, and other threads make none in between.
use pris_kv.Base.{ℕ, ◌+◌, ◌-◌, Option, none, some, Bool, false, List, [], ◌∷◌, ◌==◌, if◌then◌else◌}
use pris_kv.Base.Word.{u32, sub_u32}
use pris_kv.Base.Time.{Timeval}
use pris_kv.Buddy
use pris_kv.Buddy.{Buddy}
use pris_kv.Slab
use pris_kv.Slab.{Slab}

-- `priskv_key`. `expire_time` is `none` for the pair (-1, -1); `key` holds the `keylen` bytes.
pub record KeyNode : Type 0 where
  pub expire_time : Option Timeval
  pub refcnt : ℕ
  pub inprocess : Bool
  pub keylen : ℕ
  pub valuelen : ℕ
  pub value_off : ℕ
  pub key : List ℕ

-- What `memset(keynode, 0x00, ...)` leaves.
abbrev pub zero_node : KeyNode
zero_node = record {
  expire_time = some (record { sec = 0; usec = 0 });
  refcnt = 0;
  inprocess = false;
  keylen = 0;
  valuelen = 0;
  value_off = 0;
  key = [];
}

-- `priskv_expire_routine_statics`
pub record ExpireStatics : Type 0 where
  pub times : ℕ
  pub count : ℕ
  pub bytes : ℕ

-- `hash_heads[i]` is `buckets i`; `node` is the memory of the key nodes.
pub record Kv : Type 0 where
  pub buckets : ℕ → List ℕ
  pub lru : List ℕ
  pub bucket_count : ℕ
  pub max_keys : ℕ
  pub max_key_length : ℕ
  pub key_slab : Slab
  pub key_base : ℕ
  pub value_buddy : Buddy
  pub value_base : ℕ
  pub expire_routine_interval : ℕ
  pub statics : ExpireStatics
  pub node : ℕ → KeyNode

abbrev pub store {ℓ} : {A : Type ℓ} → (ℕ → A) → ℕ → A → ℕ → A
store f i v j = if i == j then v else f j

abbrev pub set_node : Kv → ℕ → KeyNode → Kv
set_node kv a n = record kv { node = store kv.node a n }

-- `list_del`, of a node that is on the list
unfoldable pub list_del : ℕ → List ℕ → List ℕ
list_del a [] = []
list_del a (b ∷ l) = if a == b then l else b ∷ list_del a l

-- `list_tail`
unfoldable pub list_tail : List ℕ → Option ℕ
list_tail [] = none
list_tail (a ∷ []) = some a
list_tail (a ∷ b ∷ l) = list_tail (b ∷ l)

-- `priskv_lru_access`
unfoldable pub lru_access : Kv → ℕ → Bool → Kv
lru_access kv keynode is_in_list = record kv {
  lru = keynode ∷ (if is_in_list then list_del keynode kv.lru else kv.lru);
}

-- `priskv_lru_evict`
unfoldable pub lru_evict : Kv → Option ℕ
lru_evict kv = list_tail kv.lru

-- `priskv_lru_del_key`
unfoldable pub lru_del_key : Kv → ℕ → Kv
lru_del_key kv keynode = record kv { lru = list_del keynode kv.lru }

-- `priskv_value_to_pointer` and `priskv_pointer_to_value`
unfoldable pub value_to_pointer : Kv → ℕ → ℕ
value_to_pointer kv keynode = kv.value_base + (kv.node keynode).value_off

unfoldable pub pointer_to_value : Kv → ℕ → ℕ
pointer_to_value kv val = val - kv.value_base

-- `priskv_keynode_ref`
unfoldable pub keynode_ref : Kv → ℕ → Kv
keynode_ref kv keynode =
    let n = kv.node keynode in set_node kv keynode (record n { refcnt = u32 (n.refcnt + 1) })

-- The block and the slot of a node that nothing refers to any more; `none` is a failed assertion.
unfoldable pub release : Kv → ℕ → Option Kv
release kv keynode = elim (Buddy.free kv.value_buddy (value_to_pointer kv keynode)) [
  | none ↦ none
  | some buddy ↦ elim (Slab.free kv.key_slab keynode) [
    | none ↦ none
    | some slab ↦
        some (record kv {
          value_buddy = buddy;
          key_slab = slab;
          node = store kv.node keynode zero_node;
        })
  ]
]

-- `priskv_keynode_deref`; `none` is a failed assertion.
unfoldable pub keynode_deref : Kv → ℕ → Option Kv
keynode_deref kv keynode =
    let n = kv.node keynode in
    let kv' = set_node kv keynode (record n { refcnt = sub_u32 n.refcnt 1 }) in
    if sub_u32 n.refcnt 1 == 0 then release kv' keynode else some kv'

-- `priskv_update_valuelen`
unfoldable pub update_valuelen : Kv → ℕ → ℕ → Kv
update_valuelen kv keynode valuelen =
    let n = kv.node keynode in set_node kv keynode (record n { valuelen = valuelen })
