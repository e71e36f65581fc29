-- ===== src/Kv/Evict.antt =====
-- `priskv_set_key` of server/kv.c, with the eviction that makes room for it.
use pris_kv.Base.{
  ℕ, zero, suc, ◌+◌, Option, none, some, Bool, true, false, List, [], ◌∷◌, ◌++◌, ltb, leb,
  if◌then◌else◌, length,
}
use pris_kv.Base.Time.{Timeval, add_ms}
use pris_kv.Buddy
use pris_kv.Slab
use pris_kv.Kv.State.{
  KeyNode, Kv, store, set_node, lru_access, lru_evict, pointer_to_value, keynode_ref,
}
use pris_kv.Kv.Find.{key_max_timeout, find_key, bucket_of}
use pris_kv.Kv.Ops.{Status, ok, no_mem, key_header, drop_node}

-- The store, and the node and the value memory that the operation has so far.
pub record Grab : Type 0 where
  pub kv : Kv
  pub keynode : Option ℕ
  pub vaddr : Option ℕ

-- `priskv_slab_alloc`, if there is no node yet.
unfoldable pub grab_node : Grab → Option Grab
grab_node g = elim g.keynode [
  | some a ↦ some g
  | none ↦ elim (Slab.alloc g.kv.key_slab) [
    | none ↦ none
    | some (slab, a) ↦
        let kv = g.kv in
        some (record { kv = record kv { key_slab = slab }; keynode = a; vaddr = g.vaddr })
  ]
]

-- `priskv_buddy_alloc`, if there is no memory for the value yet.
unfoldable pub grab_value : Grab → ℕ → Option Grab
grab_value g valuelen = elim g.vaddr [
  | some v ↦ some g
  | none ↦ elim (Buddy.alloc g.kv.value_buddy valuelen) [
    | none ↦ none
    | some (buddy, v) ↦
        let kv = g.kv in
        some (record { kv = record kv { value_buddy = buddy }; keynode = g.keynode; vaddr = v })
  ]
]

unfoldable pub grab : Grab → ℕ → Option Grab
grab g valuelen = elim (grab_node g) [ none ↦ none | some g' ↦ grab_value g' valuelen ]

-- What `set_key` fills the fresh node with, before the store takes its reference.
unfoldable pub fresh_node : Kv → Timeval → List ℕ → ℕ → ℕ → ℕ → KeyNode
fresh_node kv now key vaddr valuelen timeout = record {
  expire_time = if ltb timeout key_max_timeout then some (add_ms now timeout) else none;
  refcnt = 0;
  inprocess = true;
  keylen = length key;
  valuelen = valuelen;
  value_off = pointer_to_value kv vaddr;
  key = key;
}

-- The label `out` of `priskv_set_key`: what has been taken is given back.
unfoldable pub give_up : Grab → Option Kv
give_up g =
    let kv = g.kv in
    let kept : Option Kv = elim g.vaddr [
      | none ↦ some kv
      | some v ↦ elim (Buddy.free kv.value_buddy v) [
        | none ↦ none
        | some buddy ↦ some (record kv { value_buddy = buddy })
      ]
    ] in
    elim kept [
      | none ↦ none
      | some kv₁ ↦ elim g.keynode [
        | none ↦ some kv₁
        | some a ↦ elim (Slab.free kv₁.key_slab a) [
          | none ↦ none
          | some slab ↦ some (record kv₁ { key_slab = slab })
        ]
      ]
    ]

-- What `priskv_set_key` returns and writes through `_keynode` and `val`.
pub record SetReply : Type 0 where
  pub status : Status
  pub keynode : Option ℕ
  pub val : Option ℕ

-- `retries++ > MAX_EVICT_RETRIES` lets 129 rounds pass.
abbrev pub max_evict_rounds : ℕ
max_evict_rounds = 129

abbrev pub complete : Grab → Bool
complete g = elim g.keynode [
  | none ↦ false
  | some a ↦ elim g.vaddr [ none ↦ false | some v ↦ true ]
]

module _ (crc32 : List ℕ → ℕ) where
  -- `priskv_insert_keynode`
  unfoldable pub insert_keynode : Kv → ℕ → Kv
  insert_keynode kv a =
      let b = bucket_of crc32 kv (kv.node a).key in
      record kv { buckets = store kv.buckets b (kv.buckets b ++ (a ∷ [])) }

  -- The end of `priskv_set_key` with a node and value memory at hand.
  unfoldable pub publish : Kv → Timeval → List ℕ → ℕ → ℕ → ℕ → ℕ → Kv
  publish kv now key a vaddr valuelen timeout =
      let kv₁ = keynode_ref (set_node kv a (fresh_node kv now key vaddr valuelen timeout)) a in
      insert_keynode (lru_access kv₁ a false) a

  -- The node of a key leaves its bucket and is dropped. The number is none where there is no node.
  unfoldable pub pop_key : Kv → Timeval → List ℕ → Option (Kv × Option ℕ)
  pop_key kv now key =
      let f = find_key crc32 kv now key key_max_timeout true in
      elim f.keynode [
        | none ↦ some (f.kv, none)
        | some a ↦ elim (drop_node f.kv a) [ none ↦ none | some kv' ↦ some (kv', some a) ]
      ]

  -- One round of the eviction loop, at the last node of the list of recent use.
  unfoldable pub evict_round : Grab → Timeval → ℕ → ℕ → Option Grab
  evict_round g now valuelen victim = elim (pop_key g.kv now (g.kv.node victim).key) [
    | none ↦ none
    | some (kv, popped) ↦
        let g' : Grab = record { kv = kv; keynode = g.keynode; vaddr = g.vaddr } in
        elim popped [ none ↦ some g' | some a ↦ grab g' valuelen ]
  ]

  -- `while (!vaddr || !keynode)`, with the rounds that `MAX_EVICT_RETRIES` leaves.
  unfoldable pub evict_loop : ℕ → Grab → Timeval → ℕ → Option Grab
  evict_loop zero g now valuelen = some g
  evict_loop (suc rounds) g now valuelen = elim (complete g) [
    | true ↦ some g
    | false ↦ elim (lru_evict g.kv) [
      | none ↦ some g
      | some victim ↦ elim (evict_round g now valuelen victim) [
        | none ↦ none
        | some g' ↦ evict_loop rounds g' now valuelen
      ]
    ]
  ]

  unfoldable pub fail_set : Grab → Option (Kv × SetReply)
  fail_set g = elim (give_up g) [
    | none ↦ none
    | some kv ↦ some (kv, record { status = no_mem; keynode = none; val = none })
  ]

  -- The rest of `priskv_set_key` behind the loop. A key for which the slot has no room, where the
  -- `memcpy` of the source writes into the next slot, is `none`.
  unfoldable pub finish_set : Grab → Timeval → List ℕ → ℕ → ℕ → Option (Kv × SetReply)
  finish_set g now key valuelen timeout = elim g.keynode [
    | none ↦ fail_set g
    | some a ↦ elim g.vaddr [
      | none ↦ fail_set g
      | some v ↦ elim (leb (key_header + length key) g.kv.key_slab.size) [
        | false ↦ none
        | true ↦ some (
          publish g.kv now key a v valuelen timeout,
          record { status = ok; keynode = some a; val = some v },
        )
      ]
    ]
  ]

  -- `priskv_set_key`; `none` is a failed assertion or a write behind the slot of the node.
  unfoldable pub set_key : Kv → Timeval → List ℕ → ℕ → ℕ → Option (Kv × SetReply)
  set_key kv now key valuelen timeout = elim (pop_key kv now key) [
    | none ↦ none
    | some (kv₁, old) ↦ elim (grab (record { kv = kv₁; keynode = none; vaddr = none }) valuelen) [
      | none ↦ none
      | some g ↦ elim (evict_loop max_evict_rounds g now valuelen) [
        | none ↦ none
        | some g' ↦ finish_set g' now key valuelen timeout
      ]
    ]
  ]
