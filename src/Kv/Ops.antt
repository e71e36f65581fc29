-- ===== src/Kv/Ops.antt =====
-- `priskv_new_kv` and the operations of server/kv.c on one key that take no memory. A failed
-- assertion is `none`.
use pris_kv.Base.{
  ◌||◌, ◌==◌, ℕ, zero, suc, ◌+◌, ◌-◌, ◌/◌, ◌%◌, Option, none, some, true, false, List, [], ◌∷◌, ltb,
  leb, if◌then◌else◌, get_elem?,
}
use pris_kv.Base.Word.{u32}
use pris_kv.Base.Time.{Timeval}
use pris_kv.Buddy
use pris_kv.Buddy.{Buddy, Meta}
use pris_kv.Slab
use pris_kv.Slab.{Slab}
use pris_kv.Kv.State.{
  KeyNode, Kv, set_node, lru_access, lru_del_key, value_to_pointer, keynode_deref,
}
use pris_kv.Kv.Find.{key_max_timeout, find_key}

-- Those of `priskv_resp_status` (include/priskv-protocol.h) that server/kv.c returns.
pub data Status : Type 0 where
  ok value_too_big no_such_key invalid_regex key_updating no_mem : Status

abbrev pub primes : List ℕ
primes = 32749 ∷ 65521 ∷ 131071 ∷ 262139 ∷ 524287 ∷ 1048573 ∷ 4194301 ∷ 16777213 ∷ 134217689 ∷ []

abbrev pub prime_at : ℕ → ℕ
prime_at i = elim (get_elem? primes i) [ none ↦ 0 | some p ↦ p ]

-- The loop of `calculate_hash_bucket_count` over `[left, right)`, where `right` is one more than
-- that of the source. `none` means that the fuel ran out.
unfoldable pub prime_search : ℕ → ℕ → ℕ → ℕ → ℕ → Option ℕ
prime_search zero max_keys left right result = none
prime_search (suc fuel) max_keys left right result = elim (ltb left right) [
  | false ↦ some result
  | true ↦
      let mid = left + (right - 1 - left) / 2 in
      elim (leb (prime_at mid) max_keys) [
        | true ↦ prime_search fuel max_keys (mid + 1) right (prime_at mid)
        | false ↦ prime_search fuel max_keys left mid result
      ]
]

-- `calculate_hash_bucket_count`: nine primes take at most four halvings.
unfoldable pub hash_bucket_count : ℕ → Option ℕ
hash_bucket_count max_keys =
    if ltb max_keys (prime_at 0) then some max_keys else prime_search 5 max_keys 0 9 (prime_at 0)

-- `sizeof(priskv_key)`, with which `priskv_mem_key_size` sizes a slot.
abbrev pub key_header : ℕ
key_header = 88

abbrev pub mem_key_size : ℕ → ℕ
mem_key_size max_key_length = (key_header + max_key_length) % 65536

-- "Keys", the name of the slab
abbrev pub keys_name : List ℕ
keys_name = b'K' ∷ b'e' ∷ b'y' ∷ b's' ∷ []

-- `priskv_new_kv`, over memory whose key nodes are `node` and whose words behind the value blocks
-- are `meta`, and where every allocation succeeds. `none` is a failed assertion.
unfoldable pub new_kv : (ℕ → KeyNode) → Meta → ℕ → ℕ → ℕ → ℕ → ℕ → ℕ → Option Kv
new_kv node meta key_base value_base max_keys max_key_length value_block_size value_blocks =
    elim ((key_base == 0) || (value_base == 0)) [
      | true ↦ none
      | false ↦ elim (hash_bucket_count max_keys) [
        | none ↦ none
        | some bucket_count ↦
            elim (Slab.create true keys_name key_base (mem_key_size max_key_length) max_keys) [
              | none ↦ none
              | some slab ↦
                  elim (Buddy.create true meta value_base (u32 value_blocks) value_block_size) [
                    | none ↦ none
                    | some buddy ↦ some (record {
                      buckets = λ i. [];
                      lru = [];
                      bucket_count = bucket_count;
                      max_keys = max_keys;
                      max_key_length = max_key_length;
                      key_slab = slab;
                      key_base = key_base;
                      value_buddy = buddy;
                      value_base = value_base;
                      expire_routine_interval = 600;
                      statics = record { times = 0; count = 0; bytes = 0 };
                      node = node;
                    })
                  ]
            ]
      ]
    ]

-- What `priskv_get_key` returns and writes through `_keynode`, `val` and `valuelen`.
pub record GetReply : Type 0 where
  pub status : Status
  pub keynode : Option ℕ
  pub value : Option (ℕ × ℕ)

abbrev pub no_key : GetReply
no_key = record { status = no_such_key; keynode = none; value = none }

-- A node that has left its bucket leaves the list of recent use, and loses the store's reference.
unfoldable pub drop_node : Kv → ℕ → Option Kv
drop_node kv keynode = keynode_deref (lru_del_key kv keynode) keynode

-- `priskv_get_key_end`
unfoldable pub get_key_end : Kv → Option ℕ → Option Kv
get_key_end kv none = some kv
get_key_end kv (some keynode) = keynode_deref kv keynode

-- `priskv_set_key_end`
unfoldable pub set_key_end : Kv → Option ℕ → Kv
set_key_end kv none = kv
set_key_end kv (some keynode) =
    let n = kv.node keynode in set_node kv keynode (record n { inprocess = false })

-- The end of `priskv_get_key`, at the node that was found.
unfoldable pub get_found : Kv → ℕ → Kv × GetReply
get_found kv a =
    if (kv.node a).inprocess
    then (kv, record { status = key_updating; keynode = some a; value = none })
    else (
      lru_access kv a true,
      record {
        status = ok;
        keynode = some a;
        value = some (value_to_pointer kv a, (kv.node a).valuelen);
      },
    )

module _ (crc32 : List ℕ → ℕ) where
  -- `priskv_get_key`
  unfoldable pub get_key : Kv → Timeval → List ℕ → Option (Kv × GetReply)
  get_key kv now key =
      let f = find_key crc32 kv now key key_max_timeout false in
      elim f.keynode [
        | none ↦ some (f.kv, no_key)
        | some a ↦
            if f.expired
            then elim (drop_node f.kv a) [ none ↦ none | some kv' ↦ some (kv', no_key) ]
            else some (get_found f.kv a)
      ]

  -- `priskv_delete_key`
  unfoldable pub delete_key : Kv → Timeval → List ℕ → Option (Kv × Status)
  delete_key kv now key =
      let f = find_key crc32 kv now key key_max_timeout true in
      elim f.keynode [
        | none ↦ some (f.kv, no_such_key)
        | some a ↦ elim (drop_node f.kv a) [ none ↦ none | some kv' ↦ some (kv', ok) ]
      ]

  -- `priskv_expire_key`
  unfoldable pub expire_key : Kv → Timeval → List ℕ → ℕ → Option (Kv × Status)
  expire_key kv now key timeout =
      let f = find_key crc32 kv now key timeout false in
      elim f.keynode [
        | none ↦ some (f.kv, no_such_key)
        | some a ↦
            if f.expired
            then elim (drop_node f.kv a) [ none ↦ none | some kv' ↦ some (kv', no_such_key) ]
            else elim (keynode_deref f.kv a) [ none ↦ none | some kv' ↦ some (kv', ok) ]
      ]
