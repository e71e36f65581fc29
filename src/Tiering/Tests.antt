-- ===== src/Tiering/Tests.antt =====
-- The theorems on DEL and SET with tiering devices at a small store and a chain in memory.
use pris_kv.Base.{ℕ, ◌≡◌, Option, none, some, true, false, List, [], ◌∷◌, refl, replicate}
use pris_kv.Base.Word.{is_power_of_2, clz, bit_length}
use pris_kv.Base.Time.{Timeval, elapsed_ms, add_ms}
use pris_kv.Kv.State.{
  Kv, KeyNode, zero_node, list_del, lru_del_key, lru_access, keynode_ref, keynode_deref, list_tail,
  lru_evict, value_to_pointer, pointer_to_value, release, update_valuelen,
}
use pris_kv.Kv.Find.{
  same_bytes, key_timeout, key_matches, find_in, unlink, touch, bucket_of, found_at, find_key,
  key_max_timeout,
}
use pris_kv.Kv.Ops.{no_key, get_key, get_key_end, delete_key, drop_node, get_found, set_key_end}
use pris_kv.Kv.Evict.{
  grab_node, grab_value, grab, fresh_node, give_up, insert_keynode, publish, pop_key, evict_round,
  evict_loop, fail_set, finish_set, set_key,
}
use pris_kv.Kv.Tests as Store
use pris_kv.Kv.Good.Tests.{s₂, s₂-Reachable}
use pris_kv.Buddy
use pris_kv.Buddy.{Buddy}
use pris_kv.Slab
use pris_kv.Slab.{Slab}
use pris_kv.Backend.{Device, leaf, tier, backend_del}
use pris_kv.Backend.Through.{last, Through}
use pris_kv.Backend.Sample.{Entries, memory}
use pris_kv.Tiering.{
  Outcome, found_status, is_status_ok, valuelen_of, node_of, tiering_del, tiering_get, get_stored,
}
use pris_kv.Tiering.Erase.{tiering_del-get_key}

abbrev clock : Timeval
clock = record { sec = 100; usec = 5 }

abbrev hash : List ℕ → ℕ
hash key = 0

abbrev key_a : List ℕ
key_a = b'a' ∷ []

program : Unit {0}
unfolding Slab.mark Slab.put_bit Slab.is_zero Slab.ffsl Slab.take_bit Slab.slab_alloc Slab.scan
    Slab.alloc_at Slab.alloc Slab.slab_index Slab.free_at Slab.free Buddy.align_up is_power_of_2
    Buddy.roundup_power_of_2 clz bit_length Buddy.blocks_for Buddy.descend Buddy.update_parents
    Buddy.take_node Buddy.alloc Buddy.climb Buddy.put_node Buddy.offset_of Buddy.free elapsed_ms
    add_ms list_del list_tail lru_access lru_evict lru_del_key value_to_pointer pointer_to_value
    keynode_ref release keynode_deref update_valuelen same_bytes key_timeout key_matches find_in
    unlink touch bucket_of found_at find_key drop_node get_key_end set_key_end get_found get_key
    delete_key grab_node grab_value grab fresh_node give_up insert_keynode publish pop_key
    evict_round evict_loop fail_set finish_set set_key
program = tt

-- A node that the store holds, and a reader.
abbrev node_a : KeyNode
node_a = record zero_node { expire_time = none; refcnt = 2; keylen = 1; key = key_a; valuelen = 3 }

abbrev kv : Kv
kv = record {
  buckets = λ i. 1000 ∷ [];
  lru = 1000 ∷ [];
  bucket_count = 3;
  max_keys = 3;
  max_key_length = 8;
  key_slab = record {
    name = [];
    size = 96;
    inuse = 1;
    objects = 3;
    base = 1000;
    lindex = 1;
    bitmap = (false ∷ true ∷ true ∷ replicate 61 false) ∷ [];
  };
  key_base = 1000;
  value_buddy = record { nmemb = 1; inuse = 0; size = 64; base = 4096; meta = λ i. 1 };
  value_base = 4096;
  expire_routine_interval = 600;
  statics = record { times = 0; count = 0; bytes = 0 };
  node = λ a. node_a;
}

abbrev chain : Device Entries
chain = tier ((key_a, 1 ∷ []) ∷ []) (leaf ((key_a, 1 ∷ []) ∷ []))

tiering_del-get_key_example :
    let r = backend_del memory chain key_a in
    (t : Outcome Entries) × (tiering_del memory Store.hash s₂.kv chain clock key_a ≡ some t)
    × (t.status ≡ found_status r.1.status)
    × Through memory key_a (memory.del (last chain) key_a) chain t.backend r.1
    × (get_key Store.hash t.kv clock key_a ≡ some (t.kv, no_key))
tiering_del-get_key_example =
    tiering_del-get_key memory Store.hash s₂ chain clock clock key_a s₂-Reachable
      (λ e. absurd (cc e))

-- A GET with less room than the value is long leaves one more reference on the node.
abbrev references : Option (Outcome Entries) → ℕ
references none = 0
references (some t) = (t.kv.node 1000).refcnt

get_leaves_reference :
    references (tiering_get memory hash kv chain clock key_a (0 ∷ []) key_max_timeout true) ≡ 3
unfolding tiering_get get_stored valuelen_of node_of is_status_ok get_key get_found program find_key
    found_at find_in key_matches key_timeout bucket_of same_bytes touch keynode_ref lru_access
get_leaves_reference = refl
