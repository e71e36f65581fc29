-- ===== src/Kv/Tests.antt =====
-- The operations of server/kv.c run on a small store, and its theorems at such runs.
use pris_kv.Base.{
  ℕ, ◌≡◌, ◌≤◌, ◌<◌, ◌⊎◌, arith, refl, subst, Option, none, some, Bool, true, false, List, [], ◌∷◌,
  ◌==◌, leb, if◌then◌else◌, replicate,
}
use mathlib.Core.Option
use pris_kv.Base.Word.{is_power_of_2, clz, bit_length}
use pris_kv.Base.Time.{Timeval, elapsed_ms, add_ms}
use pris_kv.Buddy
use pris_kv.Buddy.{Buddy}
use pris_kv.Slab
use pris_kv.Slab.{Slab}
use pris_kv.Kv.State.{
  Kv, zero_node, list_del, list_tail, lru_access, lru_evict, lru_del_key, value_to_pointer,
  pointer_to_value, keynode_ref, release, keynode_deref, update_valuelen,
}
use pris_kv.Kv.Find.{
  key_max_timeout, same_bytes, key_timeout, key_matches, find_in, unlink, touch, bucket_of,
  found_at, find_key,
}
use pris_kv.Kv.Ops.{
  ok, no_such_key, no_mem, no_key, get_key, set_key_end, delete_key, expire_key, hash_bucket_count,
  prime_search, new_kv, drop_node, get_key_end, get_found, prime_at,
}
use pris_kv.Kv.Evict.{
  SetReply, set_key, grab_node, grab_value, grab, fresh_node, give_up, insert_keynode, publish,
  pop_key, evict_round, evict_loop, fail_set, finish_set,
}
use pris_kv.Kv.Sweep.{keys_entry, Keys, add_key, keys_bucket, keys_buckets, get_keys}
use pris_kv.Kv.Rounds.{Once}
use pris_kv.Kv.Delete.{delete_key-get_key}
use pris_kv.Kv.Pin.{get_key-delete_key}
use pris_kv.Kv.Keys.{matching, all_matching, reply_bytes, reply_size, listed, get_keys_lem}
use pris_kv.Kv.Serialize.{
  Bucket, entered, exited, idle, Reachable, initial, next, enter, exit, Serial, Reachable-Serial,
  key_serialize_enter, key_serialize_exit,
}
use pris_kv.Kv.Expire.{expire_key-get_key}
use pris_kv.Kv.Count.{Best, hash_bucket_count_lem}

abbrev pub clock : Timeval
clock = record { sec = 100; usec = 5 }

-- Any hash will do.
abbrev pub hash : List ℕ → ℕ
hash [] = 7
hash (b ∷ bs) = b

abbrev pub key_a : List ℕ
key_a = 97 ∷ 98 ∷ []

unfoldable pub program : Unit {0}
unfolding hash_bucket_count new_kv Slab.create Slab.mark Slab.put_bit Slab.is_zero Slab.ffsl
    Slab.take_bit Slab.slab_alloc Slab.scan Slab.alloc_at Slab.alloc Slab.reserve Slab.slab_index
    Slab.free_at Slab.free Buddy.create Buddy.fill Buddy.align_up is_power_of_2
    Buddy.roundup_power_of_2 clz bit_length Buddy.blocks_for Buddy.descend Buddy.update_parents
    Buddy.take_node Buddy.alloc Buddy.climb Buddy.put_node Buddy.offset_of Buddy.free elapsed_ms
    add_ms list_del list_tail lru_access lru_evict lru_del_key value_to_pointer pointer_to_value
    keynode_ref release keynode_deref update_valuelen same_bytes key_timeout key_matches find_in
    unlink touch bucket_of found_at find_key drop_node get_key_end set_key_end get_found get_key
    delete_key expire_key grab_node grab_value grab fresh_node give_up insert_keynode publish
    pop_key evict_round evict_loop fail_set finish_set set_key keys_entry add_key keys_bucket
    keys_buckets get_keys prime_search key_serialize_enter key_serialize_exit
program = tt

-- A store of three keys of up to 8 bytes and four blocks of 64 bytes.
abbrev pub small : Kv
small = record {
  buckets = λ i. [];
  lru = [];
  bucket_count = 3;
  max_keys = 3;
  max_key_length = 8;
  key_slab = record {
    name = [];
    size = 96;
    inuse = 0;
    objects = 3;
    base = 1000;
    lindex = 0;
    bitmap = (true ∷ true ∷ true ∷ replicate 61 false) ∷ [];
  };
  key_base = 1000;
  value_buddy = record {
    nmemb = 4;
    inuse = 0;
    size = 64;
    base = 4096;
    meta = λ i. if i == 0 then 4 else if leb i 2 then 2 else 1;
  };
  value_base = 4096;
  expire_routine_interval = 600;
  statics = record { times = 0; count = 0; bytes = 0 };
  node = λ a. zero_node;
}

-- The store after a SET of 100 bytes, and after the end of the SET.
abbrev after_set : Kv
after_set = elim (set_key hash small clock key_a 100 key_max_timeout) [
  | none ↦ small
  | some r ↦ r.0
]

abbrev stored : Kv
stored = set_key_end after_set (some 1000)

abbrev status_of : Option (Kv × SetReply) → Option SetReply
status_of o = Option.map (λ r. r.1) o

set_key-small :
    status_of (set_key hash small clock key_a 100 key_max_timeout)
    ≡ some (record { status = ok; keynode = some 1000; val = some 4096 })
unfolding program
set_key-small = refl

-- The key that takes all four blocks needs the room of the one that is there.
set_key-evicts :
    status_of (set_key hash stored clock (99 ∷ []) 200 key_max_timeout)
    ≡ some (record { status = ok; keynode = some 1096; val = some 4096 })
unfolding program
set_key-evicts = refl

-- There is no room for more than all blocks.
set_key-no_mem :
    status_of (set_key hash stored clock (99 ∷ []) 257 key_max_timeout)
    ≡ some (record { status = no_mem; keynode = none; val = none })
unfolding program
set_key-no_mem = refl

stored-Once : Once hash stored key_a
unfolding program
stored-Once = λ a h.
    let e : 1000 ≡ a = ground (arith, h) in
    subst
      (λ x.
        find_in stored.node key_a (list_del x (stored.buckets (bucket_of hash stored key_a)))
        ≡ none)
      e refl

-- The SET of the witness replaces a value, and its key expires after two seconds.
abbrev replaced : Kv
replaced = elim (set_key hash stored clock key_a 70 2000) [ none ↦ small | some r ↦ r.0 ]

abbrev deleted : Kv
deleted = elim (delete_key hash stored clock key_a) [ none ↦ small | some r ↦ r.0 ]

delete_key-get_key_example :
    ((ok ≡ ok) × (get_key hash deleted clock key_a ≡ some (deleted, no_key)))
    ⊎ ((ok ≡ no_such_key)
        × (deleted ≡ stored)
        × (find_in stored.node key_a (stored.buckets (bucket_of hash stored key_a)) ≡ none))
unfolding program
delete_key-get_key_example =
    delete_key-get_key hash stored clock clock key_a (λ e. absurd (ground (arith, e))) stored-Once
      refl

abbrev read : Kv
read = elim (get_key hash stored clock key_a) [ none ↦ small | some r ↦ r.0 ]

get_key-delete_key_example :
    (k : Kv) × (delete_key hash read clock key_a ≡ some (k, ok))
    × (k.value_buddy ≡ stored.value_buddy)
    × (k.key_slab ≡ stored.key_slab)
    × (k.node 1000 ≡ stored.node 1000)
    × ((buddy : Buddy) (slab : Slab)
        → (stored.node 1000).refcnt ≡ 1
        → Buddy.free stored.value_buddy 4096 ≡ some buddy
        → Slab.free stored.key_slab 1000 ≡ some slab
        → (k' : Kv) × (get_key_end k (some 1000) ≡ some k')
          × (k'.value_buddy ≡ buddy)
          × (k'.key_slab ≡ slab)
          × (k'.node 1000 ≡ zero_node))
unfolding program
get_key-delete_key_example =
    get_key-delete_key hash stored clock clock key_a {len = 100} (omega arith) (omega arith) refl

-- An expression that all keys match.
abbrev any : List ℕ → Option (List ℕ → Bool)
any regex = some (λ key. true)

get_keys_lem_example :
    (k : Keys) × (get_keys any stored [] 100 ≡ (ok, some k))
    × (k.reallen ≡ 10)
    × (k.nkey ≡ 1)
    × (10 ≤ 100 → k.keysbuf ≡ reply_bytes (listed (λ key. true) stored))
unfolding program matching all_matching reply_size
get_keys_lem_example = get_keys_lem any (λ key. true) stored [] 100 refl (omega arith)

hash_bucket_count_lem_example :
    ((70000 < 32749) × (hash_bucket_count 70000 ≡ some 70000))
    ⊎ ((k : ℕ) × (hash_bucket_count 70000 ≡ some (prime_at k)) × Best 70000 k)
hash_bucket_count_lem_example = hash_bucket_count_lem 70000

-- Two requests come; the second waits for the first.
abbrev two_requests : Bucket
two_requests = entered (entered idle 5) 6

two_requests-Reachable : Reachable (exited two_requests [])
unfolding program
two_requests-Reachable =
    next two_requests (exited two_requests [])
      (next (entered idle 5) two_requests (next idle (entered idle 5) initial (enter idle 5))
        (enter (entered idle 5) 6))
      (exit two_requests [] 5 [] refl)

Reachable-Serial_example : Serial (exited two_requests [])
Reachable-Serial_example = Reachable-Serial (exited two_requests []) two_requests-Reachable

abbrev buddy_of : Option Buddy → Buddy
buddy_of o = elim o [ none ↦ stored.value_buddy | some b ↦ b ]

abbrev slab_of : Option Slab → Slab
slab_of o = elim o [ none ↦ stored.key_slab | some s ↦ s ]

expire_key-get_key_example :
    (kv' : Kv) × (expire_key hash stored clock key_a 1500 ≡ some (kv', ok))
    × ((k : Kv) × (get_key hash kv' (record { sec = 101; usec = 501005 }) key_a ≡ some (k, no_key))
        × (k.value_buddy ≡ buddy_of (Buddy.free stored.value_buddy 4096))
        × (k.key_slab ≡ slab_of (Slab.free stored.key_slab 1000)))
unfolding program
expire_key-get_key_example =
    expire_key-get_key hash stored clock (record { sec = 101; usec = 501005 }) key_a 1500 1000
      (buddy_of (Buddy.free stored.value_buddy 4096)) (slab_of (Slab.free stored.key_slab 1000))
      refl refl refl (omega arith) (omega arith) (omega arith) (omega arith) refl refl
