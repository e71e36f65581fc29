-- ===== src/Kv/Good/Start.antt =====
-- `priskv_new_kv` (server/kv.c) over fresh memory gives a store that the invariant holds of.
use pris_kv.Base.{
  ℕ, ◌+◌, ◌*◌, ◌≤◌, ◌<◌, ◌≡◌, ◌∙◌, [], none, some, List, arith, ap, true, false, ◌||◌, ◌==◌, inl,
  inr,
}
use pris_kv.Base.Pow.{pow2}
use pris_kv.Base.Word.{u32}
use pris_kv.Buddy
use pris_kv.Buddy.{Buddy, Meta}
use pris_kv.Buddy.Create.{create_lem}
use pris_kv.Slab
use pris_kv.Slab.{Slab}
use pris_kv.Slab.Create.{create-IsValid}
use pris_kv.Kv.State.{Kv, KeyNode}
use pris_kv.Kv.Ops.{new_kv, key_header, mem_key_size, hash_bucket_count, keys_name}
use pris_kv.Kv.Count.{hash_bucket_count_lem}
use pris_kv.Kv.Owned.{HasSlot, HasBlock}
use pris_kv.Kv.Good.{times, Good}

-- The memory of a store: the slots of the keys and the 2^n blocks of the values lie inside the
-- address space, and no node of it is in use.
pub record Fresh (node : ℕ → KeyNode)
    (key_base value_base max_keys max_key_length value_block_size n : ℕ) : Type 0 where
  pub unused : (a : ℕ) → (node a).refcnt ≡ 0
  pub keys : 0 < key_base
  pub count : 0 < max_keys
  pub few : max_keys ≤ 2147483648
  pub slot : key_header + max_key_length < 65536
  pub key_room : key_base + max_keys * mem_key_size max_key_length < 18446744073709551616
  pub blocks : pow2 n ≤ 1073741824
  pub values : 0 < value_base
  pub block : 0 < value_block_size
  pub value_room : value_base + pow2 n * value_block_size < 18446744073709551616

create-base :
    (memory : Meta) (base nmemb size : ℕ) {b : Buddy}
    → Buddy.create true memory base nmemb size ≡ some b
    → b.base ≡ base
unfolding Buddy.create
create-base memory base nmemb size h = ground (arith, h)

slab_create-size :
    (name : List ℕ) (base size objects : ℕ) {s : Slab}
    → Slab.create true name base size objects ≡ some s
    → s.size ≡ size
unfolding Slab.create
slab_create-size name base size objects h = ground (arith, h)

bucket_count_total : (max_keys : ℕ) → (c : ℕ) × (hash_bucket_count max_keys ≡ some c)
bucket_count_total max_keys = elim (hash_bucket_count_lem max_keys) [
  | inl (_, e) ↦ (max_keys, e)
  | inr (k, e, _) ↦ (_, e)
]

pub new_kv-Good :
    (hash : List ℕ → ℕ) {node : ℕ → KeyNode} (meta : Meta)
    {key_base value_base max_keys max_key_length value_block_size n : ℕ}
    → Fresh node key_base value_base max_keys max_key_length value_block_size n
    → (kv : Kv) × (new_kv node meta key_base value_base max_keys max_key_length value_block_size
          (pow2 n)
        ≡ some kv)
      × Good hash max_key_length n (λ a. 0) none none kv
unfolding new_kv times
new_kv-Good hash {node} meta {key_base} {value_base} {max_keys} {max_key_length} {value_block_size}
      {n} f =
    let given : ((key_base == 0) || (value_base == 0)) ≡ false = ground (arith, f.keys, f.values) in
    let (c, ec) = bucket_count_total max_keys in
    let (slab, es, sv, _, slots, free) =
      create-IsValid keys_name key_base (mem_key_size max_key_length) max_keys f.keys
        (omega (arith, f.slot)) f.count f.few f.key_room in
    let (buddy, eb, bv, _, _, handed) =
      create_lem n value_base value_block_size meta f.blocks f.values f.block f.value_room in
    let whole : u32 (pow2 n) ≡ pow2 n = omega (arith, f.blocks) in
    let eb' : Buddy.create true meta value_base (u32 (pow2 n)) value_block_size ≡ some buddy =
      ap (λ x. Buddy.create true meta value_base x value_block_size) whole ∙ eb in
    let dead : (a : ℕ) → ¬ (0 < (node a).refcnt) = λ a lt. absurd (omega (arith, lt, f.unused a)) in
    let no_slot : (a : ℕ) → ¬ HasSlot slab a =
      λ a (i, q). absurd (cc (q.used, free i (omega (arith, q.inside, slots)))) in
    let no_block : (v : ℕ) → ¬ HasBlock n buddy v = λ v (i, j, q). handed i j q.used in
    let kv : Kv = record {
      buckets = λ i. [];
      lru = [];
      bucket_count = c;
      max_keys = max_keys;
      max_key_length = max_key_length;
      key_slab = slab;
      key_base = key_base;
      value_buddy = buddy;
      value_base = value_base;
      expire_routine_interval = 600;
      statics = record { times = 0; count = 0; bytes = 0 };
      node = node;
    } in
    (
      kv,
      ground (arith, ec, es, eb', given),
      record {
        heap = record {
          slab_valid = sv;
          buddy_valid = bv;
          place = create-base meta value_base (pow2 n) value_block_size eb;
          wide = omega (
            arith,
            f.slot,
            slab_create-size keys_name key_base (mem_key_size max_key_length) max_keys es,
          );
          slot = λ a lt. absurd (dead a lt);
          block = λ a lt. absurd (dead a lt);
          apart = λ a c' lt lt' e. absurd (dead a lt);
          fresh = λ a e. absurd (cc e);
          room = λ v l e. absurd (cc e);
          word = λ a. omega (arith, f.unused a);
          slot_owner = λ a q. absurd (no_slot a q);
          block_owner = λ v q. absurd (no_block v q);
        };
        index = record {
          refs = λ a. f.unused a;
          homes = λ a b lt. absurd (omega (arith, lt));
          single = λ a b. omega arith;
          sized = λ a b lt. absurd (omega (arith, lt));
          unique = λ a c' b lt lt' e. absurd (omega (arith, lt));
        };
      },
    )
