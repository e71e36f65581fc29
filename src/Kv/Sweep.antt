-- ===== src/Kv/Sweep.antt =====
-- The operations of server/kv.c on all keys: KEYS, FLUSH, the expire routine and the recovery.
-- `regcomp` gives the test that `regexec` makes with the compiled expression, or nothing.
use pris_kv.Base.{
  ℕ, zero, suc, ◌+◌, ◌*◌, ◌/◌, ◌%◌, Option, none, some, Bool, true, false, List, [], ◌∷◌, ◌++◌, ltb,
  leb, ◌==◌, if◌then◌else◌,
}
use pris_kv.Base.Word.{u32}
use pris_kv.Base.Time.{Timeval}
use pris_kv.Buddy
use pris_kv.Slab
use pris_kv.Kv.State.{
  KeyNode, Kv, zero_node, store, list_del, lru_access, lru_del_key, value_to_pointer, keynode_deref,
}
use pris_kv.Kv.Find.{key_timeout, unlink}
use pris_kv.Kv.Ops.{Status, ok, invalid_regex, value_too_big, mem_key_size, drop_node}
use pris_kv.Kv.Evict.{insert_keynode}

-- `htobe16` and `htobe32`, as the bytes in memory
abbrev pub be16 : ℕ → List ℕ
be16 n = (n / 256 % 256) ∷ (n % 256) ∷ []

abbrev pub be32 : ℕ → List ℕ
be32 n = be16 (n / 65536) ++ be16 n

-- A `priskv_keys_resp` (include/priskv-protocol.h) and its key.
unfoldable pub keys_entry : KeyNode → List ℕ
keys_entry n = be16 n.keylen ++ (be16 0 ++ (be32 n.valuelen ++ n.key))

abbrev pub keys_resp_size : ℕ
keys_resp_size = 8

-- `keysbuf` as far as it is written, `*reallen` and `*nkey`.
pub record Keys : Type 0 where
  pub keysbuf : List ℕ
  pub reallen : ℕ
  pub nkey : ℕ

unfoldable pub add_key : ℕ → Keys → KeyNode → Keys
add_key keyslen k n = record {
  keysbuf =
      if leb (k.reallen + keys_resp_size + n.keylen) keyslen
      then k.keysbuf ++ keys_entry n
      else k.keysbuf;
  reallen = u32 (k.reallen + (keys_resp_size + n.keylen));
  nkey = u32 (k.nkey + 1);
}

unfoldable pub keys_bucket : (List ℕ → Bool) → (ℕ → KeyNode) → ℕ → Keys → List ℕ → Keys
keys_bucket test node keyslen k [] = k
keys_bucket test node keyslen k (a ∷ l) =
    keys_bucket test node keyslen (if test (node a).key then add_key keyslen k (node a) else k) l

unfoldable pub keys_buckets : (List ℕ → Bool) → Kv → ℕ → ℕ → ℕ → Keys → Keys
keys_buckets test kv keyslen zero i k = k
keys_buckets test kv keyslen (suc rounds) i k =
    keys_buckets test kv keyslen rounds (i + 1) (keys_bucket test kv.node keyslen k (kv.buckets i))

-- `priskv_get_keys`: `keysbuf` holds `keyslen` bytes.
unfoldable pub get_keys : (List ℕ → Option (List ℕ → Bool)) → Kv → List ℕ → ℕ → Status × Option Keys
get_keys regcomp kv regex keyslen = elim (regcomp regex) [
  | none ↦ (invalid_regex, none)
  | some test ↦
      let k =
        keys_buckets test kv keyslen kv.bucket_count 0
          (record { keysbuf = []; reallen = 0; nkey = 0 }) in
      (if ltb keyslen k.reallen then value_too_big else ok, some k)
]

-- The body of the loop of `priskv_flush_keys` at a key that matches. A failed assertion is `none`.
unfoldable pub flush_node : Kv → ℕ → ℕ → Option Kv
flush_node kv bucket a = keynode_deref (unlink (lru_del_key kv a) bucket a) a

-- The loop goes over the bucket as it was found.
unfoldable pub flush_bucket : (List ℕ → Bool) → ℕ → Kv → ℕ → List ℕ → Option (Kv × ℕ)
flush_bucket test bucket kv nkey [] = some (kv, nkey)
flush_bucket test bucket kv nkey (a ∷ l) = elim (test (kv.node a).key) [
  | false ↦ flush_bucket test bucket kv nkey l
  | true ↦ elim (flush_node kv bucket a) [
    | none ↦ none
    | some kv' ↦ flush_bucket test bucket kv' (u32 (nkey + 1)) l
  ]
]

unfoldable pub flush_buckets : (List ℕ → Bool) → ℕ → ℕ → Kv → ℕ → Option (Kv × ℕ)
flush_buckets test zero i kv nkey = some (kv, nkey)
flush_buckets test (suc rounds) i kv nkey = elim (flush_bucket test i kv nkey (kv.buckets i)) [
  | none ↦ none
  | some (kv', nkey') ↦ flush_buckets test rounds (i + 1) kv' nkey'
]

-- `priskv_flush_keys`: the store, the status and `*nkey`.
unfoldable pub flush_keys :
    (List ℕ → Option (List ℕ → Bool)) → Kv → List ℕ → Option (Kv × Status × Option ℕ)
flush_keys regcomp kv regex = elim (regcomp regex) [
  | none ↦ some (kv, invalid_regex, none)
  | some test ↦ elim (flush_buckets test kv.bucket_count 0 kv 0) [
    | none ↦ none
    | some (kv', nkey) ↦ some (kv', ok, some nkey)
  ]
]

-- The first loop of `priskv_clear_expired_kv` on a bucket: what has expired goes to a list.
unfoldable pub collect_expired : Timeval → ℕ → Kv → List ℕ → List ℕ → Kv × List ℕ
collect_expired now bucket kv expired [] = (kv, expired)
collect_expired now bucket kv expired (a ∷ l) =
    let n = kv.node a in
    let statics = kv.statics in
    let moved : Kv = record (unlink kv bucket a) {
      statics = record statics { count = statics.count + 1; bytes = statics.bytes + n.valuelen };
    } in
    collect_expired now bucket (if key_timeout n now then moved else kv)
      (if key_timeout n now then expired ++ (a ∷ []) else expired) l

-- The second loop: each node of that list leaves it and is dropped. With the store goes what is left
-- of the list.
unfoldable pub drop_all : Kv → List ℕ → List ℕ → Option (Kv × List ℕ)
drop_all kv expired [] = some (kv, expired)
drop_all kv expired (a ∷ l) = elim (drop_node kv a) [
  | none ↦ none
  | some kv' ↦ drop_all kv' (list_del a expired) l
]

-- The loop over the buckets; `none` is a failed assertion, also the one that nothing is left of the
-- list.
unfoldable pub clear_buckets : Timeval → ℕ → ℕ → Kv → Option Kv
clear_buckets now zero i kv = some kv
clear_buckets now (suc rounds) i kv =
    let (kv', expired) = collect_expired now i kv [] (kv.buckets i) in
    elim (drop_all kv' expired expired) [
      | none ↦ none
      | some (kv'', left) ↦ elim left [ [] ↦ clear_buckets now rounds (i + 1) kv'' | a ∷ l ↦ none ]
    ]

-- `priskv_clear_expired_kv`
unfoldable pub clear_expired_kv : Kv → Timeval → Option Kv
clear_expired_kv kv now = elim (clear_buckets now kv.bucket_count 0 kv) [
  | none ↦ none
  | some kv' ↦
      let statics = kv'.statics in
      some (record kv' { statics = record statics { times = statics.times + 1 } })
]

-- What `priskv_recover` returns: 0, or -EIO at a key length that no slot holds.
pub data Recovered : Type 0 where
  done : Kv → Recovered
  eio : Kv → Recovered

-- A node that was being written is discarded. A failed assertion is `none`.
unfoldable pub discard : Kv → ℕ → Option Kv
discard kv a =
    let value : Option Kv =
      if (kv.node a).valuelen == 0
      then some kv
      else elim (Buddy.free kv.value_buddy (value_to_pointer kv a)) [
        | none ↦ none
        | some buddy ↦ some (record kv { value_buddy = buddy })
      ] in
    elim value [
      | none ↦ none
      | some kv₁ ↦ elim (Slab.free kv₁.key_slab a) [
        | none ↦ none
        | some slab ↦ some (record kv₁ { key_slab = slab; node = store kv₁.node a zero_node })
      ]
    ]

module _ (crc32 : List ℕ → ℕ) where
  -- A node that is whole goes back to its bucket and to the list of recent use.
  unfoldable pub restore : Kv → ℕ → ℕ → Option Kv
  restore kv i a = if (kv.node a).valuelen == 0 then none else elim (Slab.reserve kv.key_slab i) [
    | none ↦ none
    | some (slab, addr) ↦
        if addr == a
        then some (lru_access (insert_keynode crc32 (record kv { key_slab = slab }) a) a false)
        else none
  ]

  -- The loop of `priskv_recover`, `rounds` rounds before its end, at the slot `i`.
  unfoldable pub recover_loop : ℕ → ℕ → Kv → Option Recovered
  recover_loop zero i kv = some (done kv)
  recover_loop (suc rounds) i kv =
      let a = kv.key_base + u32 (kv.key_slab.size * i) in
      let n = kv.node a in
      elim (n.keylen == 0) [
        | true ↦ recover_loop rounds (i + 1) kv
        | false ↦ elim (ltb kv.key_slab.size (mem_key_size n.keylen)) [
          | true ↦ some (eio kv)
          | false ↦ elim (if n.inprocess then discard kv a else restore kv i a) [
            | none ↦ none
            | some kv' ↦ recover_loop rounds (i + 1) kv'
          ]
        ]
      ]

  -- `priskv_recover`; `none` is a failed assertion.
  unfoldable pub recover : Kv → Option Recovered
  recover kv = recover_loop kv.max_keys 0 kv
