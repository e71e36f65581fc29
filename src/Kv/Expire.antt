-- ===== src/Kv/Expire.antt =====
-- A key whose time has run out: `priskv_expire_key` and then `priskv_get_key` of server/kv.c.
use pris_kv.Base.{
  ℕ, ◌+◌, ◌*◌, ◌≡◌, ◌≤◌, ◌<◌, arith, refl, ap, ◌∙◌, ◌%◌, fun_ext, some, true, false, List,
}
use pris_kv.Base.Time.{Timeval, add_ms, micros, add_ms_lem, elapsed_ms_pos}
use pris_kv.Buddy
use pris_kv.Buddy.{Buddy}
use pris_kv.Slab
use pris_kv.Slab.{Slab}
use pris_kv.Kv.State.{KeyNode, Kv, store, set_node, lru_del_key, keynode_ref, keynode_deref}
use pris_kv.Kv.Find.{
  key_max_timeout, key_timeout, find_in, find_key, found_at, bucket_of, touch, unlink,
}
use pris_kv.Kv.Ops.{ok, no_key, get_key, expire_key, drop_node, get_key_end}
use pris_kv.Kv.Shrink.{find_in-store_same}
use pris_kv.Kv.Pin.{get_key_end-last}

-- The node after EXPIRE.
abbrev pub expiring : Kv → Timeval → ℕ → ℕ → Kv
expiring kv now timeout a =
    set_node kv a (record (kv.node a) { expire_time = some (add_ms now timeout) })

key_timeout-late :
    (n : KeyNode) (t now : Timeval)
    → n.expire_time ≡ some t
    → t.usec < 1000000
    → now.usec < 1000000
    → micros t + 1000 ≤ micros now
    → key_timeout n now ≡ true
unfolding key_timeout
key_timeout-late n t now e u u' h = ground (arith, e, (elapsed_ms_pos t now u u').1 h)

-- A node with one reference that leaves its bucket and the list.
drop_node-last :
    (kv : Kv) (a b : ℕ) (buddy : Buddy) (slab : Slab)
    → (kv.node a).refcnt ≡ 1
    → Buddy.free kv.value_buddy (kv.value_base + (kv.node a).value_off) ≡ some buddy
    → Slab.free kv.key_slab a ≡ some slab
    → (k : Kv) × (drop_node (unlink kv b a) a ≡ some k)
      × (k.value_buddy ≡ buddy)
      × (k.key_slab ≡ slab)
unfolding drop_node lru_del_key unlink get_key_end
drop_node-last kv a b buddy slab r fb fs =
    let (k, e, kb, ks, kn) =
      get_key_end-last (lru_del_key (unlink kv b a) a) a buddy slab r fb fs in
    (k, e, kb, ks)

module _ (crc32 : List ℕ → ℕ) where
  get_key_gone :
      (kv k : Kv) (now : Timeval) (key : List ℕ) (a : ℕ)
      → find_in kv.node key (kv.buckets (bucket_of crc32 kv key)) ≡ some a
      → key_timeout (kv.node a) now ≡ true
      → drop_node (unlink kv (bucket_of crc32 kv key) a) a ≡ some k
      → get_key crc32 kv now key ≡ some (k, no_key)
  unfolding get_key find_key found_at
  get_key_gone kv k now key a f t d = ground (arith, f, t, d)

  expire_key_at :
      (kv k : Kv) (now : Timeval) (key : List ℕ) (timeout a : ℕ)
      → find_in kv.node key (kv.buckets (bucket_of crc32 kv key)) ≡ some a
      → key_timeout (kv.node a) now ≡ false
      → keynode_deref (keynode_ref (touch kv now a timeout) a) a ≡ some k
      → expire_key crc32 kv now key timeout ≡ some (k, ok)
  unfolding expire_key find_key found_at
  expire_key_at kv k now key timeout a f t d = ground (arith, f, t, d)

touch_twice :
    (kv : Kv) (now : Timeval) (timeout a : ℕ)
    → (kv.node a).refcnt ≡ 1
    → timeout < key_max_timeout
    → (k : Kv) × (keynode_deref (keynode_ref (touch kv now a timeout) a) a ≡ some k)
      × (k.value_buddy ≡ kv.value_buddy)
      × (k.key_slab ≡ kv.key_slab)
      × (k.value_base ≡ kv.value_base)
      × (k.buckets ≡ kv.buckets)
      × (k.bucket_count ≡ kv.bucket_count)
      × ((i : ℕ) → k.node i ≡ (expiring kv now timeout a).node i)
unfolding keynode_deref keynode_ref touch
touch_twice kv now timeout a r h =
    let n : KeyNode = kv.node a in
    let first : KeyNode = record n { expire_time = some (add_ms now timeout); refcnt = 2 } in
    let second : KeyNode = record n { expire_time = some (add_ms now timeout); refcnt = 1 } in
    let k = set_node (set_node (expiring kv now timeout a) a first) a second in
    (k, ground (arith, r, h), refl, refl, refl, refl, refl, λ i. ground (arith, r))

expiring-found :
    (crc32 : List ℕ → ℕ) (kv k : Kv) (now : Timeval) (key : List ℕ) (timeout a : ℕ)
    → k.buckets ≡ kv.buckets
    → k.bucket_count ≡ kv.bucket_count
    → ((i : ℕ) → k.node i ≡ (expiring kv now timeout a).node i)
    → find_in kv.node key (kv.buckets (bucket_of crc32 kv key)) ≡ some a
    → find_in k.node key (k.buckets (bucket_of crc32 k key)) ≡ some a
unfolding bucket_of
expiring-found crc32 kv k now key timeout a eb ec en f =
    let n : KeyNode = record (kv.node a) { expire_time = some (add_ms now timeout) } in
    let l = kv.buckets (crc32 key % kv.bucket_count) in
    let e : k.node ≡ store kv.node a n = fun_ext en in
    rw (eb, ec, e) (find_in-store_same kv.node key a n l (refl, refl) ∙ f)

-- EXPIRE of a key that has not expired, that no reader holds and whose block and slot the
-- allocators take back, has the status OK. From a millisecond after the new timeout on, a GET of the
-- key has the status NO_SUCH_KEY, and gives back the value's block and the node's slot.
pub expire_key-get_key :
    (crc32 : List ℕ → ℕ) (kv : Kv) (now now' : Timeval) (key : List ℕ) (timeout a : ℕ)
    (buddy : Buddy) (slab : Slab)
    → find_in kv.node key (kv.buckets (bucket_of crc32 kv key)) ≡ some a
    → key_timeout (kv.node a) now ≡ false
    → (kv.node a).refcnt ≡ 1
    → timeout < key_max_timeout
    → now.usec < 1000000
    → now'.usec < 1000000
    → micros now + timeout * 1000 + 1000 ≤ micros now'
    → Buddy.free kv.value_buddy (kv.value_base + (kv.node a).value_off) ≡ some buddy
    → Slab.free kv.key_slab a ≡ some slab
    → (kv' : Kv) × (expire_key crc32 kv now key timeout ≡ some (kv', ok))
      × ((k : Kv) × (get_key crc32 kv' now' key ≡ some (k, no_key))
          × (k.value_buddy ≡ buddy)
          × (k.key_slab ≡ slab))
expire_key-get_key crc32 kv now now' key timeout a buddy slab f t r max u u' late fb fs =
    let (k, ek, kb, ks, kvb, kbs, kc, kn) = touch_twice kv now timeout a r max in
    let node : k.node a ≡ record (kv.node a) { expire_time = some (add_ms now timeout) } =
      ground (arith, kn a) in
    let (sum, us) = add_ms_lem now timeout u in
    let gone =
      key_timeout-late (k.node a) (add_ms now timeout) now' (ap (λ n. n.expire_time) node) us u'
        (omega (arith, sum, late)) in
    let (k', d, eb, es) =
      drop_node-last k a (bucket_of crc32 k key) buddy slab (ap (λ n. n.refcnt) node ∙ r)
        (rw (kb, kvb, node) fb) (rw (ks) fs) in
    let found = expiring-found crc32 kv k now key timeout a kbs kc kn f in
    (
      k,
      expire_key_at crc32 kv k now key timeout a f t ek,
      (k', get_key_gone crc32 k k' now' key a found gone d, eb, es),
    )
