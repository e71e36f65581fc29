-- ===== src/Kv/Pin.antt =====
-- A value that a reader of server/kv.c holds outlives its key: `priskv_get_key` takes a reference,
-- so `priskv_delete_key` leaves the value's block until `priskv_get_key_end`.
use pris_kv.Base.{ℕ, ◌+◌, ◌-◌, ◌%◌, ◌≡◌, ◌<◌, arith, refl, sym, ap, ◌∙◌, some, true, List, subst}
use pris_kv.Base.Word.{sub_u32, u32, u32_mod}
use pris_kv.Base.Time.{Timeval}
use pris_kv.Buddy
use pris_kv.Buddy.{Buddy}
use pris_kv.Slab
use pris_kv.Slab.{Slab}
use pris_kv.Kv.State.{
  KeyNode, Kv, store, set_node, zero_node, lru_access, lru_del_key, keynode_ref, keynode_deref,
  release, value_to_pointer,
}
use pris_kv.Kv.Find.{find_in, find_key, found_at, bucket_of, touch, unlink}
use pris_kv.Kv.Ops.{ok, get_key, get_found, delete_key, drop_node, get_key_end}
use pris_kv.Kv.Shrink.{find_in-store_same}

module _ (crc32 : List ℕ → ℕ) where
  get_key_inv :
      (kv : Kv) (now : Timeval) (key : List ℕ) {kv' : Kv} {a v len : ℕ}
      → get_key crc32 kv now key
        ≡ some (kv', record { status = ok; keynode = some a; value = some (v, len) })
      → (find_in kv.node key (kv.buckets (bucket_of crc32 kv key)) ≡ some a)
        × (kv' ≡ lru_access (keynode_ref kv a) a true)
        × (v ≡ kv.value_base + (kv.node a).value_off)
        × (len ≡ (kv.node a).valuelen)
  unfolding get_key find_key found_at touch get_found keynode_ref value_to_pointer
  get_key_inv kv now key h = ground arith

  delete_key_at :
      (kv k : Kv) (now : Timeval) (key : List ℕ) (a : ℕ)
      → find_in kv.node key (kv.buckets (bucket_of crc32 kv key)) ≡ some a
      → drop_node (unlink kv (bucket_of crc32 kv key) a) a ≡ some k
      → delete_key crc32 kv now key ≡ some (k, ok)
  unfolding delete_key find_key found_at
  delete_key_at kv k now key a f d = ground (arith, f, d)

-- A node with more than one reference only loses one.
drop_node-held :
    (kv : Kv) (a : ℕ)
    → 1 < (kv.node a).refcnt
    → (kv.node a).refcnt < u32_mod
    → (k : Kv) × (drop_node kv a ≡ some k)
      × (k.value_buddy ≡ kv.value_buddy)
      × (k.key_slab ≡ kv.key_slab)
      × (k.value_base ≡ kv.value_base)
      × (k.node a ≡ record (kv.node a) { refcnt = (kv.node a).refcnt - 1 })
unfolding drop_node keynode_deref lru_del_key
drop_node-held kv a h u =
    let n : KeyNode = kv.node a in
    let e : sub_u32 n.refcnt 1 ≡ n.refcnt - 1 = omega (arith, h, u) in
    let k = set_node (lru_del_key kv a) a (record n { refcnt = n.refcnt - 1 }) in
    (k, ground (arith, e, h), refl, refl, refl, ground arith)

-- The last reference frees the block and the slot.
pub get_key_end-last :
    (kv : Kv) (a : ℕ) (buddy : Buddy) (slab : Slab)
    → (kv.node a).refcnt ≡ 1
    → Buddy.free kv.value_buddy (kv.value_base + (kv.node a).value_off) ≡ some buddy
    → Slab.free kv.key_slab a ≡ some slab
    → (k : Kv) × (get_key_end kv (some a) ≡ some k)
      × (k.value_buddy ≡ buddy)
      × (k.key_slab ≡ slab)
      × (k.node a ≡ zero_node)
unfolding get_key_end keynode_deref release value_to_pointer
get_key_end-last kv a buddy slab r fb fs =
    let n : KeyNode = kv.node a in
    let e : sub_u32 n.refcnt 1 ≡ 0 = omega (arith, r) in
    let m = set_node kv a (record n { refcnt = sub_u32 n.refcnt 1 }) in
    (
      record m { value_buddy = buddy; key_slab = slab; node = store m.node a zero_node },
      ground (arith, e, fb, fs),
      refl,
      refl,
      ground arith,
    )

module _ (crc32 : List ℕ → ℕ) where
  -- A node that GET has found, before DELETE drops it.
  abbrev pub held : Kv → List ℕ → ℕ → Kv
  held kv key a = unlink (lru_access (keynode_ref kv a) a true) (bucket_of crc32 kv key) a

  held-node :
      (kv : Kv) (key : List ℕ) (a : ℕ)
      → (kv.node a).refcnt + 1 < u32_mod
      → ((held kv key a).node a ≡ record (kv.node a) { refcnt = (kv.node a).refcnt + 1 })
        × ((held kv key a).value_buddy ≡ kv.value_buddy)
        × ((held kv key a).key_slab ≡ kv.key_slab)
        × ((held kv key a).value_base ≡ kv.value_base)
  unfolding unlink lru_access keynode_ref
  held-node kv key a u = (ground arith, refl, refl, refl)

  held-found :
      (kv : Kv) (key : List ℕ) (a : ℕ)
      → let k = lru_access (keynode_ref kv a) a true in
        find_in k.node key (k.buckets (bucket_of crc32 k key))
        ≡ find_in kv.node key (kv.buckets (bucket_of crc32 kv key))
  unfolding lru_access keynode_ref bucket_of
  held-found kv key a =
      find_in-store_same kv.node key a
        (record (kv.node a) { refcnt = u32 ((kv.node a).refcnt + 1) })
        (kv.buckets (crc32 key % kv.bucket_count)) (refl, refl)

  held-bucket :
      (kv : Kv) (key : List ℕ) (a : ℕ)
      → bucket_of crc32 (lru_access (keynode_ref kv a) a true) key ≡ bucket_of crc32 kv key
  unfolding lru_access keynode_ref bucket_of
  held-bucket kv key a = refl

  -- A value that a GET has returned outlives a DELETE of its key: the DELETE has the status OK and
  -- leaves both allocators and the node as they were before the GET. If the store had the only
  -- other reference, the end of the GET then frees the value's block at the address that the GET
  -- returned, and the node's slot, where the two allocators take them. It is asked that the
  -- node's reference count is positive and that one more does not wrap.
  pub get_key-delete_key :
      (kv : Kv) (now now' : Timeval) (key : List ℕ) {kv' : Kv} {a v len : ℕ}
      → 0 < (kv.node a).refcnt
      → (kv.node a).refcnt + 1 < u32_mod
      → get_key crc32 kv now key
        ≡ some (kv', record { status = ok; keynode = some a; value = some (v, len) })
      → (k : Kv) × (delete_key crc32 kv' now' key ≡ some (k, ok))
        × (k.value_buddy ≡ kv.value_buddy)
        × (k.key_slab ≡ kv.key_slab)
        × (k.node a ≡ kv.node a)
        × ((buddy : Buddy) (slab : Slab)
            → (kv.node a).refcnt ≡ 1
            → Buddy.free kv.value_buddy v ≡ some buddy
            → Slab.free kv.key_slab a ≡ some slab
            → (k' : Kv) × (get_key_end k (some a) ≡ some k')
              × (k'.value_buddy ≡ buddy)
              × (k'.key_slab ≡ slab)
              × (k'.node a ≡ zero_node))
  get_key-delete_key kv now now' key {kv'} {a} {v} {len} pos u h =
      let (f, ek, ev, el) = get_key_inv crc32 kv now key h in
      let (en, eb, es, evb) = held-node kv key a u in
      let r : ((held kv key a).node a).refcnt ≡ (kv.node a).refcnt + 1 = ap (λ n. n.refcnt) en in
      let (k, ed, kb, ks, kvb, kn) =
        drop_node-held (held kv key a) a (omega (arith, r, pos)) (omega (arith, r, u)) in
      let node : k.node a ≡ kv.node a =
        kn
        ∙ (ap {A = KeyNode} {B = KeyNode} (λ n. record n { refcnt = n.refcnt - 1 }) en
            ∙ ap {A = ℕ} {B = KeyNode} (λ x. record (kv.node a) { refcnt = x }) (omega arith)) in
      let K = lru_access (keynode_ref kv a) a true in
      (
        k,
        subst (λ x. delete_key crc32 x now' key ≡ some (k, ok)) (sym ek)
            (delete_key_at crc32 K k now' key a (held-found kv key a ∙ f)
              (subst (λ b. drop_node (unlink K b a) a ≡ some k) (sym (held-bucket kv key a)) ed)),
        kb ∙ eb,
        ks ∙ es,
        node,
        λ buddy slab one fb fs.
            get_key_end-last k a buddy slab (ap (λ n. n.refcnt) node ∙ one)
              (rw (kb ∙ eb, kvb ∙ evb, node)
                (subst (λ x. Buddy.free kv.value_buddy x ≡ some buddy) ev fb))
              (rw (ks ∙ es) fs),
      )
