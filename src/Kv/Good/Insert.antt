-- ===== src/Kv/Good/Insert.antt =====
-- The node that `priskv_set_key` of server/kv.c fills and puts into its bucket: it owns the slot and
-- the block that were pending, and the bucket has its only reference.
use pris_kv.Base.{
  ℕ, suc, ◌+◌, ◌%◌, ◌≤◌, ◌<◌, ◌≡◌, ◌≢◌, ◌∙◌, none, some, List, [], ◌∷◌, ◌++◌, arith, refl, sym, ap,
  subst, ℕ_discrete, dec_lt, length,
}
use pris_kv.Base.Word.{u32}
use pris_kv.Base.Time.{Timeval}
use pris_kv.Kv.State.{Kv, KeyNode, store, keynode_ref, lru_access, pointer_to_value}
use pris_kv.Kv.Find.{find_in, bucket_of}
use pris_kv.Kv.Evict.{fresh_node, insert_keynode, publish}
use pris_kv.Kv.Good.Heaps.{Heap-publish}
use pris_kv.Kv.Good.{times, Index, Good, home}
use pris_kv.Kv.Good.Counts.{times-append, find_in-none, key_matches_self}
use pris_kv.Kv.Good.Refs.{store_self, store_ne, store_all}
use pris_kv.Kv.Good.Release.{store_twice}

module _ (buckets : ℕ → List ℕ) (b a : ℕ) where
  abbrev pub inserted : ℕ → List ℕ
  inserted = store buckets b (buckets b ++ (a ∷ []))

  inserted_ne : (x i : ℕ) → a ≢ x → times x (inserted i) ≡ times x (buckets i)
  inserted_ne x i ne =
      store_all (λ i l. times x l ≡ times x (buckets i)) buckets b (buckets b ++ (a ∷ []))
        (let off : x ≢ a = λ e. ne (sym e) in ground (arith, times-append a x (buckets b), off))
        (λ j ne'. refl) i

  inserted_self : times a (inserted b) ≡ suc (times a (buckets b))
  inserted_self =
      ap (times a) (store_self buckets b _) ∙ ground (arith, times-append a a (buckets b))

  inserted_elsewhere : (i : ℕ) → b ≢ i → times a (inserted i) ≡ times a (buckets i)
  inserted_elsewhere i ne = ap (times a) (store_ne buckets b i _ ne)

-- A node that nothing refers to is put into the bucket of its key, which no node there has.
Index-insert :
    {hash : List ℕ → ℕ} {held : ℕ → ℕ} {buckets : ℕ → List ℕ} {bucket_count : ℕ}
    {node : ℕ → KeyNode} (a : ℕ) (z : KeyNode)
    → (node a).refcnt ≡ 0
    → z.refcnt ≡ 1
    → z.keylen ≡ length z.key
    → find_in node z.key (buckets (hash z.key % bucket_count)) ≡ none
    → Index hash held buckets bucket_count node
    → Index hash held (inserted buckets (hash z.key % bucket_count) a) bucket_count (store node a z)
Index-insert {hash} {held} {buckets} {bucket_count} {node} a z dead one sized absent h =
    let b = hash z.key % bucket_count in
    let node' = store node a z in
    let new = inserted buckets b a in
    let self : node' a ≡ z = store_self node a z in
    let off : (i : ℕ) → times a (buckets i) ≡ 0 = λ i. elim (dec_lt 0 (times a (buckets i))) [
      | yes lt ↦
          absurd (omega (arith, h.refs a, dead, lt, ap (λ j. times a (buckets j)) (h.homes a i lt)))
      | no ge ↦ omega (arith, ge)
    ] in
    let only : (i : ℕ) → 0 < times a (new i) → b ≡ i = λ i lt. elim (ℕ_discrete b i) [
      | yes e ↦ e
      | no ne ↦ absurd (omega (arith, lt, off i, inserted_elsewhere buckets b a i ne))
    ] in
    let other : (x i : ℕ) → a ≢ x → 0 < times x (new i) → 0 < times x (buckets i) =
      λ x i ne lt. omega (arith, lt, inserted_ne buckets b a x i ne) in
    let lone : (x i : ℕ) → a ≢ x → 0 < times x (new i) → b ≡ i → (node x).key ≢ z.key =
      λ x i ne lt at e.
        let there : 0 < times x (buckets b) =
          subst (λ j. 0 < times x (buckets j)) (sym at) (other x i ne lt) in
        absurd (
          cc (
            find_in-none node z.key (buckets b) x absent there,
            key_matches_self (node x) z.key (h.sized x b there) e,
          )) in
    record {
      refs = λ x. elim (ℕ_discrete a x) [
        | yes e ↦
            subst (λ x. (node' x).refcnt ≡ held x + times x (new (home hash bucket_count node' x)))
              e
              (omega (
                arith,
                ap (λ (m : KeyNode). m.refcnt) self,
                one,
                h.refs a,
                dead,
                ap (λ (m : KeyNode). times a (new (hash m.key % bucket_count))) self,
                inserted_self buckets b a,
                off b,
              ))
        | no ne ↦
            let same = store_ne node a x z ne in
            omega (
              arith,
              ap (λ (m : KeyNode). m.refcnt) same,
              ap (λ (m : KeyNode). times x (new (hash m.key % bucket_count))) same,
              inserted_ne buckets b a x (home hash bucket_count node x) ne,
              h.refs x,
            )
      ];
      homes =
          store_all (λ x y. (i : ℕ) → 0 < times x (new i) → hash y.key % bucket_count ≡ i) node a z
            only (λ x ne i lt. h.homes x i (other x i ne lt));
      single = λ x i. elim (ℕ_discrete a x) [
        | no ne ↦ omega (arith, inserted_ne buckets b a x i ne, h.single x i)
        | yes e ↦
            subst (λ x. times x (new i) ≤ 1) e
              (elim (ℕ_discrete b i) [
                | yes e' ↦
                    subst (λ j. times a (new j) ≤ 1) e'
                      (omega (arith, inserted_self buckets b a, off b))
                | no ne ↦ omega (arith, inserted_elsewhere buckets b a i ne, off i)
              ])
      ];
      sized =
          store_all (λ x y. (i : ℕ) → 0 < times x (new i) → y.keylen ≡ length y.key) node a z
            (λ i lt. sized) (λ x ne i lt. h.sized x i (other x i ne lt));
      unique =
          store_all
            (λ x y.
              (c i : ℕ) → 0 < times x (new i) → 0 < times c (new i) → y.key ≡ (node' c).key → x ≡ c)
            node a z
            (store_all
              (λ c y. (i : ℕ) → 0 < times a (new i) → 0 < times c (new i) → z.key ≡ y.key → a ≡ c)
              node a z (λ i _ _ _. refl)
              (λ c ne i lt lt' e. absurd (lone c i ne lt' (only i lt) (sym e))))
            (λ x ne.
              store_all
                (λ c y.
                  (i : ℕ)
                  → 0 < times x (new i)
                  → 0 < times c (new i)
                  → (node x).key ≡ y.key
                  → x ≡ c)
                node a z (λ i lt lt' e. absurd (lone x i ne lt (only i lt') e))
                (λ c ne' i lt lt'. h.unique x c i (other x i ne lt) (other c i ne' lt')));
    }

module _ (hash : List ℕ → ℕ) (kv : Kv) (now : Timeval) (key : List ℕ)
    (a v valuelen timeout : ℕ) where
  -- The node as `publish` leaves it.
  abbrev published : KeyNode
  published = record (fresh_node kv now key v valuelen timeout) { refcnt = 1 }

  publish_lem : publish hash kv now key a v valuelen timeout ≡ record kv {
    lru = a ∷ kv.lru;
    buckets = inserted kv.buckets (bucket_of hash kv key) a;
    node = store kv.node a published;
  }
  unfolding publish insert_keynode lru_access keynode_ref fresh_node bucket_of
  publish_lem =
      let m : KeyNode = fresh_node kv now key v valuelen timeout in
      let at : (f : ℕ → KeyNode) → Kv = λ f. record kv { lru = a ∷ kv.lru; node = f } in
      let twice : store (store kv.node a m) a (record m { refcnt = 1 })
          ≡ store kv.node a published =
        store_twice kv.node a m published in
      ap
        (λ (x : KeyNode).
          insert_keynode hash
            (at (store (store kv.node a m) a (record x { refcnt = u32 (x.refcnt + 1) }))) a)
        (store_self kv.node a m)
      ∙ (ap (λ (f : ℕ → KeyNode). insert_keynode hash (at f) a) twice
          ∙ ap
              (λ (x : KeyNode).
                let b = bucket_of hash kv x.key in
                let k : Kv = at (store kv.node a published) in
                record k { buckets = inserted kv.buckets b a })
              (store_self kv.node a published))

  pub publish-Good :
      {klen n : ℕ} {held : ℕ → ℕ}
      → find_in kv.node key (kv.buckets (bucket_of hash kv key)) ≡ none
      → kv.value_base ≤ v
      → Good hash klen n held (some a) (some (v, valuelen)) kv
      → Good hash klen n held none none (publish hash kv now key a v valuelen timeout)
  unfolding bucket_of fresh_node pointer_to_value
  publish-Good {klen} {n} {held} absent above g =
      subst (Good hash klen n held none none) (sym publish_lem) (record {
        heap = Heap-publish published (omega (arith, above)) refl refl g.heap;
        index = Index-insert a published (g.heap.fresh a refl).1 refl refl absent g.index;
      })
