-- ===== src/Kv/Good/Release.antt =====
-- The invariant of the store under priskv_keynode_deref of server/kv.c: a reference that is given
-- back never fails an assertion, and the last one gives back the block and the slot.
use pris_kv.Base.{
  ℕ, ◌+◌, ◌-◌, ◌%◌, ◌<◌, ◌≡◌, ◌≢◌, ◌∙◌, Option, some, true, false, List, ◌==◌, arith, refl, sym,
  fun_ext, ap, subst, inl, inr, ℕ_discrete, dec_lt, length,
}
use pris_kv.Base.Word.{u32_mod, sub_u32}
use pris_kv.Buddy
use pris_kv.Buddy.{Buddy}
use pris_kv.Slab
use pris_kv.Slab.{Slab}
use pris_kv.Kv.State.{
  Kv, KeyNode, zero_node, store, set_node, keynode_deref, release, value_to_pointer,
}
use pris_kv.Kv.Owned.{
  HasSlot, HasRoom, HasRoom→HasBlock, slab_free_lem, buddy_free_lem, Returned-kept, Returned-only,
}
use pris_kv.Kv.Good.{times, Heap, Index, Good, home}
use pris_kv.Kv.Good.Refs.{less, less_self, less_ne, store_self, store_ne, store_all, Good-count}

-- The block and the slot of a node with a reference are given back.
Heap-release :
    {klen n : ℕ} {pn : Option ℕ} {pv : Option (ℕ × ℕ)} {slab : Slab} {buddy : Buddy} {base : ℕ}
    {node : ℕ → KeyNode} (a : ℕ) (z : KeyNode)
    → z.refcnt ≡ 0
    → 0 < (node a).refcnt
    → Heap klen n pn pv slab buddy base node
    → (buddy' : Buddy) × (slab' : Slab) × (Buddy.free buddy (base + (node a).value_off)
        ≡ some buddy')
      × (Slab.free slab a ≡ some slab')
      × Heap klen n pn pv slab' buddy' base (store node a z)
Heap-release {klen} {n} {pn} {pv} {slab} {buddy} {base} {node} a z dead live h =
    let (buddy', fb, vb, pb, kept, only) =
      buddy_free_lem h.buddy_valid (HasRoom→HasBlock (h.block a live)) in
    let (i, slab', fs, at, t) = slab_free_lem h.slab_valid (h.slot a live) in
    let slots : (x : ℕ) → HasSlot slab x → a ≢ x → HasSlot slab' x =
      λ x q ne. Returned-kept t x q (λ e. ne (at ∙ sym e)) in
    let none_at_a : (P : Type 0) → 0 < z.refcnt → P = λ P lt. absurd (omega (arith, lt, dead)) in
    (
      buddy',
      slab',
      fb,
      fs,
      record {
        slab_valid = t.valid;
        buddy_valid = vb;
        place = pb ∙ h.place;
        wide = omega (arith, h.wide, t.place.1);
        slot =
            store_all (λ x y. 0 < y.refcnt → HasSlot slab' x) node a z (none_at_a _)
              (λ x ne lt. slots x (h.slot x lt) ne);
        block =
            store_all (λ x y. 0 < y.refcnt → HasRoom n buddy' (base + y.value_off) y.valuelen) node
              a z (none_at_a _)
              (λ x ne lt.
                kept (base + (node x).value_off) (node x).valuelen (h.block x lt)
                  (λ e. ne (h.apart a x live lt (omega (arith, e)))));
        apart =
            store_all
              (λ x y.
                (c : ℕ)
                → 0 < y.refcnt
                → 0 < (store node a z c).refcnt
                → y.value_off ≡ (store node a z c).value_off
                → x ≡ c)
              node a z (λ c. none_at_a _)
              (λ x ne.
                store_all
                  (λ c y.
                    0 < (node x).refcnt → 0 < y.refcnt → (node x).value_off ≡ y.value_off → x ≡ c)
                  node a z (λ _. none_at_a _) (λ c ne'. h.apart x c));
        fresh = λ p e.
            let (q, zero_refs) = h.fresh p e in
            let ne : a ≢ p =
              λ w. absurd (omega (arith, live, zero_refs, ap (λ x. (node x).refcnt) w)) in
            (slots p q ne, ap (λ y. y.refcnt) (store_ne node a p z ne) ∙ zero_refs);
        room = λ v l e.
            let (q, apart) = h.room v l e in
            (
              kept v l q (λ w. apart a live (sym w)),
              store_all (λ x y. 0 < y.refcnt → base + y.value_off ≢ v) node a z (none_at_a _)
                  (λ x ne lt. apart x lt),
            );
        word =
            store_all (λ x y. y.refcnt < u32_mod) node a z (omega (arith, dead)) (λ x ne. h.word x);
        slot_owner = λ x q.
            let (old, off) = Returned-only h.slab_valid t x q in
            let ne : a ≢ x = λ e. off (sym e ∙ at) in
            elim (h.slot_owner x old) [
              | inl lt ↦ inl (subst (λ y. 0 < y.refcnt) (sym (store_ne node a x z ne)) lt)
              | inr e ↦ inr e
            ];
        block_owner = λ v q.
            let (old, off) = only v q in
            elim (h.block_owner v old) [
              | inl (x, lt, e) ↦
                  let ne : a ≢ x = λ w. off (sym e ∙ ap (λ y. base + (node y).value_off) (sym w)) in
                  inl (
                    x,
                    subst (λ (y : KeyNode). 0 < y.refcnt) (sym (store_ne node a x z ne)) lt,
                    subst (λ (y : KeyNode). base + y.value_off ≡ v) (sym (store_ne node a x z ne))
                        e,
                  )
              | inr e ↦ inr e
            ];
      },
    )

pub store_twice {ℓ} :
    {A : Type ℓ} (f : ℕ → A) (a : ℕ) (v w : A) → store (store f a v) a w ≡ store f a w
store_twice f a v w =
    fun_ext (λ x. elim (ℕ_discrete a x) [ yes e ↦ ground (arith, e) | no ne ↦ ground (arith, ne) ])

-- A node that no bucket holds and that only the caller holds is forgotten.
Index-forget :
    {hash : List ℕ → ℕ} {held : ℕ → ℕ} {buckets : ℕ → List ℕ} {bucket_count : ℕ}
    {node : ℕ → KeyNode} (a : ℕ)
    → (node a).refcnt ≡ 1
    → 0 < held a
    → Index hash held buckets bucket_count node
    → Index hash (less held a) buckets bucket_count (store node a zero_node)
Index-forget {hash} {held} {buckets} {bucket_count} {node} a one mine h =
    let node' = store node a zero_node in
    let off : (i : ℕ) → times a (buckets i) ≡ 0 = λ i. elim (dec_lt 0 (times a (buckets i))) [
      | yes lt ↦
          absurd
            (omega (arith, h.refs a, one, mine, lt, ap (λ j. times a (buckets j)) (h.homes a i lt)))
      | no ge ↦ omega (arith, ge)
    ] in
    let other : (x i : ℕ) → 0 < times x (buckets i) → node' x ≡ node x = λ x i lt.
      store_ne node a x zero_node
        (λ e. absurd (omega (arith, lt, off i, ap (λ y. times y (buckets i)) e))) in
    record {
      refs = λ x. elim (ℕ_discrete a x) [
        | yes e ↦
            subst
              (λ x.
                (node' x).refcnt
                ≡ less held a x + times x (buckets (home hash bucket_count node' x)))
              e
              (omega (
                arith,
                ap (λ m. m.refcnt) (store_self node a zero_node),
                less_self held a,
                h.refs a,
                one,
                mine,
                off (home hash bucket_count node' a),
              ))
        | no ne ↦
            let same = store_ne node a x zero_node ne in
            omega (
              arith,
              ap (λ (m : KeyNode). m.refcnt) same,
              less_ne held a x ne,
              h.refs x,
              ap (λ (m : KeyNode). times x (buckets (hash m.key % bucket_count))) same,
            )
      ];
      homes =
          λ x i lt. ap (λ (m : KeyNode). hash m.key % bucket_count) (other x i lt) ∙ h.homes x i lt;
      single = h.single;
      sized = λ x i lt.
          subst (λ (m : KeyNode). m.keylen ≡ length m.key) (sym (other x i lt)) (h.sized x i lt);
      unique = λ x y i lt lt' e. h.unique x y i lt lt' (
          ap (λ (m : KeyNode). m.key) (sym (other x i lt))
          ∙ (e ∙ ap (λ (m : KeyNode). m.key) (other y i lt')));
    }

module _ {hash : List ℕ → ℕ} {klen n : ℕ} {held : ℕ → ℕ} {pn : Option ℕ} {pv : Option (ℕ × ℕ)}
    {kv : Kv} where
  last_deref :
      (a : ℕ)
      → (kv.node a).refcnt ≡ 1
      → 0 < held a
      → Good hash klen n held pn pv kv
      → (kv' : Kv) × (keynode_deref kv a ≡ some kv') × Good hash klen n (less held a) pn pv kv'
  unfolding keynode_deref release value_to_pointer
  last_deref a one mine g =
      let old = kv.node a in
      let m : KeyNode = record old { refcnt = sub_u32 old.refcnt 1 } in
      let zero_left : (sub_u32 old.refcnt 1 == 0) ≡ true = ground (arith, one) in
      let (buddy, slab, fb, fs, h) = Heap-release a zero_node refl (omega (arith, one)) g.heap in
      let at : kv.value_base + (store kv.node a m a).value_off ≡ kv.value_base + old.value_off =
        ap (λ (z : KeyNode). kv.value_base + z.value_off) (store_self kv.node a m) in
      let fb' = ap (Buddy.free kv.value_buddy) at ∙ fb in
      let twice = store_twice kv.node a m zero_node in
      (
        record kv {
          value_buddy = buddy;
          key_slab = slab;
          node = store (store kv.node a m) a zero_node;
        },
        rw (zero_left, fb', fs, release) refl,
        record {
          heap = subst (λ f. Heap klen n pn pv slab buddy kv.value_base f) (sym twice) h;
          index =
              subst (λ f. Index hash (less held a) kv.buckets kv.bucket_count f) (sym twice)
                (Index-forget a one mine g.index);
        },
      )

  other_deref :
      (a : ℕ)
      → (kv.node a).refcnt ≢ 1
      → 0 < held a
      → Good hash klen n held pn pv kv
      → (kv' : Kv) × (keynode_deref kv a ≡ some kv') × Good hash klen n (less held a) pn pv kv'
  unfolding keynode_deref
  other_deref a many mine g =
      let old = kv.node a in
      let live : 0 < old.refcnt = omega (arith, mine, g.index.refs a) in
      let down : sub_u32 old.refcnt 1 ≡ old.refcnt - 1 = omega (arith, live, g.heap.word a) in
      let some_left : (sub_u32 old.refcnt 1 == 0) ≡ false = ground (arith, down, live, many) in
      (
        set_node kv a (record old { refcnt = sub_u32 old.refcnt 1 }),
        rw some_left refl,
        Good-count a (record old { refcnt = sub_u32 old.refcnt 1 }) (less held a)
            (refl, refl, refl, omega arith) (λ lt. live) (λ lt. omega (arith, down, live, many))
            (omega (arith, down, g.heap.word a))
            (omega (arith, down, g.index.refs a, less_self held a, mine))
            (λ x ne. less_ne held a x ne) g,
      )

  -- A reference that is held is given back.
  pub Good-keynode_deref :
      (a : ℕ)
      → 0 < held a
      → Good hash klen n held pn pv kv
      → (kv' : Kv) × (keynode_deref kv a ≡ some kv') × Good hash klen n (less held a) pn pv kv'
  Good-keynode_deref a mine g = elim (ℕ_discrete (kv.node a).refcnt 1) [
    | yes one ↦ last_deref a one mine g
    | no many ↦ other_deref a many mine g
  ]
