-- ===== src/Kv/Good/Heaps.antt =====
-- The slot and the block that `priskv_set_key` of server/kv.c takes: pending, given back, or those
-- of the node that it fills.
use mathlib.Core.Option.{some-injective}
use pris_kv.Base.{
  ℕ, ◌+◌, ◌*◌, ◌≤◌, ◌<◌, ◌≡◌, ◌≢◌, ◌∙◌, Option, none, some, arith, refl, sym, ap, subst, inl, inr,
  ℕ_discrete,
}
use pris_kv.Base.Pow.{pow2}
use pris_kv.Buddy
use pris_kv.Buddy.{Buddy}
use pris_kv.Buddy.Valid.{address}
use pris_kv.Buddy.Alloc.{HandedOut}
use pris_kv.Slab
use pris_kv.Slab.{Slab}
use pris_kv.Slab.Alloc.{Taken}
use pris_kv.Kv.State.{KeyNode, store}
use pris_kv.Kv.Owned.{
  HasSlot, HasRoom, HasRoom→HasBlock, slab_free_lem, buddy_free_lem, Returned-kept, Returned-only,
  Taken-only, HandedOut-only, Taken-kept, Taken-new, HandedOut-kept, HandedOut-new,
}
use pris_kv.Kv.Good.{Heap}
use pris_kv.Base.Word.{u32_mod}
use pris_kv.Kv.Good.Refs.{store_self, store_ne, store_all}

module _ {klen n : ℕ} {slab : Slab} {buddy : Buddy} {base : ℕ} {node : ℕ → KeyNode} where
  pub Heap-alloc_node :
      {pv : Option (ℕ × ℕ)} {slab' : Slab} {i : ℕ}
      → i < slab.objects
      → Taken slab slab' i
      → Heap klen n none pv slab buddy base node
      → Heap klen n (some (slab.base + i * slab.size)) pv slab' buddy base node
  Heap-alloc_node {pv} {slab'} {i} lt t h =
      let new = slab.base + i * slab.size in
      let dead : ¬ (0 < (node new).refcnt) =
        λ live. (Taken-kept h.slab_valid t new (h.slot new live)).1 refl in
      record {
        slab_valid = t.valid;
        buddy_valid = h.buddy_valid;
        place = h.place;
        wide = omega (arith, h.wide, t.place.1);
        slot = λ a live. (Taken-kept h.slab_valid t a (h.slot a live)).0;
        block = h.block;
        apart = h.apart;
        fresh = λ a e.
            subst (λ x. HasSlot slab' x × ((node x).refcnt ≡ 0)) (some-injective _ _ e)
              (Taken-new h.slab_valid t lt, omega (arith, dead));
        room = h.room;
        word = h.word;
        slot_owner = λ a q. elim (Taken-only h.slab_valid t a q) [
          | inl old ↦ elim (h.slot_owner a old) [ inl lt ↦ inl lt | inr e ↦ absurd (cc e) ]
          | inr e ↦ inr (ap some (sym e))
        ];
        block_owner = h.block_owner;
      }

  pub Heap-alloc_value :
      {pn : Option ℕ} {buddy' : Buddy} {i j len : ℕ}
      → len ≤ pow2 j * buddy.size
      → HandedOut n buddy buddy' i j
      → Heap klen n pn none slab buddy base node
      → Heap klen n pn (some (address buddy i j, len)) slab buddy' base node
  Heap-alloc_value {pn} {buddy'} {i} {j} {len} fits t h = record {
    slab_valid = h.slab_valid;
    buddy_valid = t.valid;
    place = t.place.0 ∙ h.place;
    wide = h.wide;
    slot = h.slot;
    block = λ a live.
        (HandedOut-kept h.buddy_valid t (base + (node a).value_off) (node a).valuelen
          (h.block a live)).0;
    apart = h.apart;
    fresh = h.fresh;
    room = λ v l e.
        subst
          (λ (x : ℕ × ℕ).
            HasRoom n buddy' x.0 x.1
            × ((a : ℕ) → 0 < (node a).refcnt → base + (node a).value_off ≢ x.0))
          (some-injective _ _ e)
          (
            HandedOut-new h.buddy_valid t len fits,
            λ a live.
                (HandedOut-kept h.buddy_valid t (base + (node a).value_off) (node a).valuelen
                  (h.block a live)).1,
          );
    word = h.word;
    slot_owner = h.slot_owner;
    block_owner = λ v q. elim (HandedOut-only h.buddy_valid t v q) [
      | inl old ↦ elim (h.block_owner v old) [ inl o ↦ inl o | inr (l, e) ↦ absurd (cc e) ]
      | inr e ↦ inr (len, ap (λ x. some (x, len)) (sym e))
    ];
  }

  pub Heap-free_value :
      {pn : Option ℕ} {v len : ℕ}
      → Heap klen n pn (some (v, len)) slab buddy base node
      → (buddy' : Buddy) × (Buddy.free buddy v ≡ some buddy')
        × Heap klen n pn none slab buddy' base node
  Heap-free_value {pn} {v} {len} h =
      let (q, apart) = h.room v len refl in
      let (buddy', e, valid, at, kept, only) = buddy_free_lem h.buddy_valid (HasRoom→HasBlock q) in
      (
        buddy',
        e,
        record {
          slab_valid = h.slab_valid;
          buddy_valid = valid;
          place = at ∙ h.place;
          wide = h.wide;
          slot = h.slot;
          block = λ a live.
              kept (base + (node a).value_off) (node a).valuelen (h.block a live) (apart a live);
          apart = h.apart;
          fresh = h.fresh;
          room = λ w l e'. absurd (cc e');
          word = h.word;
          slot_owner = h.slot_owner;
          block_owner = λ w p.
              let (old, ne) = only w p in
              elim (h.block_owner w old) [
                | inl o ↦ inl o
                | inr (l, e') ↦ absurd (ne (ap (λ (x : ℕ × ℕ). x.0) (sym (some-injective _ _ e'))))
              ];
        },
      )

  pub Heap-free_node :
      {pv : Option (ℕ × ℕ)} {a : ℕ}
      → Heap klen n (some a) pv slab buddy base node
      → (slab' : Slab) × (Slab.free slab a ≡ some slab') × Heap klen n none pv slab' buddy base node
  Heap-free_node {pv} {a} h =
      let (q, dead) = h.fresh a refl in
      let (i, slab', e, at, t) = slab_free_lem h.slab_valid q in
      (
        slab',
        e,
        record {
          slab_valid = t.valid;
          buddy_valid = h.buddy_valid;
          place = h.place;
          wide = omega (arith, h.wide, t.place.1);
          slot = λ x live.
              Returned-kept t x (h.slot x live)
                (λ w. absurd (omega (arith, live, dead, ap (λ y. (node y).refcnt) (w ∙ sym at))));
          block = h.block;
          apart = h.apart;
          fresh = λ x e'. absurd (cc e');
          room = h.room;
          word = h.word;
          slot_owner = λ x p.
              let (old, ne) = Returned-only h.slab_valid t x p in
              elim (h.slot_owner x old) [
                | inl lt ↦ inl lt
                | inr e' ↦ absurd (ne (sym (some-injective _ _ e') ∙ at))
              ];
          block_owner = h.block_owner;
        },
      )

-- The pending slot and block become those of the node.
pub Heap-publish :
    {klen n : ℕ} {slab : Slab} {buddy : Buddy} {base : ℕ} {node : ℕ → KeyNode} {a v len : ℕ}
    (z : KeyNode)
    → base + z.value_off ≡ v
    → z.valuelen ≡ len
    → z.refcnt ≡ 1
    → Heap klen n (some a) (some (v, len)) slab buddy base node
    → Heap klen n none none slab buddy base (store node a z)
Heap-publish {klen} {n} {slab} {buddy} {base} {node} {a} {v} {len} z at full one h =
    let (slot, dead) = h.fresh a refl in
    let (block, apart) = h.room v len refl in
    record {
      slab_valid = h.slab_valid;
      buddy_valid = h.buddy_valid;
      place = h.place;
      wide = h.wide;
      slot =
          store_all (λ x y. 0 < y.refcnt → HasSlot slab x) node a z (λ _. slot) (λ x ne. h.slot x);
      block =
          store_all (λ x y. 0 < y.refcnt → HasRoom n buddy (base + y.value_off) y.valuelen) node a z
            (λ _.
              subst (λ l. HasRoom n buddy (base + z.value_off) l) (sym full)
                (subst (λ x. HasRoom n buddy x len) (sym at) block))
            (λ x ne. h.block x);
      apart =
          store_all
            (λ x y.
              (c : ℕ)
              → 0 < y.refcnt
              → 0 < (store node a z c).refcnt
              → y.value_off ≡ (store node a z c).value_off
              → x ≡ c)
            node a z
            (store_all (λ c y. 0 < z.refcnt → 0 < y.refcnt → z.value_off ≡ y.value_off → a ≡ c) node
              a z (λ _ _ _. refl)
              (λ c ne _ live e. absurd (apart c live (ap (λ o. base + o) (sym e) ∙ at))))
            (λ x ne.
              store_all
                (λ c y.
                  0 < (node x).refcnt → 0 < y.refcnt → (node x).value_off ≡ y.value_off → x ≡ c)
                node a z (λ live _ e. absurd (apart x live (ap (λ o. base + o) e ∙ at)))
                (λ c ne'. h.apart x c));
      fresh = λ p e. absurd (cc e);
      room = λ w l e. absurd (cc e);
      word = store_all (λ x y. y.refcnt < u32_mod) node a z (omega (arith, one)) (λ x ne. h.word x);
      slot_owner = λ x q. elim (ℕ_discrete a x) [
        | yes e ↦ inl (
            subst (λ y. 0 < (store node a z y).refcnt) e
              (omega (arith, one, ap (λ (m : KeyNode). m.refcnt) (store_self node a z))))
        | no ne ↦ elim (h.slot_owner x q) [
          | inl lt ↦ inl (subst (λ (y : KeyNode). 0 < y.refcnt) (sym (store_ne node a x z ne)) lt)
          | inr e ↦ absurd (ne (some-injective _ _ e))
        ]
      ];
      block_owner = λ w q. elim (h.block_owner w q) [
        | inl (x, lt, e) ↦
            let ne : a ≢ x =
              λ same. absurd (omega (arith, lt, dead, ap (λ y. (node y).refcnt) same)) in
            inl (
              x,
              subst (λ (y : KeyNode). 0 < y.refcnt) (sym (store_ne node a x z ne)) lt,
              subst (λ (y : KeyNode). base + y.value_off ≡ w) (sym (store_ne node a x z ne)) e,
            )
        | inr (l, e) ↦ inl (
          a,
          subst (λ (y : KeyNode). 0 < y.refcnt) (sym (store_self node a z)) (omega (arith, one)),
          subst (λ (y : KeyNode). base + y.value_off ≡ w) (sym (store_self node a z))
              (at ∙ ap (λ (x : ℕ × ℕ). x.0) (some-injective _ _ e)),
        )
      ];
    }
