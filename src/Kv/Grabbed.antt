-- ===== src/Kv/Grabbed.antt =====
-- What the part of `priskv_set_key` (server/kv.c) that takes memory leaves of the store.
use pris_kv.Base.{ℕ, ◌≡◌, ◌≤◌, ◌⊎◌, inl, inr, arith, refl, sym, Option, some, Option-cases, subst}
use pris_kv.Buddy
use pris_kv.Buddy.{Buddy}
use pris_kv.Slab
use pris_kv.Slab.{Slab}
use pris_kv.Kv.State.{Kv}
use pris_kv.Kv.Evict.{Grab, grab_node, grab_value, grab}
use pris_kv.Kv.Shrink.{Shrinks, Shrinks-trans}

alloc_base :
    (b : Buddy) (size : ℕ) {b' : Buddy} {o : Option ℕ}
    → Buddy.alloc b size ≡ some (b', o)
    → (b'.base ≡ b.base) × ((v : ℕ) → o ≡ some v → b.base ≤ v)
unfolding Buddy.alloc Buddy.take_node
alloc_base b size h = ground arith

-- What SET has got of the store `kv`.
pub record Grabbed (kv : Kv) (g : Grab) : Type 0 where
  pub shrinks : Shrinks kv g.kv
  pub above : (v : ℕ) → g.vaddr ≡ some v → kv.value_buddy.base ≤ v

with_slab-Shrinks : (kv : Kv) (slab : Slab) → Shrinks kv (record kv { key_slab = slab })
with_slab-Shrinks kv slab = record {
  absent = λ key b ne h. h;
  count = refl;
  base = refl;
  buddy = refl;
}

with_buddy-Shrinks :
    (kv : Kv) (buddy : Buddy)
    → buddy.base ≡ kv.value_buddy.base
    → Shrinks kv (record kv { value_buddy = buddy })
with_buddy-Shrinks kv buddy e = record {
  absent = λ key b ne h. h;
  count = refl;
  base = refl;
  buddy = e;
}

grab_node_inv :
    (g : Grab) {g' : Grab}
    → grab_node g ≡ some g'
    → (g' ≡ g)
      ⊎ ((slab : Slab) × (a : Option ℕ) × (g'
            ≡ record { kv = record g.kv { key_slab = slab }; keynode = a; vaddr = g.vaddr }))
unfolding grab_node
grab_node_inv g h = elim (Option-cases g.keynode) [
  | inr (a, e) ↦ inl (ground (arith, h, e))
  | inl n ↦ elim (Option-cases (Slab.alloc g.kv.key_slab)) [
    | inl e ↦ absurd (ground (arith, h, n, e))
    | inr ((slab, a), e) ↦ inr (slab, a, ground (arith, h, n, e))
  ]
]

grab_value_inv :
    (g : Grab) (valuelen : ℕ) {g' : Grab}
    → grab_value g valuelen ≡ some g'
    → (g' ≡ g)
      ⊎ ((buddy : Buddy) × (v : Option ℕ) × (Buddy.alloc g.kv.value_buddy valuelen
            ≡ some (buddy, v))
          × (g' ≡ record {
            kv = record g.kv { value_buddy = buddy };
            keynode = g.keynode;
            vaddr = v;
          }))
unfolding grab_value
grab_value_inv g valuelen h = elim (Option-cases g.vaddr) [
  | inr (v, e) ↦ inl (ground (arith, h, e))
  | inl n ↦ elim (Option-cases (Buddy.alloc g.kv.value_buddy valuelen)) [
    | inl e ↦ absurd (ground (arith, h, n, e))
    | inr ((b, v), e) ↦ inr (b, v, e, ground (arith, h, n, e))
  ]
]

grab_node-Grabbed :
    (kv : Kv) (g : Grab) {g' : Grab} → Grabbed kv g → grab_node g ≡ some g' → Grabbed kv g'
grab_node-Grabbed kv g q h = elim (grab_node_inv g h) [
  | inl e ↦ subst (λ x. Grabbed kv x) (sym e) q
  | inr (slab, a, e) ↦
      subst (λ x. Grabbed kv x) (sym e)
        (record {
          shrinks = Shrinks-trans q.shrinks (with_slab-Shrinks g.kv slab);
          above = q.above;
        })
]

grab_value-Grabbed :
    (kv : Kv) (g : Grab) (valuelen : ℕ) {g' : Grab}
    → Grabbed kv g
    → grab_value g valuelen ≡ some g'
    → Grabbed kv g'
grab_value-Grabbed kv g valuelen q h = elim (grab_value_inv g valuelen h) [
  | inl e ↦ subst (λ x. Grabbed kv x) (sym e) q
  | inr (buddy, v, al, e) ↦
      let (eb, above) = alloc_base g.kv.value_buddy valuelen al in
      subst (λ x. Grabbed kv x) (sym e)
        (record {
          shrinks = Shrinks-trans q.shrinks (with_buddy-Shrinks g.kv buddy eb);
          above = λ w e'. subst (λ x. x ≤ w) q.shrinks.buddy (above w e');
        })
]

pub grab-Grabbed :
    (kv : Kv) (g : Grab) (valuelen : ℕ) {g' : Grab}
    → Grabbed kv g
    → grab g valuelen ≡ some g'
    → Grabbed kv g'
unfolding grab
grab-Grabbed kv g valuelen q h = elim (Option-cases (grab_node g)) [
  | inl e ↦ absurd (ground (arith, h, e))
  | inr (g₁, e) ↦
      grab_value-Grabbed kv g₁ valuelen (grab_node-Grabbed kv g q e) (ground (arith, h, e))
]
