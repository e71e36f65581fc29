-- ===== src/Kv/Good/Pending.antt =====
-- The slot and the block that `priskv_set_key` of server/kv.c takes and gives back: while no node
-- owns them they are pending, and the invariant of the store holds beside them.
use pris_kv.Base.{
  ℕ, ◌+◌, ◌*◌, ◌≤◌, ◌<◌, ◌≡◌, Option, none, some, arith, refl, subst, inl, inr, Option-cases, List,
}
use pris_kv.Buddy.Valid.{address}
use pris_kv.Buddy.Alloc.{alloc_lem}
use pris_kv.Slab
use pris_kv.Slab.{Slab}
use pris_kv.Slab.Alloc.{alloc-Taken}
use pris_kv.Kv.State.{Kv}
use pris_kv.Kv.Evict.{Grab, grab_node, grab_value, grab, give_up}
use pris_kv.Kv.Good.Heaps.{Heap-alloc_node, Heap-alloc_value, Heap-free_value, Heap-free_node}
use pris_kv.Kv.Good.{Heap, Good}

-- The memory that is taken for a value of so many bytes.
unfoldable pub pending : ℕ → Option ℕ → Option (ℕ × ℕ)
pending valuelen none = none
pending valuelen (some v) = some (v, valuelen)

-- The invariant beside what SET has so far.
abbrev pub GoodGrab : (List ℕ → ℕ) → ℕ → ℕ → (ℕ → ℕ) → ℕ → Grab → Type 0
GoodGrab hash klen n held valuelen g =
    Good hash klen n held g.keynode (pending valuelen g.vaddr) g.kv

module _ {hash : List ℕ → ℕ} {klen n : ℕ} {held : ℕ → ℕ} where
  grab_node-Good :
      (g : Grab) (valuelen : ℕ)
      → GoodGrab hash klen n held valuelen g
      → (g' : Grab) × (grab_node g ≡ some g') × GoodGrab hash klen n held valuelen g'
  unfolding grab_node pending
  grab_node-Good g valuelen q = elim (Option-cases g.keynode) [
    | inr (a, e) ↦ (g, ground (arith, e), q)
    | inl e ↦
        let h : Heap klen n none (pending valuelen g.vaddr) g.kv.key_slab g.kv.value_buddy
            g.kv.value_base g.kv.node =
          subst
            (λ o.
              Heap klen n o (pending valuelen g.vaddr) g.kv.key_slab g.kv.value_buddy
                g.kv.value_base g.kv.node)
            e q.heap in
        elim (alloc-Taken h.slab_valid) [
          | inl (f, full) ↦
              let kv = g.kv in
              let g' : Grab = record { kv = kv; keynode = none; vaddr = g.vaddr } in
              (g', ground (arith, e, f), record { heap = h; index = q.index })
          | inr (i, slab, lt, f, t) ↦
              let kv = g.kv in
              let g' : Grab = record {
                kv = record kv { key_slab = slab };
                keynode = some (kv.key_slab.base + i * kv.key_slab.size);
                vaddr = g.vaddr;
              } in
              (g', ground (arith, e, f), record { heap = Heap-alloc_node lt t h; index = q.index })
        ]
  ]

  grab_value-Good :
      (g : Grab) (valuelen : ℕ)
      → 0 < valuelen
      → valuelen ≤ 2147483648
      → GoodGrab hash klen n held valuelen g
      → (g' : Grab) × (grab_value g valuelen ≡ some g') × GoodGrab hash klen n held valuelen g'
  unfolding grab_value pending
  grab_value-Good g valuelen pos small q = elim (Option-cases g.vaddr) [
    | inr (a, e) ↦ (g, ground (arith, e), q)
    | inl e ↦
        let h : Heap klen n g.keynode none g.kv.key_slab g.kv.value_buddy g.kv.value_base
            g.kv.node =
          subst
            (λ o.
              Heap klen n g.keynode (pending valuelen o) g.kv.key_slab g.kv.value_buddy
                g.kv.value_base g.kv.node)
            e q.heap in
        let (j, fits, r) = alloc_lem valuelen h.buddy_valid pos small in
        elim r [
          | inl (f, full) ↦
              let kv = g.kv in
              let g' : Grab = record { kv = kv; keynode = g.keynode; vaddr = none } in
              (g', ground (arith, e, f), record { heap = h; index = q.index })
          | inr (i, buddy, f, t) ↦
              let kv = g.kv in
              let g' : Grab = record {
                kv = record kv { value_buddy = buddy };
                keynode = g.keynode;
                vaddr = some (address kv.value_buddy i j);
              } in
              (
                g',
                ground (arith, e, f),
                record { heap = Heap-alloc_value fits.holds t h; index = q.index },
              )
        ]
  ]

  pub grab-Good :
      (g : Grab) (valuelen : ℕ)
      → 0 < valuelen
      → valuelen ≤ 2147483648
      → GoodGrab hash klen n held valuelen g
      → (g' : Grab) × (grab g valuelen ≡ some g') × GoodGrab hash klen n held valuelen g'
  unfolding grab
  grab-Good g valuelen pos small q =
      let (g₁, e, q₁) = grab_node-Good g valuelen q in
      let (g₂, f, q₂) = grab_value-Good g₁ valuelen pos small q₁ in (g₂, ground (arith, e, f), q₂)

  give_node :
      (kv : Kv) (o : Option ℕ)
      → Good hash klen n held o none kv
      → (kv' : Kv) × (elim o [
        | none ↦ some kv
        | some a ↦ elim (Slab.free kv.key_slab a) [
          | none ↦ none
          | some slab ↦ some (record kv { key_slab = slab })
        ]
      ]
          ≡ some kv')
        × Good hash klen n held none none kv'
  give_node kv none q = (kv, refl, q)
  give_node kv (some a) q =
      let (slab, e, h) = Heap-free_node q.heap in
      (record kv { key_slab = slab }, rw e refl, record { heap = h; index = q.index })

  -- The label `out`: what is pending is given back, and no assertion fails.
  pub give_up-Good :
      (g : Grab) (valuelen : ℕ)
      → GoodGrab hash klen n held valuelen g
      → (kv' : Kv) × (give_up g ≡ some kv') × Good hash klen n held none none kv'
  unfolding give_up pending
  give_up-Good g valuelen q = elim (Option-cases g.vaddr) [
    | inl e ↦
        let (kv', f, r) =
          give_node g.kv g.keynode
            (subst (λ o. Good hash klen n held g.keynode (pending valuelen o) g.kv) e q) in
        (kv', ground (arith, e, f), r)
    | inr (v, e) ↦
        let p = subst (λ o. Good hash klen n held g.keynode (pending valuelen o) g.kv) e q in
        let (buddy, b, h) = Heap-free_value p.heap in
        let kv = g.kv in
        let k : Kv = record kv { value_buddy = buddy } in
        let (kv', f, r) = give_node k g.keynode (record { heap = h; index = p.index }) in
        (kv', ground (arith, e, b, f), r)
  ]
