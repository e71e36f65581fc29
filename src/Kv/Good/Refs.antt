-- ===== src/Kv/Good/Refs.antt =====
-- The invariant of the store under the steps that move references: `priskv_keynode_ref`, the end
-- of a search, and a node that leaves its bucket.
use pris_kv.Base.{
  ℕ, suc, ◌+◌, ◌-◌, ◌%◌, ◌≤◌, ◌<◌, ◌≡◌, ◌≢◌, ◌∙◌, Option, List, ◌==◌, if◌then◌else◌, arith, refl,
  sym, ap, ap₂, subst, inl, inr, ℕ_discrete, dec_lt, length,
}
use pris_kv.Base.Word.{u32_mod, u32}
use pris_kv.Buddy.{Buddy}
use pris_kv.Slab.{Slab}
use pris_kv.Kv.State.{Kv, KeyNode, store, set_node, list_del, keynode_ref}
use pris_kv.Kv.Find.{unlink}
use pris_kv.Kv.Owned.{HasRoom, HasRoom-less}
use pris_kv.Kv.Good.{times, Heap, Index, Good, home}
use pris_kv.Kv.Good.Counts.{times-list_del, times-list_del_le, times-list_del_ne}

-- One more and one less reference that callers hold.
abbrev pub more : (ℕ → ℕ) → ℕ → ℕ → ℕ
more held a x = if a == x then suc (held x) else held x

abbrev pub less : (ℕ → ℕ) → ℕ → ℕ → ℕ
less held a x = if a == x then held x - 1 else held x

pub more_self : (held : ℕ → ℕ) (a : ℕ) → more held a a ≡ suc (held a)
more_self held a = ground arith

pub more_ne : (held : ℕ → ℕ) (a x : ℕ) → a ≢ x → more held a x ≡ held x
more_ne held a x ne = ground (arith, ne)

pub less_self : (held : ℕ → ℕ) (a : ℕ) → less held a a ≡ held a - 1
less_self held a = ground arith

pub less_ne : (held : ℕ → ℕ) (a x : ℕ) → a ≢ x → less held a x ≡ held x
less_ne held a x ne = ground (arith, ne)

pub less-more : (held : ℕ → ℕ) (a x : ℕ) → less (more held a) a x ≡ held x
less-more held a x = ground arith

pub store_self {ℓ} : {A : Type ℓ} (f : ℕ → A) (a : ℕ) (v : A) → store f a v a ≡ v
store_self f a v = ground arith

pub store_ne {ℓ} : {A : Type ℓ} (f : ℕ → A) (a x : ℕ) (v : A) → a ≢ x → store f a v x ≡ f x
store_ne f a x v ne = ground (arith, ne)

-- A statement on each node, after one was stored.
pub store_all :
    {A : Type 0} (P : ℕ → A → Type 0) (f : ℕ → A) (a : ℕ) (v : A)
    → P a v
    → ((x : ℕ) → a ≢ x → P x (f x))
    → (x : ℕ) → P x (store f a v x)
store_all P f a v p q x = elim (ℕ_discrete a x) [
  | yes e ↦ subst (λ y. P y (store f a v y)) e (subst (P a) (sym (store_self f a v)) p)
  | no ne ↦ subst (P x) (sym (store_ne f a x v ne)) (q x ne)
]

-- Nodes that change, where those with a reference had one before, and their block.
pub Heap-node :
    {klen n : ℕ} {pn : Option ℕ} {pv : Option (ℕ × ℕ)} {slab : Slab} {buddy : Buddy} {base : ℕ}
    {node : ℕ → KeyNode} (node' : ℕ → KeyNode)
    → ((a : ℕ)
        → 0 < (node' a).refcnt
        → (0 < (node a).refcnt)
          × ((node' a).value_off ≡ (node a).value_off)
          × ((node' a).valuelen ≤ (node a).valuelen))
    → ((a : ℕ) → 0 < (node a).refcnt → 0 < (node' a).refcnt)
    → ((a : ℕ) → (node' a).refcnt < u32_mod)
    → Heap klen n pn pv slab buddy base node
    → Heap klen n pn pv slab buddy base node'
Heap-node {klen} {n} {pn} {pv} {slab} {buddy} {base} {node} node' keep alive word h = record {
  slab_valid = h.slab_valid;
  buddy_valid = h.buddy_valid;
  place = h.place;
  wide = h.wide;
  slot = λ a lt. h.slot a (keep a lt).0;
  block = λ a lt.
      subst (λ x. HasRoom n buddy (base + x) (node' a).valuelen) (sym (keep a lt).1)
        (HasRoom-less (keep a lt).2 (h.block a (keep a lt).0));
  apart = λ a c lt lt' e.
      h.apart a c (keep a lt).0 (keep c lt').0 (sym (keep a lt).1 ∙ (e ∙ (keep c lt').1));
  fresh = λ a e. (
    (h.fresh a e).0,
    elim (dec_lt 0 (node' a).refcnt) [
      | yes lt ↦ absurd (omega (arith, (keep a lt).0, (h.fresh a e).1))
      | no ge ↦ omega (arith, ge)
    ],
  );
  room = λ v l e. (
    (h.room v l e).0,
    λ a lt x. (h.room v l e).1 a (keep a lt).0 (ap (λ y. base + y) (sym (keep a lt).1) ∙ x),
  );
  word = word;
  slot_owner = λ a q. elim (h.slot_owner a q) [ inl lt ↦ inl (alive a lt) | inr e ↦ inr e ];
  block_owner = λ v q. elim (h.block_owner v q) [
    | inl (a, lt, e) ↦
        let there = alive a lt in inl (a, there, ap (λ x. base + x) (keep a there).1 ∙ e)
    | inr e ↦ inr e
  ];
}

-- Nodes that keep their keys.
pub Index-node :
    {hash : List ℕ → ℕ} {held : ℕ → ℕ} {buckets : ℕ → List ℕ} {bucket_count : ℕ}
    {node : ℕ → KeyNode} (held' : ℕ → ℕ) (node' : ℕ → KeyNode)
    → ((a : ℕ) → ((node' a).key ≡ (node a).key) × ((node' a).keylen ≡ (node a).keylen))
    → ((a : ℕ) → (node' a).refcnt ≡ held' a + times a (buckets (home hash bucket_count node a)))
    → Index hash held buckets bucket_count node
    → Index hash held' buckets bucket_count node'
Index-node {hash} {held} {buckets} {bucket_count} {node} held' node' same refs h = record {
  refs =
      λ a. refs a ∙ ap (λ k. held' a + times a (buckets (hash k % bucket_count))) (sym (same a).0);
  homes = λ a b lt. ap (λ k. hash k % bucket_count) (same a).0 ∙ h.homes a b lt;
  single = h.single;
  sized = λ a b lt. (same a).1 ∙ (h.sized a b lt ∙ ap length (sym (same a).0));
  unique = λ a c b lt lt' e. h.unique a c b lt lt' (sym (same a).0 ∙ (e ∙ (same c).0));
}

module _ {hash : List ℕ → ℕ} {klen n : ℕ} {held : ℕ → ℕ} {pn : Option ℕ} {pv : Option (ℕ × ℕ)}
    {kv : Kv} where
  pub Good-held :
      (held' : ℕ → ℕ)
      → ((x : ℕ) → held x ≡ held' x)
      → Good hash klen n held pn pv kv
      → Good hash klen n held' pn pv kv
  Good-held held' e g = record {
    heap = g.heap;
    index =
        Index-node held' kv.node (λ a. (refl, refl))
          (λ a.
            g.index.refs a
            ∙ ap (λ z. z + times a (kv.buckets (home hash kv.bucket_count kv.node a))) (e a))
          g.index;
  }

  -- A node that changes but for its key and the place of its value, with the references to it.
  pub Good-count :
      (a : ℕ) (m : KeyNode) (held' : ℕ → ℕ)
      → (m.value_off ≡ (kv.node a).value_off)
        × (m.key ≡ (kv.node a).key)
        × (m.keylen ≡ (kv.node a).keylen)
        × (m.valuelen ≤ (kv.node a).valuelen)
      → (0 < m.refcnt → 0 < (kv.node a).refcnt)
      → (0 < (kv.node a).refcnt → 0 < m.refcnt)
      → m.refcnt < u32_mod
      → m.refcnt ≡ held' a + times a (kv.buckets (home hash kv.bucket_count kv.node a))
      → ((x : ℕ) → a ≢ x → held' x ≡ held x)
      → Good hash klen n held pn pv kv
      → Good hash klen n held' pn pv (set_node kv a m)
  Good-count a m held' same live alive word refs others g = record {
    heap =
        Heap-node (store kv.node a m)
          (store_all
            (λ x z.
              0 < z.refcnt
              → (0 < (kv.node x).refcnt)
                × (z.value_off ≡ (kv.node x).value_off)
                × (z.valuelen ≤ (kv.node x).valuelen))
            kv.node a m (λ lt. (live lt, same.0, same.3)) (λ x ne lt. (lt, refl, omega arith)))
          (store_all (λ x z. 0 < (kv.node x).refcnt → 0 < z.refcnt) kv.node a m alive
            (λ x ne lt. lt))
          (store_all (λ x z. z.refcnt < u32_mod) kv.node a m word (λ x ne. g.heap.word x)) g.heap;
    index =
        Index-node held' (store kv.node a m)
          (store_all (λ x z. (z.key ≡ (kv.node x).key) × (z.keylen ≡ (kv.node x).keylen)) kv.node a
            m (same.1, same.2) (λ x ne. (refl, refl)))
          (store_all
            (λ x z. z.refcnt ≡ held' x + times x (kv.buckets (home hash kv.bucket_count kv.node x)))
            kv.node a m refs
            (λ x ne.
              g.index.refs x
              ∙ ap (λ z. z + times x (kv.buckets (home hash kv.bucket_count kv.node x)))
                  (sym (others x ne))))
          g.index;
  }

  -- A node that changes but for its count, its key and the place of its value.
  pub Good-set_node :
      (a : ℕ) (m : KeyNode)
      → m.refcnt ≡ (kv.node a).refcnt
      → (m.value_off ≡ (kv.node a).value_off)
        × (m.key ≡ (kv.node a).key)
        × (m.keylen ≡ (kv.node a).keylen)
        × (m.valuelen ≤ (kv.node a).valuelen)
      → Good hash klen n held pn pv kv
      → Good hash klen n held pn pv (set_node kv a m)
  Good-set_node a m r same g =
      Good-count a m held same (λ lt. omega (arith, lt, r)) (λ lt. omega (arith, lt, r))
        (omega (arith, r, g.heap.word a)) (r ∙ g.index.refs a) (λ x ne. refl) g

  -- `priskv_keynode_ref`, where the count does not wrap.
  pub Good-keynode_ref :
      (a : ℕ)
      → 0 < (kv.node a).refcnt
      → suc (kv.node a).refcnt < u32_mod
      → Good hash klen n held pn pv kv
      → Good hash klen n (more held a) pn pv (keynode_ref kv a)
  unfolding keynode_ref
  Good-keynode_ref a live room g =
      let m : KeyNode = kv.node a in
      let up : u32 (m.refcnt + 1) ≡ suc m.refcnt = omega (arith, room) in
      let self : more held a a ≡ suc (held a) = ground arith in
      Good-count a (record m { refcnt = u32 (m.refcnt + 1) }) (more held a)
        (refl, refl, refl, omega arith) (λ lt. live) (λ lt. omega (arith, up))
        (omega (arith, up, room)) (omega (arith, up, self, g.index.refs a))
        (λ x ne. ground (arith, ne)) g

  -- A node that leaves its bucket leaves the reference of the bucket to the caller.
  pub Good-unlink :
      (b a : ℕ)
      → 0 < times a (kv.buckets b)
      → Good hash klen n held pn pv kv
      → Good hash klen n (more held a) pn pv (unlink kv b a)
  unfolding unlink
  Good-unlink b a lt g =
      let l = list_del a (kv.buckets b) in
      let fewer : (i x : ℕ) → times x (store kv.buckets b l i) ≤ times x (kv.buckets i) =
        store_all (λ i z. (x : ℕ) → times x z ≤ times x (kv.buckets i)) kv.buckets b l
          (λ x. times-list_del_le a x (kv.buckets b)) (λ i ne x. omega arith) in
      let others : (x : ℕ)
          → a ≢ x
          → (i : ℕ) → times x (store kv.buckets b l i) ≡ times x (kv.buckets i) =
        λ x ne.
          store_all (λ i z. times x z ≡ times x (kv.buckets i)) kv.buckets b l
            (times-list_del_ne a x (kv.buckets b) ne) (λ i ne'. refl) in
      let at = g.index.homes a b lt in
      record {
        heap = g.heap;
        index = record {
          refs = λ x. elim (ℕ_discrete a x) [
            | no ne ↦
                g.index.refs x
                ∙ ap₂ (λ y z. y + z) (sym (more_ne held a x ne))
                    (sym (others x ne (home hash kv.bucket_count kv.node x)))
            | yes e ↦
                subst
                  (λ x.
                    (kv.node x).refcnt
                    ≡ more held a x
                      + times x (store kv.buckets b l (home hash kv.bucket_count kv.node x)))
                  e
                  (omega (
                    arith,
                    g.index.refs a,
                    more_self held a,
                    times-list_del a (kv.buckets b) lt,
                    ap (λ i. times a (kv.buckets i)) at,
                    ap (λ i. times a (store kv.buckets b l i)) at,
                    ap (times a) (store_self kv.buckets b l),
                  ))
          ];
          homes = λ x i lt'. g.index.homes x i (omega (arith, lt', fewer i x));
          single = λ x i. omega (arith, fewer i x, g.index.single x i);
          sized = λ x i lt'. g.index.sized x i (omega (arith, lt', fewer i x));
          unique = λ x y i lt' lt''.
              g.index.unique x y i (omega (arith, lt', fewer i x)) (omega (arith, lt'', fewer i y));
        };
      }
