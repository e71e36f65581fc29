-- ===== src/Cluster/Unload.antt =====
-- The unload of the table of slots (cluster/client/client.c) empties what a load has filled.
use mathlib.Core.Option.{some-injective}
use pris_kv.Base.{
  ℕ, zero, suc, ◌+◌, ◌-◌, ◌≤◌, ◌<◌, ◌≡◌, ◌∙◌, inl, inr, arith, refl, sym, ap, subst, Option, none,
  some, Bool, true, false, List, [], ◌∷◌, ltb, leb, ◌==◌, if◌then◌else◌, length, Bool-cases,
  Option-cases, ℕ_discrete,
}
use pris_kv.Kv.State.{store}
use pris_kv.Cluster.{
  cluster_slots, SlotRange, Slots, slot_add, slot_delete, add_slots, add_ranges, load_nodes,
  meta_data_load, delete_slots, node_unload, unload_nodes, meta_data_unload, key_hash_slot,
  get_node,
}
use pris_kv.Cluster.Table.{within, owner, or_else, load_nodes_lem}

-- No slot outside the table has a node.
abbrev Small : Slots → Type 0
Small slots = (s : ℕ) → cluster_slots ≤ s → slots s ≡ none

add_slots-Small :
    (node left slot : ℕ) (slots : Slots) {slots' : Slots}
    → Small slots
    → add_slots node left slot slots ≡ some slots'
    → Small slots'
unfolding add_slots slot_add
add_slots-Small node zero slot slots small h = subst Small (some-injective _ _ h) small
add_slots-Small node (suc left) slot slots {slots'} small h =
    elim (Bool-cases (ltb slot cluster_slots)) [
      | inr f ↦ absurd (ground (arith, h, f))
      | inl t ↦ elim (Option-cases (slots slot)) [
        | inr (old, e) ↦ absurd (ground (arith, h, t, e))
        | inl e ↦
            add_slots-Small node left (slot + 1) (store slots slot (some node))
              (λ s le. ground (arith, small s le, le, t)) (ground (arith, h, t, e))
      ]
    ]

add_ranges-Small :
    (node : ℕ) (ranges : List SlotRange) (slots : Slots) {slots' : Slots}
    → Small slots
    → add_ranges node ranges slots ≡ some slots'
    → Small slots'
unfolding add_ranges
add_ranges-Small node [] slots small h = subst Small (some-injective _ _ h) small
add_ranges-Small node (r ∷ ranges) slots {slots'} small h = elim (Bool-cases (leb r.start r.last)) [
  | inr f ↦ absurd (ground (arith, h, f))
  | inl ordered ↦ elim (Bool-cases (ltb r.last cluster_slots)) [
    | inr f ↦ absurd (ground (arith, h, ordered, f))
    | inl low ↦ elim (Option-cases (add_slots node (r.last + 1 - r.start) r.start slots)) [
      | inl e ↦ absurd (ground (arith, h, ordered, low, e))
      | inr (t, e) ↦
          add_ranges-Small node ranges t
            (add_slots-Small node (r.last + 1 - r.start) r.start slots small e)
            (ground (arith, h, ordered, low, e))
    ]
  ]
]

load_nodes-Small :
    (opens : ℕ → Bool) (i : ℕ) (nodes : List (List SlotRange)) (slots : Slots) {slots' : Slots}
    → Small slots
    → load_nodes opens i nodes slots ≡ some slots'
    → Small slots'
unfolding load_nodes
load_nodes-Small opens i [] slots small h = subst Small (some-injective _ _ h) small
load_nodes-Small opens i (ranges ∷ nodes) slots {slots'} small h = elim (Bool-cases (opens i)) [
  | inr f ↦ absurd (ground (arith, h, f))
  | inl t ↦ elim (Option-cases (add_ranges i ranges slots)) [
    | inl e ↦ absurd (ground (arith, h, t, e))
    | inr (u, e) ↦
        load_nodes-Small opens (i + 1) nodes u (add_ranges-Small i ranges slots small e)
          (ground (arith, h, t, e))
  ]
]

-- What is left of a slot without the node.
without : ℕ → Option ℕ → Option ℕ
without node none = none
without node (some j) = if j == node then none else some j

-- A slot after the first of a run of slots, and the others, have lost the node.
module _ (node slot left s : ℕ) (slots : Slots) (o : Option ℕ) where
  deleted_none :
      o ≡ (if within (slot + 1) left s then without node (slots s) else slots s)
      → slots slot ≡ none
      → o ≡ (if within slot (suc left) s then without node (slots s) else slots s)
  unfolding without
  deleted_none at e = elim (ℕ_discrete slot s) [
    | yes same ↦ let e' : slots s ≡ none = ap slots (sym same) ∙ e in ground (arith, at, e', same)
    | no ne ↦ ground (arith, at, ne)
  ]

  deleted_other :
      {j : ℕ}
      → o ≡ (if within (slot + 1) left s then without node (slots s) else slots s)
      → slots slot ≡ some j
      → (j == node) ≡ false
      → o ≡ (if within slot (suc left) s then without node (slots s) else slots s)
  unfolding without
  deleted_other {j} at e other = elim (ℕ_discrete slot s) [
    | yes same ↦
        let e' : slots s ≡ some j = ap slots (sym same) ∙ e in ground (arith, at, e', same, other)
    | no ne ↦ ground (arith, at, ne)
  ]

  deleted_same :
      {j : ℕ}
      → o ≡ (
          if within (slot + 1) left s
          then without node (store slots slot none s)
          else store slots slot none s)
      → slots slot ≡ some j
      → (j == node) ≡ true
      → o ≡ (if within slot (suc left) s then without node (slots s) else slots s)
  unfolding without
  deleted_same {j} at e gone = elim (ℕ_discrete slot s) [
    | yes same ↦
        let e' : slots s ≡ some j = ap slots (sym same) ∙ e in ground (arith, at, e', same, gone)
    | no ne ↦ ground (arith, at, ne)
  ]

delete_slots_lem :
    (node left slot : ℕ) (slots : Slots)
    → slot + left ≤ cluster_slots
    → (slots' : Slots) × (delete_slots node left slot slots ≡ some slots')
      × ((s : ℕ) → slots' s ≡ (if within slot left s then without node (slots s) else slots s))
unfolding delete_slots slot_delete without
delete_slots_lem node zero slot slots le = (slots, refl, λ s. ground arith)
delete_slots_lem node (suc left) slot slots le = elim (Option-cases (slots slot)) [
  | inl e ↦
      let (t, f, at) = delete_slots_lem node left (slot + 1) slots (omega (arith, le)) in
      (t, ground (arith, e, f), λ s. deleted_none node slot left s slots (t s) (at s) e)
  | inr (j, e) ↦ elim (Bool-cases (j == node)) [
    | inr other ↦
        let (t, f, at) = delete_slots_lem node left (slot + 1) slots (omega (arith, le)) in
        (
          t,
          ground (arith, e, f, other),
          λ s. deleted_other node slot left s slots (t s) (at s) e other,
        )
    | inl same ↦
        let low : ltb slot cluster_slots ≡ true = ground (arith, le) in
        let (t, f, at) =
          delete_slots_lem node left (slot + 1) (store slots slot none) (omega (arith, le)) in
        (
          t,
          ground (arith, e, f, same, low),
          λ s. deleted_same node slot left s slots (t s) (at s) e same,
        )
  ]
]

without_from : ℕ → ℕ → Option ℕ → Option ℕ
without_from i left none = none
without_from i left (some j) = if within i left j then none else some j

unload_nodes_lem :
    (left i : ℕ) (slots : Slots)
    → Small slots
    → (slots' : Slots) × (unload_nodes left i slots ≡ some slots')
      × ((s : ℕ) → slots' s ≡ without_from i left (slots s))
unfolding unload_nodes node_unload without_from without
unload_nodes_lem zero i slots small = (
  slots,
  refl,
  λ s. elim (Option-cases (slots s)) [ inl e ↦ ground (arith, e) | inr (j, e) ↦ ground (arith, e) ],
)
unload_nodes_lem (suc left) i slots small =
    let (t, e, at) = delete_slots_lem i cluster_slots 0 slots (omega arith) in
    let gone : (s : ℕ) → t s ≡ without i (slots s) = λ s. elim (Bool-cases (ltb s cluster_slots)) [
      | inl low ↦ ground (arith, at s, low)
      | inr high ↦
          let no_node : slots s ≡ none = small s (ground (arith, high)) in
          ground (arith, at s, high, no_node)
    ] in
    let small' : Small t = λ s le. ground (arith, gone s, small s le) in
    let (u, f, rest) = unload_nodes_lem left (i + 1) t small' in
    (
      u,
      ground (arith, e, f),
      λ s. elim (Option-cases (slots s)) [
        | inl none_here ↦ ground (arith, rest s, gone s, none_here)
        | inr (j, here) ↦ ground (arith, rest s, gone s, here)
      ],
    )

owner_range :
    (i : ℕ) (nodes : List (List SlotRange)) (s : ℕ) {j : ℕ}
    → owner i nodes s ≡ some j
    → (i ≤ j) × (j < i + length nodes)
unfolding owner
owner_range i [] s h = absurd (cc h)
owner_range i (ranges ∷ nodes) s {j} h = elim (Option-cases (owner (i + 1) nodes s)) [
  | inr (k, e) ↦
      let (lo, hi) = owner_range (i + 1) nodes s e in
      let same : k ≡ j = ground (arith, h, e) in (omega (arith, lo, same), omega (arith, hi, same))
  | inl e ↦ let same : i ≡ j = ground (arith, h, e) in (omega (arith, same), omega (arith, same))
]

abbrev pub no_slots : Slots
no_slots = λ s. none

module _ (crc16 : List ℕ → ℕ) where
  -- After a load of the nodes of a cluster into an empty table a key goes to a node with a range
  -- that covers its slot, to the last one where there are several, and to none where there is none.
  -- It is asked that the load failed no assertion.
  pub meta_data_load-get_node :
      (opens : ℕ → Bool) (nodes : List (List SlotRange)) (key : List ℕ) {slots : Slots}
      → meta_data_load opens nodes no_slots ≡ some slots
      → get_node crc16 slots key ≡ owner 0 nodes (key_hash_slot crc16 key)
  unfolding meta_data_load get_node or_else
  meta_data_load-get_node opens nodes key {slots} h =
      let s = key_hash_slot crc16 key in
      let at = load_nodes_lem opens 0 nodes no_slots h s in
      elim (Option-cases (owner 0 nodes s)) [
        | inl e ↦ ground (arith, at, e)
        | inr (j, e) ↦ ground (arith, at, e)
      ]

-- An unload takes back a load: after a load of the nodes of a cluster into an empty table, an unload
-- of as many nodes fails no assertion and leaves no slot with a node. It is asked that the load
-- failed no assertion.
pub meta_data_load-meta_data_unload :
    (opens : ℕ → Bool) (nodes : List (List SlotRange)) {slots : Slots}
    → meta_data_load opens nodes no_slots ≡ some slots
    → (slots' : Slots) × (meta_data_unload (length nodes) slots ≡ some slots')
      × ((s : ℕ) → slots' s ≡ none)
unfolding meta_data_load meta_data_unload or_else without_from
meta_data_load-meta_data_unload opens nodes {slots} h =
    let small = load_nodes-Small opens 0 nodes no_slots (λ s le. refl) h in
    let (t, e, at) = unload_nodes_lem (length nodes) 0 slots small in
    (
      t,
      e,
      λ s.
          let loaded = load_nodes_lem opens 0 nodes no_slots h s in
          elim (Option-cases (owner 0 nodes s)) [
            | inl gone ↦ ground (arith, at s, loaded, gone)
            | inr (j, there) ↦
                let (_, hi) = owner_range 0 nodes s there in ground (arith, at s, loaded, there, hi)
          ],
    )
