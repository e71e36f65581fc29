-- ===== src/Cluster/Table.antt =====
-- The table of slots of cluster/client/client.c: what a load makes of it, and that an unload
-- empties it again.
use mathlib.Core.Option.{some-injective}
use pris_kv.Base.{
  ℕ, zero, suc, ◌+◌, ◌-◌, ◌≡◌, ◌∙◌, inl, inr, arith, sym, ap, Option, none, some, Bool, true, false,
  List, [], ◌∷◌, ltb, leb, if◌then◌else◌, Bool-cases, Option-cases,
}
use pris_kv.Kv.State.{store}
use pris_kv.Cluster.{cluster_slots, SlotRange, Slots, slot_add, add_slots, add_ranges, load_nodes}

abbrev pub within : ℕ → ℕ → ℕ → Bool
within first count s = if leb first s then ltb s (first + count) else false

unfoldable pub covers : List SlotRange → ℕ → Bool
covers [] s = false
covers (r ∷ ranges) s =
    let rest = covers ranges s in
    if leb r.start s then (if leb s r.last then true else rest) else rest

-- The node of a slot, where `i` is the number of the first node.
unfoldable pub owner : ℕ → List (List SlotRange) → ℕ → Option ℕ
owner i [] s = none
owner i (ranges ∷ nodes) s = elim (owner (i + 1) nodes s) [
  | some j ↦ some j
  | none ↦ if covers ranges s then some i else none
]

unfoldable pub or_else : Option ℕ → Option ℕ → Option ℕ
or_else none o = o
or_else (some j) o = some j

slot_add_inv :
    (slots : Slots) (node slot : ℕ) {slots' : Slots}
    → slot_add slots node slot ≡ some slots'
    → slots' ≡ store slots slot (some node)
unfolding slot_add
slot_add_inv slots node slot h = ground (arith, h)

add_slots_lem :
    (node left slot : ℕ) (slots : Slots) {slots' : Slots}
    → add_slots node left slot slots ≡ some slots'
    → (s : ℕ) → slots' s ≡ (if within slot left s then some node else slots s)
unfolding add_slots
add_slots_lem node zero slot slots {slots'} h s =
    ap (λ f. f s) (sym (some-injective _ _ h)) ∙ ground arith
add_slots_lem node (suc left) slot slots {slots'} h s =
    elim (Option-cases (slot_add slots node slot)) [
      | inl e ↦ absurd (ground (arith, h, e))
      | inr (t, e) ↦
          let rest : add_slots node left (slot + 1) t ≡ some slots' = ground (arith, h, e) in
          let at : t s ≡ store slots slot (some node) s =
            ap (λ f. f s) (slot_add_inv slots node slot e) in
          ground (arith, add_slots_lem node left (slot + 1) t rest s, at)
    ]

add_ranges_lem :
    (node : ℕ) (ranges : List SlotRange) (slots : Slots) {slots' : Slots}
    → add_ranges node ranges slots ≡ some slots'
    → (s : ℕ) → slots' s ≡ (if covers ranges s then some node else slots s)
unfolding add_ranges covers
add_ranges_lem node [] slots h s = ap (λ f. f s) (sym (some-injective _ _ h))
add_ranges_lem node (r ∷ ranges) slots {slots'} h s = elim (Bool-cases (leb r.start r.last)) [
  | inr f ↦ absurd (ground (arith, h, f))
  | inl ordered ↦ elim (Bool-cases (ltb r.last cluster_slots)) [
    | inr f ↦ absurd (ground (arith, h, ordered, f))
    | inl small ↦ elim (Option-cases (add_slots node (r.last + 1 - r.start) r.start slots)) [
      | inl e ↦ absurd (ground (arith, h, ordered, small, e))
      | inr (t, e) ↦
          let rest : add_ranges node ranges t ≡ some slots' =
            ground (arith, h, ordered, small, e) in
          let at = add_slots_lem node (r.last + 1 - r.start) r.start slots e s in
          ground (arith, add_ranges_lem node ranges t rest s, at, ordered)
    ]
  ]
]

pub load_nodes_lem :
    (opens : ℕ → Bool) (i : ℕ) (nodes : List (List SlotRange)) (slots : Slots) {slots' : Slots}
    → load_nodes opens i nodes slots ≡ some slots'
    → (s : ℕ) → slots' s ≡ or_else (owner i nodes s) (slots s)
unfolding load_nodes owner or_else
load_nodes_lem opens i [] slots h s = ap (λ f. f s) (sym (some-injective _ _ h))
load_nodes_lem opens i (ranges ∷ nodes) slots {slots'} h s = elim (Bool-cases (opens i)) [
  | inr f ↦ absurd (ground (arith, h, f))
  | inl t ↦ elim (Option-cases (add_ranges i ranges slots)) [
    | inl e ↦ absurd (ground (arith, h, t, e))
    | inr (u, e) ↦
        let rest : load_nodes opens (i + 1) nodes u ≡ some slots' = ground (arith, h, t, e) in
        let at = add_ranges_lem i ranges slots e s in
        let later = load_nodes_lem opens (i + 1) nodes u rest s in
        elim (Option-cases (owner (i + 1) nodes s)) [
          | inl gone ↦ ground (arith, later, at, gone)
          | inr (j, there) ↦ ground (arith, later, there)
        ]
  ]
]
