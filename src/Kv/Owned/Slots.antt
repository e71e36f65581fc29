-- ===== src/Kv/Owned/Slots.antt =====
-- The slot of the slab that a key node of server/kv.c owns.
use native.Mathlib.Nat.{mul-le-mul_right}
use pris_kv.Base.{
  ℕ, zero, suc, ◌+◌, ◌*◌, ◌<◌, ◌≡◌, ◌≢◌, ◌⊎◌, inl, inr, arith, sym, ap, ap₂, subst, ◌∙◌, some, List,
  [], ◌∷◌, Bool, true, false, get_elem?, set, ℕ_discrete, dec_lt, lt-length_of_get_elem?,
  get_elem?-set_self, get_elem?-set_ne, length,
}
use pris_kv.Slab
use pris_kv.Slab.{Slab}
use pris_kv.Slab.Valid as SlabValid
use pris_kv.Slab.Valid.{view}
use pris_kv.Slab.Alloc.{Taken}
use pris_kv.Slab.Free.{Returned, free-Returned}

-- The address is that of the slot `i`, which is in use.
pub record Slot (s : Slab) (a i : ℕ) : Type 0 where
  pub at : a ≡ s.base + i * s.size
  pub inside : i < s.objects
  pub used : get_elem? (view s) i ≡ some false

abbrev pub HasSlot : Slab → ℕ → Type 0
HasSlot s a = (i : ℕ) × Slot s a i

row : (x y : ℕ) → (x + 1) * y ≡ x * y + y
row x y = grind arith

lt-length_of_set :
    (l : List Bool) (i : ℕ) {v : Bool} → get_elem? (set l i true) i ≡ some v → i < length l
lt-length_of_set [] i h = absurd (cc h)
lt-length_of_set (b ∷ l) zero h = omega arith
lt-length_of_set (b ∷ l) (suc i) h = omega (arith, lt-length_of_set l i h)

-- Slots of one address are one slot.
slot_lt : (base size i k : ℕ) → 0 < size → base + i * size ≡ base + k * size → ¬ (i < k)
slot_lt base size i k pos e lt =
    absurd
      (omega (arith, mul-le-mul_right {m = i + 1} {n = k} size (omega (arith, lt)), row i size))

slot_injective : (base size i k : ℕ) → 0 < size → base + i * size ≡ base + k * size → i ≡ k
slot_injective base size i k pos e = elim (dec_lt i k) [
  | yes lt ↦ absurd (slot_lt base size i k pos e lt)
  | no ge ↦ elim (dec_lt k i) [
    | yes lt ↦ absurd (slot_lt base size k i pos (sym e) lt)
    | no ge' ↦ omega (arith, ge, ge')
  ]
]

module _ {s s' : Slab} {i : ℕ} (valid : SlabValid.IsValid s) (t : Taken s s' i) where
  -- A slot that is taken is new, and the others stay in use.
  pub Taken-kept : (a : ℕ) → HasSlot s a → HasSlot s' a × (a ≢ s.base + i * s.size)
  Taken-kept a (k, q) =
      let ne : i ≢ k = λ e. absurd (cc (t.was_free, q.used, ap (get_elem? (view s)) e)) in
      let (b, z, o) = t.place in
      (
        (
          k,
          record {
            at = q.at ∙ ap₂ (λ x y. x + k * y) (sym b) (sym z);
            inside = omega (arith, o, q.inside);
            used =
                ap (λ l. get_elem? l k) t.slots ∙ (get_elem?-set_ne (view s) i k false ne ∙ q.used);
          },
        ),
        λ e. ne (slot_injective s.base s.size i k valid.size (sym e ∙ q.at)),
      )

  pub Taken-new : i < s.objects → HasSlot s' (s.base + i * s.size)
  Taken-new lt =
      let (b, z, o) = t.place in
      (
        i,
        record {
          at = ap₂ (λ x y. x + i * y) (sym b) (sym z);
          inside = omega (arith, o);
          used =
              ap (λ l. get_elem? l i) t.slots
              ∙ get_elem?-set_self (view s) i false (lt-length_of_get_elem? (view s) i t.was_free);
        },
      )

  -- No other slot comes into use.
  pub Taken-only : (a : ℕ) → HasSlot s' a → HasSlot s a ⊎ (a ≡ s.base + i * s.size)
  Taken-only a (k, q) =
      let (b, z, o) = t.place in
      let at : a ≡ s.base + k * s.size = q.at ∙ ap₂ (λ x y. x + k * y) b z in
      elim (ℕ_discrete i k) [
        | yes e ↦ inr (at ∙ ap (λ x. s.base + x * s.size) (sym e))
        | no ne ↦ inl (
          k,
          record {
            at = at;
            inside = omega (arith, o, q.inside);
            used =
                sym (get_elem?-set_ne (view s) i k false ne)
                ∙ (ap (λ l. get_elem? l k) (sym t.slots) ∙ q.used);
          },
        )
      ]

-- The slot that is given back is the only one that is no longer in use.
pub Returned-kept :
    {s s' : Slab} {i : ℕ}
    → Returned s s' i
    → (a : ℕ) → HasSlot s a
    → a ≢ s.base + i * s.size
    → HasSlot s' a
Returned-kept {s} {s'} {i} t a (k, q) ne =
    let off : i ≢ k = λ e. ne (q.at ∙ ap (λ x. s.base + x * s.size) (sym e)) in
    let (b, z, o) = t.place in
    (
      k,
      record {
        at = q.at ∙ ap₂ (λ x y. x + k * y) (sym b) (sym z);
        inside = omega (arith, o, q.inside);
        used = ap (λ l. get_elem? l k) t.slots ∙ (get_elem?-set_ne (view s) i k true off ∙ q.used);
      },
    )

-- It is no longer in use, and no other slot comes into use.
pub Returned-only :
    {s s' : Slab} {i : ℕ}
    → SlabValid.IsValid s
    → Returned s s' i
    → (a : ℕ) → HasSlot s' a
    → HasSlot s a × (a ≢ s.base + i * s.size)
Returned-only {s} {s'} {i} valid t a (k, q) =
    let (b, z, o) = t.place in
    let at : a ≡ s.base + k * s.size = q.at ∙ ap₂ (λ x y. x + k * y) b z in
    let now : get_elem? (set (view s) i true) k ≡ some false =
      ap (λ l. get_elem? l k) (sym t.slots) ∙ q.used in
    let ne : i ≢ k = λ e.
      let there =
        lt-length_of_set (view s) i
          (subst (λ x. get_elem? (set (view s) i true) x ≡ some false) (sym e) now) in
      absurd (
        cc (
          get_elem?-set_self (view s) i true there,
          ap (get_elem? (set (view s) i true)) e,
          now,
        )) in
    (
      (
        k,
        record {
          at = at;
          inside = omega (arith, o, q.inside);
          used = sym (get_elem?-set_ne (view s) i k true ne) ∙ now;
        },
      ),
      λ e. ne (sym (slot_injective s.base s.size k i valid.size (sym at ∙ e))),
    )

-- priskv_slab_free takes back the slot of an address that has one.
pub slab_free_lem :
    {s : Slab} {a : ℕ}
    → SlabValid.IsValid s
    → HasSlot s a
    → (i : ℕ) × (s' : Slab) × (Slab.free s a ≡ some s')
      × (a ≡ s.base + i * s.size)
      × Returned s s' i
slab_free_lem {s} {a} v (i, q) =
    let (s', e, r) = free-Returned i v q.inside q.used in
    (i, s', ap (Slab.free s) q.at ∙ e, q.at, r)
