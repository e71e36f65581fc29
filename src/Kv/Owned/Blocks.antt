-- ===== src/Kv/Owned/Blocks.antt =====
-- The block of the buddy allocator that a key node of server/kv.c owns.
use native.Mathlib.Nat.{mul-le-mul_right}
use pris_kv.Base.{
  ℕ, ◌+◌, ◌-◌, ◌*◌, ◌≤◌, ◌≡◌, ◌≢◌, ◌⊎◌, inl, inr, arith, sym, ap, ap₂, subst, ◌∙◌, some, ℕ_discrete,
}
use pris_kv.Base.Pow.{pow2, pow2_pos}
use pris_kv.Buddy
use pris_kv.Buddy.{Buddy}
use pris_kv.Buddy.Node.{Node, level_unique}
use pris_kv.Buddy.Inv.{Used, Handed-zero}
use pris_kv.Buddy.Valid as BuddyValid
use pris_kv.Buddy.Valid.{address, first_block}
use pris_kv.Buddy.Alloc.{HandedOut}
use pris_kv.Buddy.Free.{TakenBack, free_lem}
use pris_kv.Buddy.Disjoint.{address_disjoint}

-- The address is that of the node `i` of 2^j blocks, which is handed out.
pub record Block (n : ℕ) (b : Buddy) (v i j : ℕ) : Type 0 where
  pub at : v ≡ address b i j
  pub used : Used n b.meta i j

abbrev pub HasBlock : ℕ → Buddy → ℕ → Type 0
HasBlock n b v = (i : ℕ) × (j : ℕ) × Block n b v i j

-- A block that has room for so many bytes.
abbrev pub HasRoom : ℕ → Buddy → ℕ → ℕ → Type 0
HasRoom n b v len = (i : ℕ) × (j : ℕ) × Block n b v i j × (len ≤ pow2 j * b.size)

pub HasRoom→HasBlock : {n v len : ℕ} {b : Buddy} → HasRoom n b v len → HasBlock n b v
HasRoom→HasBlock (i, j, q, _) = (i, j, q)

-- Less room is there too.
pub HasRoom-less :
    {n v len len' : ℕ} {b : Buddy} → len' ≤ len → HasRoom n b v len → HasRoom n b v len'
HasRoom-less le (i, j, q, fits) = (i, j, q, omega (arith, le, fits))

-- Blocks of one address are one block.
block_injective :
    {n x k y j : ℕ} {b : Buddy}
    → BuddyValid.IsValid n b
    → Used n b.meta x k
    → Used n b.meta y j
    → address b x k ≡ address b y j
    → x ≡ y
block_injective {n} {x} {k} {y} {j} {b} v u w e = elim (ℕ_discrete x y) [
  | yes same ↦ same
  | no ne ↦
      let wide : (l : ℕ) → 1 * b.size ≤ pow2 l * b.size =
        λ l. mul-le-mul_right {m = 1} {n = pow2 l} b.size (omega (arith, pow2_pos l)) in
      elim (address_disjoint v u w ne) [
        | inl h ↦ absurd (omega (arith, h, e, wide k, v.size))
        | inr h ↦ absurd (omega (arith, h, e, wide j, v.size))
      ]
]

module _ {n i j : ℕ} {b b' : Buddy} (valid : BuddyValid.IsValid n b)
    (t : HandedOut n b b' i j) where
  address_same : (k l : ℕ) → address b' k l ≡ address b k l
  address_same k l =
      let (p, q, r) = t.place in ap₂ (λ x y. x + y) p (ap₂ (λ x y. ((k + 1) * pow2 l - x) * y) r q)

  room_same : (l : ℕ) → pow2 l * b'.size ≡ pow2 l * b.size
  room_same l = ap (λ z. pow2 l * z) t.place.1

  pub HandedOut-new : (len : ℕ) → len ≤ pow2 j * b.size → HasRoom n b' (address b i j) len
  HandedOut-new len fits =
      (i, j, record { at = sym (address_same i j); used = t.new }, omega (arith, fits, room_same j))

  -- A block that is handed out is new, and the others stay handed out.
  pub HandedOut-kept : (v len : ℕ) → HasRoom n b v len → HasRoom n b' v len × (v ≢ address b i j)
  HandedOut-kept v len (k, l, q, fits) = (
    (
      k,
      l,
      record { at = q.at ∙ sym (address_same k l); used = t.kept k l q.used },
      omega (arith, fits, room_same l),
    ),
    λ e.
        let at : address b' k l ≡ address b' i j =
          address_same k l ∙ (sym q.at ∙ (e ∙ sym (address_same i j))) in
        let same : k ≡ i = block_injective t.valid (t.kept k l q.used) t.new at in
        omega (arith, t.was_free, pow2_pos j, Handed-zero b.meta k l q.used.handed, ap b.meta same),
  )

  -- No other block comes to be handed out.
  pub HandedOut-only : (v : ℕ) → HasBlock n b' v → HasBlock n b v ⊎ (v ≡ address b i j)
  HandedOut-only v (k, l, q) = elim (t.only k l q.used) [
    | inl u ↦ inl (k, l, record { at = q.at ∙ address_same k l; used = u })
    | inr e ↦ inr (
        q.at
        ∙ (address_same k l
            ∙ ap₂ (λ x y. address b x y) e
                (level_unique (subst (λ x. Node n x l) e q.used.node) t.node)))
  ]

module _ {n i j : ℕ} {b b' : Buddy} (t : TakenBack n b b' i j) where
  -- The block that is given back is the only one that is no longer handed out.
  pub TakenBack-kept :
      (v len : ℕ) → Used n b.meta i j → HasRoom n b v len → v ≢ address b i j → HasRoom n b' v len
  TakenBack-kept v len u (k, l, q, fits) ne =
      let (p, z, r) = t.place in
      (
        k,
        l,
        record {
          at =
              q.at
              ∙ ap₂ (λ x y. x + y) (sym p)
                  (ap₂ (λ x y. ((k + 1) * pow2 l - x) * y) (sym r) (sym z));
          used = t.kept k l q.used (λ e. ne (
              q.at
              ∙ ap₂ (λ x y. address b x y) e
                  (level_unique (subst (λ x. Node n x l) e q.used.node) u.node)));
        },
        omega (arith, fits, ap (λ y. pow2 l * y) z),
      )

  -- It is no longer handed out, and no other block comes to be.
  pub TakenBack-only :
      BuddyValid.IsValid n b
      → Used n b.meta i j
      → (v : ℕ) → HasBlock n b' v
      → HasBlock n b v × (v ≢ address b i j)
  TakenBack-only valid u v (k, l, q) =
      let (p, z, r) = t.place in
      let (w, ne) = t.only k l q.used in
      let at : v ≡ address b k l =
        q.at ∙ ap₂ (λ x y. x + y) p (ap₂ (λ x y. ((k + 1) * pow2 l - x) * y) r z) in
      ((k, l, record { at = at; used = w }), λ e. ne (block_injective valid w u (sym at ∙ e)))

-- priskv_buddy_free takes back the block of an address that has one.
pub buddy_free_lem :
    {n : ℕ} {b : Buddy} {v : ℕ}
    → BuddyValid.IsValid n b
    → HasBlock n b v
    → (b' : Buddy) × (Buddy.free b v ≡ some b')
      × BuddyValid.IsValid n b'
      × (b'.base ≡ b.base)
      × ((w len : ℕ) → HasRoom n b w len → w ≢ v → HasRoom n b' w len)
      × ((w : ℕ) → HasBlock n b' w → HasBlock n b w × (w ≢ v))
buddy_free_lem {n} {b} {v} valid (i, j, q) =
    let (b', e, t) = free_lem valid q.used in
    (
      b',
      ap (Buddy.free b) q.at ∙ e,
      t.valid,
      t.place.0,
      λ w len h ne. TakenBack-kept t w len q.used h (λ x. ne (x ∙ sym q.at)),
      λ w h. let (old, ne) = TakenBack-only t valid q.used w h in (old, λ x. ne (x ∙ q.at)),
    )
