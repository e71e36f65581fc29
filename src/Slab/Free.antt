-- ===== src/Slab/Free.antt =====
-- What `priskv_slab_free` does to a well-formed slab, at the address of a slot that is in use.
use pris_kv.Base.{
  ℕ, ◌+◌, ◌-◌, ◌*◌, ◌/◌, ◌%◌, ◌<◌, ◌≡◌, inl, inr, arith, some, true, false, get_elem?, set, ltb,
  leb, refl, sym, ap, ◌∙◌, subst, ℕ_discrete, lt-length_of_get_elem?, get_elem?-set_ne,
  get_elem?-set_self, set-set, set_self,
}
use pris_kv.Base.Word.{sub_u32}
use pris_kv.Slab.{Slab, put_bit, slab_index, at, free_at, free, alloc}
use pris_kv.Slab.Words.{
  flat, count_true, update-Wide, length-update, flat-put_bit, count_true-set, count_true-le,
}
use pris_kv.Slab.Valid.{IsValid, view}
use pris_kv.Slab.Alloc.{alloc-Taken}
use native.Mathlib.Nat.{mul-mod_left, mul-div_cancel}

-- From `s` to `s'` the slot `i` has been taken back.
pub record Returned (s s' : Slab) (i : ℕ) : Type 0 where
  pub valid : IsValid s'
  pub slots : view s' ≡ set (view s) i true
  pub inuse : s'.inuse + 1 ≡ s.inuse
  pub place : (s'.base ≡ s.base) × (s'.size ≡ s.size) × (s'.objects ≡ s.objects)

-- The address of a slot leads back to the slot.
pub slab_index_lem :
    {s : Slab} (i : ℕ)
    → IsValid s
    → i < s.objects
    → slab_index s (s.base + i * s.size) ≡ some (at i)
unfolding slab_index
slab_index_lem {s} i v h =
    let below : leb s.base (s.base + i * s.size) ≡ true = ground arith in
    let diff : s.base + i * s.size - s.base ≡ i * s.size = omega arith in
    let exact : (s.base + i * s.size - s.base) % s.size ≡ 0 =
      ap (λ z. z % s.size) diff ∙ mul-mod_left i s.size in
    let back : (s.base + i * s.size - s.base) / s.size ≡ i =
      ap (λ z. z / s.size) diff ∙ mul-div_cancel i v.size in
    let test : ltb i s.objects ≡ true = ground arith in rw (below, exact, back, test)

tail_after :
    {s : Slab} (i : ℕ)
    → IsValid s
    → i < s.objects
    → (j : ℕ) → get_elem? (set (view s) i true) j ≡ some true
    → j < s.objects
tail_after {s} i v h j e = elim (ℕ_discrete i j) [
  | yes same ↦ omega arith
  | no ne ↦ v.tail j (sym (get_elem?-set_ne (view s) i j true ne) ∙ e)
]

free_at_lem :
    {s : Slab} (i : ℕ)
    → IsValid s
    → i < s.objects
    → get_elem? (view s) i ≡ some false
    → (s' : Slab) × (free_at s i ≡ some s') × Returned s s' i
unfolding free_at put_bit
free_at_lem {s} i v h used =
    let slots : flat (put_bit s.bitmap i true) ≡ set (view s) i true =
      flat-put_bit s.bitmap i true v.wide in
    let more = count_true-set (view s) i used in
    let most = count_true-le (set (view s) i true) s.objects (tail_after i v h) in
    let less : sub_u32 s.inuse 1 < s.objects = omega (arith, v.counted, v.small) in
    let test : ltb (sub_u32 s.inuse 1) s.objects ≡ true = ground arith in
    (
      record s { bitmap = put_bit s.bitmap i true; inuse = sub_u32 s.inuse 1 },
      rw test refl,
      record {
        valid = record {
          size = v.size;
          objects = v.objects;
          small = v.small;
          memory = v.memory;
          words = ap (λ z. z * 64) (length-update s.bitmap (i / 64) _) ∙ v.words;
          wide = update-Wide s.bitmap (i / 64) _ true v.wide;
          tail = λ j e. tail_after i v h j (ap (λ l. get_elem? l j) (sym slots) ∙ e);
          counted = omega (arith, ap count_true slots, more, most, v.counted, v.small);
          hint = omega (arith, length-update s.bitmap (i / 64) (λ u. set u (i % 64) true), v.hint);
        };
        slots = slots;
        inuse = omega (arith, more, most, v.counted, v.small);
        place = (refl, refl, refl);
      },
    )

-- On a well-formed slab, at the address of a slot that is in use, `priskv_slab_free` fails no
-- assertion, makes that slot free and no other, and `inuse` falls by one.
pub free-Returned :
    {s : Slab} (i : ℕ)
    → IsValid s
    → i < s.objects
    → get_elem? (view s) i ≡ some false
    → (s' : Slab) × (free s (s.base + i * s.size) ≡ some s') × Returned s s' i
unfolding free
free-Returned {s} i v h used =
    let (s', e, r) = free_at_lem i v h used in (s', rw (slab_index_lem i v h, free) e, r)

-- On a well-formed slab, `priskv_slab_free` of whatever address `priskv_slab_alloc` returns fails
-- no assertion and gives back every slot's state and `inuse`.
pub alloc-free-view :
    {s s' : Slab} {a : ℕ}
    → IsValid s
    → alloc s ≡ some (s', some a)
    → (s'' : Slab) × (free s' a ≡ some s'')
      × IsValid s''
      × (view s'' ≡ view s)
      × (s''.inuse ≡ s.inuse)
alloc-free-view {s} {s'} {a} v e = elim (alloc-Taken v) [
  | inl (null, full) ↦ absurd (cc (null, e))
  | inr (i, c, inside, done, t) ↦
      let state : c ≡ s' = cc (done, e) in
      let place : c.base + i * c.size ≡ a = rw (t.place.0, t.place.1) (cc (done, e)) in
      let lt = lt-length_of_get_elem? (view s) i t.was_free in
      let used : get_elem? (view c) i ≡ some false =
        ap (λ l. get_elem? l i) t.slots ∙ get_elem?-set_self (view s) i false lt in
      let (s'', freed, r) = free-Returned i t.valid (omega (arith, t.place.2)) used in
      (
        s'',
        subst (λ z. free z a ≡ some s'') state (subst (λ z. free c z ≡ some s'') place freed),
        r.valid,
        r.slots
            ∙ ap (λ l. set l i true) t.slots
            ∙ set-set (view s) i false true
            ∙ set_self (view s) i t.was_free,
        omega (arith, r.inuse, t.inuse),
      )
]
