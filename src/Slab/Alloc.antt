-- ===== src/Slab/Alloc.antt =====
-- What `priskv_slab_alloc` and `priskv_slab_reserve` do to a well-formed slab.
use pris_kv.Base.{
  ℕ, suc, ◌+◌, ◌-◌, ◌*◌, ◌/◌, ◌<◌, ◌≡◌, ◌⊎◌, inl, inr, arith, none, some, Bool, true, false, List,
  get_elem?, set, length, ltb, refl, sym, ap, ◌∙◌, ℕ_discrete, dec_lt, lt-length_of_get_elem?,
  get_elem?-set_ne, get_elem?-set_self, length-set,
}
use pris_kv.Base.Word.{u32}
use pris_kv.Slab.{
  Slab, Word, bits, update, put_bit, is_zero, ffsl, take_bit, slab_alloc, scan, alloc_at, alloc,
  reserve,
}
use pris_kv.Slab.Words.{
  flat, Wide, count_true, update-Wide, length-update, flat-update, flat-put_bit, get-flat, ffsl_lem,
  count_true-clear, count_true-flat,
}
use pris_kv.Slab.Valid.{IsValid, view}
use pris_kv.Slab.Scan.{scan_lem}

-- From `s` to `s'` the slot `i`, which was free, has been handed out.
pub record Taken (s s' : Slab) (i : ℕ) : Type 0 where
  pub valid : IsValid s'
  pub was_free : get_elem? (view s) i ≡ some true
  pub slots : view s' ≡ set (view s) i false
  pub inuse : s'.inuse ≡ s.inuse + 1
  pub place : (s'.base ≡ s.base) × (s'.size ≡ s.size) × (s'.objects ≡ s.objects)

-- A bit that is set after one has been cleared was set before.
still_set :
    (l : List Bool) (i j : ℕ) → get_elem? (set l i false) j ≡ some true → get_elem? l j ≡ some true
still_set l i j h = elim (ℕ_discrete i j) [
  | no ne ↦ sym (get_elem?-set_ne l i j false ne) ∙ h
  | yes e ↦
      let lt = lt-length_of_get_elem? (set l i false) j h in
      let cleared = get_elem?-set_self l i false (omega (arith, length-set l i false)) in
      absurd (cc (cleared, h, ap (get_elem? (set l i false)) e))
]

-- The state after the slot `i` is handed out is well-formed.
Taken-of :
    {s : Slab} (i lindex : ℕ) (bitmap : List Word)
    → IsValid s
    → get_elem? (view s) i ≡ some true
    → flat bitmap ≡ set (view s) i false
    → Wide bitmap
    → length bitmap ≡ length s.bitmap
    → lindex < length s.bitmap
    → Taken s (record s { bitmap = bitmap; inuse = u32 (s.inuse + 1); lindex = lindex }) i
Taken-of {s} i lindex bitmap v free slots wide same lt =
    let fewer : count_true (flat bitmap) + 1 ≡ count_true (view s) =
      ap (λ l. count_true l + 1) slots ∙ count_true-clear (view s) i free in
    record {
      valid = record {
        size = v.size;
        objects = v.objects;
        small = v.small;
        memory = v.memory;
        words = ap (λ z. z * 64) same ∙ v.words;
        wide = wide;
        tail = λ j h. v.tail j (still_set (view s) i j (ap (λ l. get_elem? l j) (sym slots) ∙ h));
        counted = omega (arith, fewer, v.counted, v.small);
        hint = omega (arith, same);
      };
      was_free = free;
      slots = slots;
      inuse = omega (arith, fewer, v.counted, v.small);
      place = (refl, refl, refl);
    }

take_bit_lem :
    (s : Slab) (j k : ℕ)
    → j * 64 + k < s.objects
    → take_bit s j k
      ≡ some (
        record s { bitmap = update s.bitmap j (λ u. set u k false); inuse = u32 (s.inuse + 1) },
        s.base + (j * 64 + k) * s.size,
      )
unfolding take_bit
take_bit_lem s j k h = let test : ltb (j * 64 + k) s.objects ≡ true = ground arith in rw test

alloc_at_bit :
    (s : Slab) (j k : ℕ) (w : Word)
    → ffsl w ≡ suc k
    → j * 64 + k < s.objects
    → alloc_at s j w
      ≡ some (
        record s {
          bitmap = update s.bitmap j (λ u. set u k false);
          inuse = u32 (s.inuse + 1);
          lindex = j;
        },
        some (s.base + (j * 64 + k) * s.size),
      )
unfolding alloc_at slab_alloc
alloc_at_bit s j k w e h =
    let found : ffsl w - 1 ≡ k = omega (arith, e) in
    rw (ap (take_bit s j) found ∙ take_bit_lem s j k h, alloc_at)

alloc_ahead :
    (s : Slab) (j : ℕ) (w : Word)
    → scan (bits s.objects / 64 - s.lindex) s.lindex s.bitmap ≡ some (j, w)
    → alloc s ≡ alloc_at s j w
unfolding alloc
alloc_ahead s j w e = rw (e, alloc)

alloc_behind :
    (s : Slab) (j : ℕ) (w : Word)
    → scan (bits s.objects / 64 - s.lindex) s.lindex s.bitmap ≡ none
    → scan s.lindex 0 s.bitmap ≡ some (j, w)
    → alloc s ≡ alloc_at s j w
unfolding alloc
alloc_behind s j w e f = rw (e, f, alloc)

alloc_nowhere :
    (s : Slab)
    → scan (bits s.objects / 64 - s.lindex) s.lindex s.bitmap ≡ none
    → scan s.lindex 0 s.bitmap ≡ none
    → alloc s ≡ some (s, none)
unfolding alloc
alloc_nowhere s e f = rw (e, f, alloc)

alloc_at_lem :
    {s : Slab} (j : ℕ) (w : Word)
    → IsValid s
    → get_elem? s.bitmap j ≡ some w
    → is_zero w ≡ false
    → j < length s.bitmap
    → (i : ℕ) × (s' : Slab) × (i < s.objects)
      × (alloc_at s j w ≡ some (s', some (s.base + i * s.size)))
      × Taken s s' i
alloc_at_lem {s} j w v at nonzero lt =
    let (k, e, t) = ffsl_lem w nonzero in
    let wide = (get-flat s.bitmap j 0 v.wide at (omega arith)).1 in
    let short : k < 64 = omega (arith, wide, lt-length_of_get_elem? w k t) in
    let free : get_elem? (view s) (j * 64 + k) ≡ some true =
      (get-flat s.bitmap j k v.wide at short).0 ∙ t in
    let inside : j * 64 + k < s.objects = v.tail (j * 64 + k) free in
    (
      j * 64 + k,
      record s {
        bitmap = update s.bitmap j (λ u. set u k false);
        inuse = u32 (s.inuse + 1);
        lindex = j;
      },
      inside,
      alloc_at_bit s j k w e inside,
      Taken-of (j * 64 + k) j (update s.bitmap j (λ u. set u k false)) v free
          (flat-update s.bitmap j k false v.wide short) (update-Wide s.bitmap j k false v.wide)
          (length-update s.bitmap j (λ u. set u k false)) lt,
    )

-- On a well-formed slab `priskv_slab_alloc` fails no assertion. Either it returns NULL, changes
-- nothing, and all slots are in use, or it returns the address of a slot that was free, which alone
-- becomes used; `inuse` grows by one and the slab is well-formed.
pub alloc-Taken :
    {s : Slab}
    → IsValid s
    → ((alloc s ≡ some (s, none)) × (s.inuse ≡ s.objects))
      ⊎ ((i : ℕ) × (s' : Slab) × (i < s.objects)
          × (alloc s ≡ some (s', some (s.base + i * s.size)))
          × Taken s s' i)
alloc-Taken {s} v =
    let words : bits s.objects / 64 ≡ length s.bitmap = omega (arith, v.words) in
    let ahead = bits s.objects / 64 - s.lindex in
    elim (scan_lem ahead s.lindex s.bitmap (omega (arith, words, v.hint))) [
      | inl (j, w, found, at, f, lt) ↦
          let (i, s', inside, done, t) = alloc_at_lem j w v at f lt in
          inr (i, s', inside, alloc_ahead s j w found ∙ done, t)
      | inr (missed, zeros) ↦ elim (scan_lem s.lindex 0 s.bitmap (omega (arith, v.hint))) [
        | inl (j, w, found, at, f, lt) ↦
            let (i, s', inside, done, t) = alloc_at_lem j w v at f lt in
            inr (i, s', inside, alloc_behind s j w missed found ∙ done, t)
        | inr (missed', zeros') ↦
            let all : (j : ℕ) (w : Word) → get_elem? s.bitmap j ≡ some w → is_zero w ≡ true =
              λ j w at. elim (dec_lt j s.lindex) [
                | yes lt ↦ zeros' j w (omega arith) (omega arith) at
                | no ge ↦
                    zeros j w (omega arith)
                      (omega (arith, words, v.hint, lt-length_of_get_elem? s.bitmap j at)) at
              ] in
            inl (
              alloc_nowhere s missed missed',
              omega (arith, v.counted, count_true-flat s.bitmap all),
            )
      ]
    ]

-- `priskv_slab_reserve` of a free slot fails no assertion, returns the slot's address and hands out
-- that slot alone.
pub reserve_lem :
    {s : Slab} (i : ℕ)
    → IsValid s
    → get_elem? (view s) i ≡ some true
    → (s' : Slab) × (reserve s i ≡ some (s', s.base + i * s.size)) × Taken s s' i
unfolding reserve put_bit
reserve_lem {s} i v free =
    let inside = v.tail i free in
    let test : ltb i s.objects ≡ true = ground arith in
    (
      record s { bitmap = put_bit s.bitmap i false; inuse = u32 (s.inuse + 1) },
      rw test refl,
      Taken-of i s.lindex (put_bit s.bitmap i false) v free (flat-put_bit s.bitmap i false v.wide)
          (update-Wide s.bitmap (i / 64) _ false v.wide) (length-update s.bitmap (i / 64) _) v.hint,
    )
