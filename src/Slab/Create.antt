-- ===== src/Slab/Create.antt =====
-- What `priskv_slab_create` sets up: every slot free.
use pris_kv.Base.{
  ℕ, zero, suc, ◌+◌, ◌*◌, ◌/◌, ◌≤◌, ◌<◌, ◌≡◌, ◌≢◌, arith, some, true, false, List, [], ◌∷◌, ◌++◌,
  get_elem?, set, length, replicate, ◌==◌, refl, sym, ap, ◌∙◌, ℕ_discrete, dec_lt,
  lt-length_of_get_elem?, get_elem?-set_ne, get_elem?-set_self, length-replicate, take,
}
use pris_kv.Slab.{Slab, Word, bits, put_bit, mark, create}
use pris_kv.Slab.Words.{
  flat, Wide, count_true, flat-put_bit, count_true-set, put_bit-Wide, length-put_bit,
}
use pris_kv.Slab.Valid.{IsValid, view}

get-replicate : {A : Type 0} (n i : ℕ) (a : A) → i < n → get_elem? (replicate n a) i ≡ some a
get-replicate zero i a h = absurd (omega arith)
get-replicate (suc n) zero a h = refl
get-replicate (suc n) (suc i) a h = get-replicate n i a (omega arith)

clear_word : Wide (replicate 64 false ∷ [])
clear_word = (refl, tt)

Wide-replicate : (n : ℕ) → Wide (replicate n (replicate 64 false))
Wide-replicate zero = tt
Wide-replicate (suc n) = (refl, Wide-replicate n)

append-replicate :
    (a b c : ℕ) → c ≡ a + b → replicate a false ++ replicate b false ≡ replicate c false
append-replicate zero b c e = let same : b ≡ c = omega arith in ap (λ z. replicate z false) same
append-replicate (suc a) b zero e = absurd (omega arith)
append-replicate (suc a) b (suc c) e = ap (◌∷◌ false) (append-replicate a b c (omega arith))

-- A bitmap whose words are all 0 is all clear.
flat-replicate : (n : ℕ) → flat (replicate n (replicate 64 false)) ≡ replicate (n * 64) false
flat-replicate zero = refl
flat-replicate (suc n) =
    ap (◌++◌ (replicate 64 false)) (flat-replicate n)
    ∙ append-replicate 64 (n * 64) (suc n * 64) (omega arith)

pub not_set : (n i : ℕ) → ¬ (get_elem? (replicate n false) i ≡ some true)
not_set zero i h = cc h
not_set (suc n) zero h = cc h
not_set (suc n) (suc i) h = not_set n i h

count_true-replicate : (n : ℕ) → count_true (replicate n false) ≡ 0
count_true-replicate zero = refl
count_true-replicate (suc n) = count_true-replicate n

-- What the loop leaves of a bitmap: the bits of its rounds set, and no other.
record Marked (rounds index : ℕ) (ws ws' : List Word) : Type 0 where
  wide : Wide ws'
  size : length ws' ≡ length ws
  marked : (j : ℕ) → index ≤ j → j < index + rounds → get_elem? (flat ws') j ≡ some true
  below : (j : ℕ) → j < index → get_elem? (flat ws') j ≡ get_elem? (flat ws) j
  above : (j : ℕ) → index + rounds ≤ j → get_elem? (flat ws') j ≡ get_elem? (flat ws) j
  count : count_true (flat ws') ≡ count_true (flat ws) + rounds

mark_lem :
    (rounds index : ℕ) (ws : List Word)
    → Wide ws
    → ((j : ℕ) → index ≤ j → j < index + rounds → get_elem? (flat ws) j ≡ some false)
    → Marked rounds index ws (mark rounds index ws)
unfolding mark
mark_lem zero index ws wide clear = record {
  wide = wide;
  size = refl;
  marked = λ j lo hi. absurd (omega arith);
  below = λ j lt. refl;
  above = λ j le. refl;
  count = omega arith;
}
mark_lem (suc rounds) index ws wide clear =
    let ws₁ = put_bit ws index true in
    let slots : flat ws₁ ≡ set (flat ws) index true = flat-put_bit ws index true wide in
    let here : get_elem? (flat ws) index ≡ some false = clear index (omega arith) (omega arith) in
    let lt = lt-length_of_get_elem? (flat ws) index here in
    let other : (j : ℕ) → index ≢ j → get_elem? (flat ws₁) j ≡ get_elem? (flat ws) j =
      λ j ne. ap (λ l. get_elem? l j) slots ∙ get_elem?-set_ne (flat ws) index j true ne in
    let set_here : get_elem? (flat ws₁) index ≡ some true =
      ap (λ l. get_elem? l index) slots ∙ get_elem?-set_self (flat ws) index true lt in
    let r =
      mark_lem rounds (index + 1) ws₁ (put_bit-Wide ws index true wide)
        (λ j lo hi. other j (omega arith) ∙ clear j (omega arith) (omega arith)) in
    record {
      wide = r.wide;
      size = r.size ∙ length-put_bit ws index true;
      marked = λ j lo hi. elim (ℕ_discrete j index) [
        | yes e ↦ r.below j (omega arith) ∙ ap (get_elem? (flat ws₁)) e ∙ set_here
        | no ne ↦ r.marked j (omega arith) (omega arith)
      ];
      below = λ j h. r.below j (omega arith) ∙ other j (omega arith);
      above = λ j h. r.above j (omega arith) ∙ other j (omega arith);
      count = omega (arith, r.count, ap count_true slots, count_true-set (flat ws) index here);
    }

-- `priskv_slab_create` for 1 to 2^31 slots of at least a byte, at a base other than NULL, makes a
-- well-formed slab in which every slot is free and `inuse` is 0, where the memory ends inside the
-- address space and `calloc` succeeds.
pub create-IsValid :
    (name : List ℕ) (base size objects : ℕ)
    → 0 < base
    → 0 < size
    → 0 < objects
    → objects ≤ 2147483648
    → base + objects * size < 18446744073709551616
    → (s : Slab) × (create true name base size objects ≡ some s)
      × IsValid s
      × (s.inuse ≡ 0)
      × (s.objects ≡ objects)
      × ((i : ℕ) → i < objects → get_elem? (view s) i ≡ some true)
unfolding create
create-IsValid name base size objects b s o small memory =
    let words = bits objects / 64 in
    let ws = replicate words (replicate 64 false) in
    let room : objects ≤ words * 64 = omega arith in
    let m = mark_lem objects 0 ws (Wide-replicate words) (λ j lo hi.
      ap (λ l. get_elem? l j) (flat-replicate words)
      ∙ get-replicate (words * 64) j false (omega arith)) in
    let tests : ((base == 0) ≡ false) × ((size == 0) ≡ false) × ((objects == 0) ≡ false) =
      (ground arith, ground arith, ground arith) in
    (
      record {
        name = take 63 name;
        size = size;
        inuse = 0;
        objects = objects;
        base = base;
        lindex = 0;
        bitmap = mark objects 0 ws;
      },
      rw (tests.0, tests.1, tests.2) refl,
      record {
        size = s;
        objects = o;
        small = small;
        memory = memory;
        words = omega (arith, m.size, length-replicate words (replicate 64 false));
        wide = m.wide;
        tail = λ i h. inside words objects i m h;
        counted = omega (
          arith,
          m.count,
          ap count_true (flat-replicate words),
          count_true-replicate (words * 64),
        );
        hint = omega (arith, m.size, length-replicate words (replicate 64 false));
      },
      refl,
      refl,
      λ i h. m.marked i (omega arith) (omega arith),
    )
  where
    inside :
        (words objects i : ℕ) {ws' : List Word}
        → Marked objects 0 (replicate words (replicate 64 false)) ws'
        → get_elem? (flat ws') i ≡ some true
        → i < objects
    inside words objects i m h = elim (dec_lt i objects) [
      | yes lt ↦ lt
      | no ge ↦
          let old =
            ap (λ l. get_elem? l i) (sym (flat-replicate words))
            ∙ sym (m.above i (omega arith))
            ∙ h in
          absurd (not_set (words * 64) i old)
    ]
