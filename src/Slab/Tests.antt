-- ===== src/Slab/Tests.antt =====
-- server/slab.c on a small slab, and the theorems about it there.
use pris_kv.Base.{
  ℕ, zero, suc, ◌+◌, ◌*◌, ◌<◌, ◌≡◌, ◌⊎◌, arith, none, some, true, false, [], ◌∷◌, get_elem?,
  replicate, refl,
}
use mathlib.Core.Option
use pris_kv.Slab.{
  Slab, create, mark, put_bit, is_zero, ffsl, take_bit, slab_alloc, scan, alloc_at, alloc, reserve,
  slab_index, free_at, free,
}
use pris_kv.Slab.Valid.{IsValid, view}
use pris_kv.Slab.Create.{not_set}
use pris_kv.Slab.Alloc.{Taken, alloc-Taken}
use pris_kv.Slab.Free.{Returned, free-Returned}

program : Unit {0}
unfolding create mark put_bit is_zero ffsl take_bit slab_alloc scan alloc_at alloc reserve
    slab_index free_at free
program = tt

-- Two slots of 8 bytes, the first in use.
abbrev two : Slab
two = record {
  name = [];
  size = 8;
  inuse = 1;
  objects = 2;
  base = 4096;
  lindex = 0;
  bitmap = (false ∷ true ∷ replicate 62 false) ∷ [];
}

alloc-two : Option.map (λ r. r.1) (alloc two) ≡ some (some 4104)
unfolding program
alloc-two = refl

free-two : Option.map (λ s. s.inuse) (free two 4096) ≡ some 0
unfolding program
free-two = refl

-- An address inside a slot is refused.
free-two_inside : free two 4097 ≡ none
unfolding program
free-two_inside = refl

two_tail : (i : ℕ) → get_elem? (view two) i ≡ some true → i < 2
two_tail zero h = omega arith
two_tail (suc zero) h = omega arith
two_tail (suc (suc i)) h = absurd (not_set 62 i h)

two-IsValid : IsValid two
two-IsValid = record {
  size = omega arith;
  objects = omega arith;
  small = omega arith;
  memory = omega arith;
  words = refl;
  wide = (refl, tt);
  tail = two_tail;
  counted = refl;
  hint = omega arith;
}

alloc-Taken_example :
    ((alloc two ≡ some (two, none)) × (◌≡◌ {A = ℕ} 1 2))
    ⊎ ((i : ℕ) × (s' : Slab) × (i < 2)
        × (alloc two ≡ some (s', some (4096 + i * 8)))
        × Taken two s' i)
alloc-Taken_example = alloc-Taken two-IsValid

free-Returned_example : (s' : Slab) × (free two 4096 ≡ some s') × Returned two s' 0
free-Returned_example = free-Returned 0 two-IsValid (omega arith) refl

abbrev full : Slab
full = record two { inuse = 2; bitmap = replicate 64 false ∷ [] }
