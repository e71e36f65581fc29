-- ===== src/Slab.antt =====
-- server/slab.c: the slab of the key slots. A bit of `bitmap` says that the slot of that number is
-- free; a `uint64_t` of it is the list of its 64 bits, the lowest first. Each operation holds the
-- spinlock from its start to its end, so it is one step.
mod Words
pub mod Valid
mod Scan
pub mod Alloc
pub mod Free
pub mod Create
mod Tests
use pris_kv.Base.{
  ℕ, zero, suc, ◌+◌, ◌-◌, ◌*◌, ◌/◌, ◌%◌, Option, none, some, Bool, true, false, List, [], ◌∷◌, ltb,
  leb, ◌==◌, if◌then◌else◌, get_elem?, set, replicate, take, length,
}
use pris_kv.Base.Word.{u32_mod, u32, u64, sub_u32}

abbrev pub Word : Type 0
Word = List Bool

pub record Slab : Type 0 where
  pub name : List ℕ
  pub size : ℕ
  pub inuse : ℕ
  pub objects : ℕ
  pub base : ℕ
  pub lindex : ℕ
  pub bitmap : List Word

abbrev pub bits_of_ul : ℕ
bits_of_ul = 64

-- `ALIGN_UP(objects, BITS_OF_UL)` as a `uint32_t`: the low six bits of `objects + 63` go.
abbrev pub bits : ℕ → ℕ
bits objects = u32 ((objects + (bits_of_ul - 1)) / bits_of_ul * bits_of_ul)

-- `bitmap[index] = f(bitmap[index])`
abbrev pub update : List Word → ℕ → (Word → Word) → List Word
update [] index f = []
update (w ∷ ws) zero f = f w ∷ ws
update (w ∷ ws) (suc index) f = w ∷ update ws index f

-- `set_bit` and `clear_bit` at the bit of the slot `index`, by `v`.
unfoldable pub put_bit : List Word → ℕ → Bool → List Word
put_bit bitmap index v = update bitmap (index / bits_of_ul) (λ w. set w (index % bits_of_ul) v)

-- The loop of `priskv_slab_create`, `rounds` rounds before its end.
unfoldable pub mark : ℕ → ℕ → List Word → List Word
mark zero index bitmap = bitmap
mark (suc rounds) index bitmap = mark rounds (index + 1) (put_bit bitmap index true)

-- `calloc_ok` tells whether `calloc` finds memory for the handle.
unfoldable pub create : Bool → List ℕ → ℕ → ℕ → ℕ → Option Slab
create calloc_ok name base size objects =
    if base == 0
    then none
    else if size == 0
    then none
    else if objects == 0
    then none
    else if calloc_ok
    then some (record {
      name = take 63 name;
      size = size;
      inuse = 0;
      objects = objects;
      base = base;
      lindex = 0;
      bitmap = mark objects 0 (replicate (bits objects / bits_of_ul) (replicate 64 false));
    })
    else none

-- `*ptr == 0`
unfoldable pub is_zero : Word → Bool
is_zero [] = true
is_zero (true ∷ w) = false
is_zero (false ∷ w) = is_zero w

-- `__builtin_ffsl`: one more than the place of the lowest bit that is set, or 0.
unfoldable pub ffsl : Word → ℕ
ffsl [] = 0
ffsl (true ∷ w) = 1
ffsl (false ∷ w) = let rest = ffsl w in if rest == 0 then 0 else suc rest

-- The rest of `__slab_alloc`, on the bit `found` of the word `index`; `none` is an assertion that
-- fails.
unfoldable pub take_bit : Slab → ℕ → ℕ → Option (Slab × ℕ)
take_bit s index found =
    if ltb (index * bits_of_ul + found) s.objects
    then some (
      record s {
        bitmap = update s.bitmap index (λ w. set w found false);
        inuse = u32 (s.inuse + 1);
      },
      s.base + (index * bits_of_ul + found) * s.size,
    )
    else none

-- `__slab_alloc`, at the word `w` that stands at `index`.
unfoldable pub slab_alloc : Slab → ℕ → Word → Option (Slab × ℕ)
slab_alloc s index w = take_bit s index (ffsl w - 1)

-- `for (index = ...; index < ...; index++)`, `rounds` rounds before its end, as far as the first
-- word that is not 0: its index, and the word.
unfoldable pub scan : ℕ → ℕ → List Word → Option (ℕ × Word)
scan zero index bitmap = none
scan (suc rounds) index bitmap = elim (get_elem? bitmap index) [
  | none ↦ none
  | some w ↦ elim (is_zero w) [ true ↦ scan rounds (index + 1) bitmap | false ↦ some (index, w) ]
]

-- What `priskv_slab_alloc` does with the word that it has found.
unfoldable pub alloc_at : Slab → ℕ → Word → Option (Slab × Option ℕ)
alloc_at s index w = elim (slab_alloc s index w) [
  | none ↦ none
  | some (s', addr) ↦ some (record s' { lindex = index }, some addr)
]

-- `priskv_slab_alloc`: the address is `none` for NULL; the outer option is `none` where an
-- assertion fails.
unfoldable pub alloc : Slab → Option (Slab × Option ℕ)
alloc s = elim (scan (bits s.objects / bits_of_ul - s.lindex) s.lindex s.bitmap) [
  | some (index, w) ↦ alloc_at s index w
  | none ↦ elim (scan s.lindex 0 s.bitmap) [
    | some (index, w) ↦ alloc_at s index w
    | none ↦ some (s, none)
  ]
]

-- `priskv_slab_reserve`, at an index that is not negative; `none` is an assertion that fails.
unfoldable pub reserve : Slab → ℕ → Option (Slab × ℕ)
reserve s index =
    if ltb index s.objects
    then some (
      record s { bitmap = put_bit s.bitmap index false; inuse = u32 (s.inuse + 1) },
      s.base + index * s.size,
    )
    else none

-- The `int` that `priskv_slab_index` returns.
pub data Index : Type 0 where
  at : ℕ → Index
  negative : ℕ → Index

-- `priskv_slab_index`; `none` is an assertion that fails.
unfoldable pub slab_index : Slab → ℕ → Option Index
slab_index s addr =
    if leb s.base addr
    then (if (addr - s.base) % s.size == 0
        then (if ltb ((addr - s.base) / s.size) s.objects
            then some (at ((addr - s.base) / s.size))
            else none)
        else some (negative 1))
    else if (s.base - addr) % s.size == 0
    then some (negative ((s.base - addr) / s.size))
    else some (negative 1)

unfoldable pub free_at : Slab → ℕ → Option Slab
free_at s index =
    if ltb (sub_u32 s.inuse 1) s.objects
    then some (record s { bitmap = put_bit s.bitmap index true; inuse = sub_u32 s.inuse 1 })
    else none

-- `priskv_slab_free`; `none` is an assertion that fails.
unfoldable pub free : Slab → ℕ → Option Slab
free s addr = elim (slab_index s addr) [
  | none ↦ none
  | some (at index) ↦ free_at s index
  | some (negative n) ↦ none
]
