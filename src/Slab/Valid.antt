-- ===== src/Slab/Valid.antt =====
-- A well-formed slab: which slots are free, and that `inuse` counts the others.
use pris_kv.Base.{ℕ, ◌+◌, ◌*◌, ◌≤◌, ◌<◌, ◌≡◌, some, Bool, true, List, get_elem?, length}
use pris_kv.Slab.{Slab, bits}
use pris_kv.Slab.Words.{flat, Wide, count_true}

-- A bit for each slot: is it free?
abbrev pub view : Slab → List Bool
view s = flat s.bitmap

-- The slots below `objects` are those that exist; the memory ends inside the address space.
pub record IsValid (s : Slab) : Type 0 where
  pub size : 0 < s.size
  pub objects : 0 < s.objects
  pub small : s.objects ≤ 2147483648
  pub memory : s.base + s.objects * s.size < 18446744073709551616
  pub words : length s.bitmap * 64 ≡ bits s.objects
  pub wide : Wide s.bitmap
  pub tail : (i : ℕ) → get_elem? (view s) i ≡ some true → i < s.objects
  pub counted : s.inuse + count_true (view s) ≡ s.objects
  pub hint : s.lindex < length s.bitmap
