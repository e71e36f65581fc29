-- ===== src/Memory/Layout.antt =====
-- The layout that server/memory.c computes: where nothing wraps, its parts stand one after the other
-- in the file, and a file that was created is loaded.
use native.Mathlib.Nat.{mul-le-mul, lt-div-mul-add, div-mul-le_self}
use pris_kv.Base.{
  ℕ, ◌+◌, ◌-◌, ◌*◌, ◌≤◌, ◌<◌, ◌≡◌, arith, none, some, Bool, true, false, if◌then◌else◌,
}
use pris_kv.Base.Word.{u32, u64, u64_mod}
use pris_kv.Base.Time.{pos, negsuc}
use pris_kv.Kv.Ops.{key_header}
use pris_kv.Memory.{
  MemHeader, MemFile, mem_header_size, align64, is_power64, aligned_key_size, buddy_mem_size,
  file_size, refused, created, aborted, new_header, can_create, create_sized, mem_create, can_load,
  mem_load, mem_key_addr, mem_value_addr,
}

-- The parameters fit their integers, and the blocks are at most 2^30.
pub record InRange (h : MemHeader) : Type 0 where
  pub max_key_length : h.max_key_length < 65536
  pub max_keys : h.max_keys < 4294967296
  pub value_block_size : h.value_block_size < 4294967296
  pub value_blocks : h.value_blocks ≤ 1073741824

align64_lem :
    (x alignment : ℕ)
    → 0 < alignment
    → x + alignment ≤ u64_mod
    → (x ≤ align64 x alignment) × (align64 x alignment < x + alignment)
unfolding align64
align64_lem x alignment h fits =
    let e : u64 (x + (alignment - 1)) ≡ x + (alignment - 1) = omega (arith, h, fits) in
    let y = x + (alignment - 1) in
    rw e (omega (arith, lt-div-mul-add {a = y} h, h), omega (arith, div-mul-le_self y alignment, h))

key_bytes :
    (h : MemHeader) → InRange h → (key_header + h.max_key_length) * h.max_keys ≤ 281848638799785
key_bytes h r = omega (
  arith,
  mul-le-mul {n₁ = key_header + h.max_key_length} {m₁ = h.max_keys} {n₂ = 65623} {m₂ = 4294967295}
      (omega (arith, r.max_key_length)) (omega (arith, r.max_keys)),
)

value_bytes :
    (h : MemHeader) → InRange h → h.value_blocks * (h.value_block_size + 8) ≤ 4611686025943580672
value_bytes h r = omega (
  arith,
  mul-le-mul {n₁ = h.value_blocks} {m₁ = h.value_block_size + 8} {n₂ = 1073741824} {m₂ = 4294967303}
      r.value_blocks (omega (arith, r.value_block_size)),
)

aligned_key_size_lem :
    (h : MemHeader)
    → InRange h
    → ((key_header + h.max_key_length) * h.max_keys ≤ aligned_key_size h.max_key_length h.max_keys)
      × (aligned_key_size h.max_key_length h.max_keys < 281848638803882)
unfolding aligned_key_size
aligned_key_size_lem h r =
    let k = (key_header + h.max_key_length) * h.max_keys in
    let le = key_bytes h r in
    let e : u64 k ≡ k = omega (arith, le) in
    let (lo, hi) = align64_lem k 4096 (omega arith) (omega (arith, le)) in
    rw e (lo, omega (arith, hi, le))

buddy_mem_size_lem :
    (h : MemHeader)
    → InRange h
    → buddy_mem_size h.value_blocks h.value_block_size ≡ h.value_blocks * (h.value_block_size + 8)
unfolding buddy_mem_size
buddy_mem_size_lem h r =
    let e : u32 h.value_blocks ≡ h.value_blocks = omega (arith, r.value_blocks) in
    let le = value_bytes h r in rw e (omega (arith, le))

file_size_lem :
    (h : MemHeader) (pagesize : ℕ)
    → InRange h
    → 0 < pagesize
    → pagesize ≤ 1073741824
    → mem_header_size
        + aligned_key_size h.max_key_length h.max_keys
        + h.value_blocks * (h.value_block_size + 8)
      ≤ file_size h pagesize
unfolding file_size
file_size_lem h pagesize r page small =
    let total =
      mem_header_size
      + aligned_key_size h.max_key_length h.max_keys
      + h.value_blocks * (h.value_block_size + 8) in
    let bound : total + pagesize ≤ u64_mod =
      omega (arith, (aligned_key_size_lem h r).1, value_bytes h r, small) in
    let e : u64 total ≡ total = omega (arith, bound, page) in
    rw (buddy_mem_size_lem h r, e) (align64_lem total pagesize page bound).0

-- In a file of the size that priskv_mem_create computes, mapped at any address, the key slots end
-- before the values begin, and the values with the two words for each block that the buddy
-- allocator keeps end inside the file: for at most 2^30 blocks, and pages of at most 1 GB.
pub mem_layout :
    (f : MemFile) (memfile_addr pagesize : ℕ)
    → InRange f.header
    → 0 < pagesize
    → pagesize ≤ 1073741824
    → f.size ≡ file_size f.header pagesize
    → (mem_key_addr f memfile_addr + f.header.max_keys * (key_header + f.header.max_key_length)
        ≤ mem_value_addr f memfile_addr)
      × (mem_value_addr f memfile_addr
            + f.header.value_blocks * f.header.value_block_size
            + 8 * f.header.value_blocks
          ≤ memfile_addr + f.size)
unfolding mem_key_addr mem_value_addr
mem_layout f memfile_addr pagesize r page small size =
    let k = (aligned_key_size_lem f.header r).0 in
    let total = file_size_lem f.header pagesize r page small in
    let flip : f.header.max_keys * (key_header + f.header.max_key_length)
        ≡ (key_header + f.header.max_key_length) * f.header.max_keys =
      grind arith in
    let split : f.header.value_blocks * (f.header.value_block_size + 8)
        ≡ f.header.value_blocks * f.header.value_block_size + 8 * f.header.value_blocks =
      grind arith in
    (omega (arith, k, flip), omega (arith, total, size, split))

create_inv :
    (exists : Bool) (pagesize : ℕ) (h : MemHeader) {f : MemFile}
    → (if can_create h
        then (if exists then refused (negsuc 16) else create_sized h (pos pagesize))
        else aborted)
      ≡ created f
    → (can_create h ≡ true)
      × (exists ≡ false)
      × (f ≡ record { size = file_size h pagesize; header = h })
unfolding create_sized
create_inv exists pagesize h e = ground (arith, e)

can_create-power : (h : MemHeader) → can_create h ≡ true → is_power64 h.value_blocks ≡ true
unfolding can_create
can_create-power h e = ground (arith, e)

-- A file that priskv_mem_create has made is loaded by priskv_mem_load, on pages of the same size,
-- exactly where the size of its blocks is a power of two, which priskv_mem_create does not ask.
pub mem_create-mem_load :
    (exists : Bool) (pagesize max_key_length max_keys value_block_size value_blocks : ℕ)
    {f : MemFile}
    → mem_create exists (pos pagesize) max_key_length max_keys value_block_size value_blocks
      ≡ created f
    → mem_load (pos pagesize) f ≡ (if is_power64 value_block_size then some f else none)
unfolding mem_create mem_load can_load
mem_create-mem_load exists pagesize max_key_length max_keys value_block_size value_blocks {f} e =
    let h = new_header max_key_length max_keys value_block_size value_blocks in
    let (can, no_file, ef) = create_inv exists pagesize h e in
    let power = can_create-power h can in rw ef (ground (arith, power))
