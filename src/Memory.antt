-- ===== src/Memory.antt =====
-- server/memory.c: the layout of the memory that the server serves from, a file with a header or
-- anonymous memory, and the checks of a file that is loaded. What the system calls do is an argument:
-- whether the file is there, and the page size that `priskv_mem_file_page_size` reads from the mount
-- table; a file is created, cut, mapped and closed without an error.
pub mod Layout
pub mod Clear
mod Tests
use pris_kv.Base.{
  ℕ, zero, suc, ◌+◌, ◌-◌, ◌*◌, ◌/◌, ◌%◌, Option, none, some, Bool, true, false, ltb, leb, ◌==◌,
  if◌then◌else◌, bit_and, ◌&&◌, ◌||◌,
}
use pris_kv.Base.Word.{u32, u64, u64_mod}
use pris_kv.Base.Time.{ℤ, pos, negsuc}
use pris_kv.Kv.Ops.{key_header}

-- `priskv_mem_header`
pub record MemHeader : Type 0 where
  pub magic : ℕ
  pub max_key_length : ℕ
  pub max_keys : ℕ
  pub value_block_size : ℕ
  pub value_blocks : ℕ
  pub feature0 : ℕ

-- A memory file, by its size and its first page.
pub record MemFile : Type 0 where
  pub size : ℕ
  pub header : MemHeader

-- `PRISKV_MEM_MAGIC`
abbrev pub mem_magic : ℕ
mem_magic = b'H' * 16777216 + b'P' * 65536 + b'K' * 256 + b'V'

abbrev pub mem_header_size : ℕ
mem_header_size = 4096

-- `ALIGN_UP` on a `uint64_t`, for an alignment that is a power of two.
unfoldable pub align64 : ℕ → ℕ → ℕ
align64 x alignment = u64 (x + (alignment - 1)) / alignment * alignment

-- `IS_POWER_OF_2` at a `uint64_t`
unfoldable pub is_power64 : ℕ → Bool
is_power64 x = bit_and x (u64 (x + u64_mod - 1)) == 0

-- `aligned_key_size`
unfoldable pub aligned_key_size : ℕ → ℕ → ℕ
aligned_key_size max_key_length max_keys =
    align64 (u64 ((key_header + max_key_length) * max_keys)) 4096

-- `priskv_buddy_mem_size`, whose first parameter is a `uint32_t`
unfoldable pub buddy_mem_size : ℕ → ℕ → ℕ
buddy_mem_size nmemb size = u64 (u32 nmemb * (size + 8))

-- `file_size`
unfoldable pub file_size : MemHeader → ℕ → ℕ
file_size h pagesize =
    align64
      (u64 (
        mem_header_size
        + aligned_key_size h.max_key_length h.max_keys
        + buddy_mem_size h.value_blocks h.value_block_size))
      pagesize

-- What `priskv_mem_create` ends with: an error, the new file, or a failed assertion.
pub data Created : Type 0 where
  refused : ℤ → Created
  created : MemFile → Created
  aborted : Created

abbrev pub eexist : ℤ
eexist = negsuc 16

-- The header that is written.
abbrev pub new_header : ℕ → ℕ → ℕ → ℕ → MemHeader
new_header max_key_length max_keys value_block_size value_blocks = record {
  magic = mem_magic;
  max_key_length = max_key_length;
  max_keys = max_keys;
  value_block_size = value_block_size;
  value_blocks = value_blocks;
  feature0 = 0;
}

-- The assertions at the start of `priskv_mem_create`.
unfoldable pub can_create : MemHeader → Bool
can_create h =
    ltb 0 h.max_key_length
    && (ltb 0 h.max_keys
        && (ltb 0 h.value_block_size && (ltb 0 h.value_blocks && is_power64 h.value_blocks)))

unfoldable pub create_sized : MemHeader → ℤ → Created
create_sized h (pos pagesize) = created (record { size = file_size h pagesize; header = h })
create_sized h (negsuc e) = refused (negsuc e)

-- `priskv_mem_create`
unfoldable pub mem_create : Bool → ℤ → ℕ → ℕ → ℕ → ℕ → Created
mem_create exists pagesize max_key_length max_keys value_block_size value_blocks =
    let h = new_header max_key_length max_keys value_block_size value_blocks in
    if can_create h then (if exists then refused eexist else create_sized h pagesize) else aborted

-- The checks of `priskv_mem_load` on the header and the size.
unfoldable pub can_load : MemFile → ℕ → Bool
can_load f pagesize =
    (f.header.magic == mem_magic)
    && ((f.header.feature0 == 0)
        && (is_power64 f.header.value_blocks
            && (is_power64 f.header.value_block_size && (file_size f.header pagesize == f.size))))

-- `priskv_mem_load`: the file it maps, or nothing for NULL.
unfoldable pub mem_load : ℤ → MemFile → Option MemFile
mem_load (negsuc e) f = none
mem_load (pos pagesize) f = if can_load f pagesize then some f else none

-- `priskv_mem_key_addr` and `priskv_mem_value_addr` of a file that is mapped at an address.
unfoldable pub mem_key_addr : MemFile → ℕ → ℕ
mem_key_addr f memfile_addr = memfile_addr + mem_header_size

unfoldable pub mem_value_addr : MemFile → ℕ → ℕ
mem_value_addr f memfile_addr =
    memfile_addr + mem_header_size + aligned_key_size f.header.max_key_length f.header.max_keys

-- The memory, as its bytes.
abbrev pub Memory : Type 0
Memory = ℕ → ℕ

-- `memset(addr, 0x00, size)`
unfoldable pub clear : Memory → ℕ → ℕ → Memory
clear m addr size i = if leb addr i && ltb i (addr + size) then 0 else m i

-- The loop of `priskv_mem_clear`: the threads clear their batches, from the `i`-th on.
unfoldable pub clear_batches : ℕ → ℕ → Memory → ℕ → ℕ → Memory
clear_batches zero i m addr batch_size = m
clear_batches (suc threads) i m addr batch_size =
    clear_batches threads (i + 1) (clear m (addr + batch_size * i) batch_size) addr batch_size

-- `priskv_mem_clear`
unfoldable pub mem_clear : Memory → ℕ → ℕ → ℕ → Memory
mem_clear m addr size nthreads =
    if (nthreads == 0) || (nthreads == 1)
    then clear m addr size
    else clear_batches nthreads 0 m addr (size / nthreads)
