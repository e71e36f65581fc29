-- ===== src/Memory/Tests.antt =====
-- server/memory.c on a small file, and its theorems there.
use pris_kv.Base.{◌+◌, ◌*◌, ◌≤◌, ◌≡◌, arith, none, some, false, refl}
use pris_kv.Base.Time.{pos}
use pris_kv.Memory.{
  MemFile, new_header, align64, is_power64, aligned_key_size, buddy_mem_size, file_size, created,
  aborted, can_create, create_sized, mem_create, can_load, mem_load, mem_key_addr, mem_value_addr,
  clear, clear_batches, mem_clear,
}
use pris_kv.Memory.Layout.{InRange, mem_layout, mem_create-mem_load}

program : Unit {0}
unfolding align64 is_power64 aligned_key_size buddy_mem_size file_size can_create create_sized
    mem_create can_load mem_load mem_key_addr mem_value_addr clear clear_batches mem_clear
program = tt

-- 32 keys of up to 40 bytes, and 16 blocks of 64 bytes.
abbrev small : MemFile
small = record { size = 12288; header = new_header 40 32 64 16 }

create-small : mem_create false (pos 4096) 40 32 64 16 ≡ created small
unfolding program
create-small = refl

create-odd_blocks : mem_create false (pos 4096) 40 32 64 15 ≡ aborted
unfolding program
create-odd_blocks = refl

load-other_page : mem_load (pos 2097152) small ≡ none
unfolding program
load-other_page = refl

small-InRange : InRange small.header
small-InRange = omega arith

mem_layout_example :
    (4194304 + 4096 + 32 * 128 ≤ 4194304 + 4096 + 4096)
    × (4194304 + 4096 + 4096 + 16 * 64 + 8 * 16 ≤ 4194304 + 12288)
unfolding program
mem_layout_example = mem_layout small 4194304 4096 small-InRange (omega arith) (omega arith) refl

mem_create-mem_load_example : mem_load (pos 4096) small ≡ some small
unfolding program
mem_create-mem_load_example = mem_create-mem_load false 4096 40 32 64 16 refl
