-- ===== src/Kv/Owned.antt =====
-- What a node of server/kv.c owns: a slot of the slab and a block of the buddy allocator. An
-- allocation gives a slot or a block that nothing else has, and a free takes only that one.
pub mod Slots
pub mod Blocks
pub use pris_kv.Kv.Owned.Slots.{
  HasSlot, Taken-kept, Taken-new, Taken-only, Returned-kept, Returned-only, slab_free_lem,
}
pub use pris_kv.Kv.Owned.Blocks.{
  HasBlock, HasRoom, HasRoom→HasBlock, HasRoom-less, HandedOut-new, HandedOut-kept, HandedOut-only,
  buddy_free_lem,
}
