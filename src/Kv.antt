-- ===== src/Kv.antt =====
-- server/kv.c, over the buddy and the slab allocators.
pub mod State
pub mod Find
pub mod Ops
pub mod Evict
pub mod Sweep
pub mod Shrink
pub mod Publish
pub mod Grabbed
pub mod Fresh
pub mod Rounds
pub mod SetGet
pub mod Delete
pub mod Pin
pub mod Keys
pub mod Count
pub mod Expire
pub mod Serialize
pub mod Owned
pub mod Good
pub mod Tests
