-- ===== src/Lib.antt =====
-- PrisKV, a key-value store for remote memory: a verification library for its server and
-- for the slot table of its cluster client. The parts that keep the data are modelled as pure
-- functions from the C sources, with the widths of their integers, their assertions and their early
-- returns.
--
-- Base (include/priskv-utils.h): the names that all modules share; Base.Word has `uint32_t` and
--   `uint64_t` with their wrap-around and IS_POWER_OF_2, Base.Time priskv_time_add_ms and
--   priskv_time_elapsed_ms.
-- Buddy (server/buddy.c): the allocator of the value blocks. `create`, `alloc` and `free` are
--   priskv_buddy_create, priskv_buddy_alloc and priskv_buddy_free; `meta` is the array of the tree,
--   as a function. Buddy.Node has the nodes of the tree, Buddy.Inv the invariant, and the other
--   children prove the operations against it.
-- Slab (server/slab.c): the allocator of the key slots. `alloc`, `reserve` and `free` are
--   priskv_slab_alloc, priskv_slab_reserve and priskv_slab_free; `bitmap` is the list of the words,
--   each the list of its bits. Slab.Valid has the invariant and the view as one list of bits.
-- Kv (server/kv.c, server/memory.h): the store. Kv.State has `priskv_kv` with its key nodes, the
--   list of recent use and the reference counts, Kv.Find the search of a bucket, Kv.Ops
--   priskv_new_kv, priskv_get_key, priskv_delete_key and priskv_expire_key, Kv.Evict priskv_set_key
--   with its eviction, Kv.Sweep priskv_get_keys, priskv_flush_keys, priskv_clear_expired_kv and
--   priskv_recover. A node is named by the address that the slab gave, a value by the address that
--   the buddy allocator gave, so the store calls both allocators as they are defined above.
-- Kv.Owned has what a node owns of the two allocators, and Kv.Good the invariant of the whole store
--   with its proofs, one module per group of operations; Kv.Good.Reach has the requests that the
--   store serves in turn with the references that callers hold, and Kv.Good.Served what holds after
--   every sequence of them. A sequence begins with priskv_new_kv; priskv_recover is not in it.
-- Kv.Serialize (server/kv.c): priskv_key_serialize_enter and priskv_key_serialize_exit, the queue
--   in which the requests of a bucket to the tiering backends wait for each other, with the steps
--   in which requests come and complete.
-- Policy (server/backend/policy_lru.c): the eviction policy of the tiering backends, with
--   lru_policy_access, lru_policy_evict, lru_policy_del_key, lru_policy_try_ref_key and
--   lru_policy_unref_key over the list of the nodes.
-- Acl (server/acl.c): the rules of who may connect, with priskv_acl_add, priskv_acl_del,
--   priskv_acl_verify and priskv_acl_get_rules; the lookup of a name is an argument.
-- Units (include/priskv-utils.h): priskv_str2num with its units, and priskv_string_shorten.
-- Memory (server/memory.c): the sizes and places of the header, the key slots and the values, the
--   checks of priskv_mem_create and priskv_mem_load, and priskv_mem_clear. The size of a page and
--   whether the file exists are arguments.
-- Backend (server/backend/backend.c, backend.h): the chain of tiering devices with
--   priskv_backend_get, priskv_backend_set, priskv_backend_del and priskv_backend_test, their
--   callbacks and the eviction loop; the calls of a driver are the record `Driver`, of which nothing
--   is assumed, and Backend.Sample is a driver in memory for the tests. Backend.Through follows SET
--   and DEL through the chain. Backend.Link has parse_link, priskv_backend_register,
--   priskv_backend_open and priskv_backend_close.
-- Crc (server/crc.c): priskv_crc32 with its table, the hash of the keys.
-- Tiering (server/rdma.c): priskv_tiering_get, priskv_tiering_set, priskv_tiering_test and
--   priskv_tiering_del with their callbacks, which use Kv and Backend as they are defined there.
--   Whether a transfer is accepted, and what it brings, are arguments.
-- Transfer (server/rdma.c): the pieces of priskv_rdma_rw_req over the segments of the client, and
--   the completions that priskv_rdma_handle_rw counts. That a piece is posted and done is an event.
-- Requests (server/rdma.c): priskv_rdma_handle_recv without tiering devices over Kv and Transfer,
--   with the callbacks of priskv_rdma_handle_rw and the memory of a KEYS reply; Requests.Runs has the
--   runs of one connection. A response is always sent.
-- Cluster (cluster/client/client.c): the table of slots of a cluster with
--   priskvClusterMetaDataLoad, priskvClusterMetaDataUnload and priskvClusterGetNode. The numbers of
--   a range are not negative.
--
-- A failed assertion is `none`, and so is a write of a key behind its slot. The operations are
-- modelled one at a time: where the source holds a lock the model makes one step, and no other
-- thread comes between two steps of an operation. The current time is an argument, and a `long` a
-- number without bound; the theorem on SET and GET asks for times that a `long` holds.
--
-- Fuel: the walk down of `Buddy.alloc` has 33 rounds, since a `uint32_t` is halved to 0 in fewer;
-- the walks up have as many as the index, which falls in each. The search of the number of buckets
-- has 5 rounds for its nine primes. Eviction stops by itself after 129 rounds.
-- The eviction loop of a tiering device has one round more than its driver has entries to evict, and
-- a loop that goes on is `none`, of which no theorem speaks; opening a chain has as many as its address has bytes, and one. A segment of a transfer has as many
-- rounds as it has bytes, and one (Transfer.Enough: it takes at most four).
--
-- Parameters: in Kv and in Cluster the hash of a key, for which any function will do; the regular
-- expressions of the C library (`regcomp`), of which nothing is assumed; the driver of the tiering devices,
-- of which only how it opens and closes a device is assumed (Backend.Link.Opening; Backend.Link.Tests
-- has one that does so); and the transfers of the transport.
--
-- Not modelled: connecting, posting and polling (the rest of server/rdma.c), HTTP, the mapping of
-- memory, the drivers of the tiering devices, threads and timers, the rest of the clients, and the
-- JSON codec: these are calls of the system or of libraries around the store. Requests to one
-- tiering device run one after the other: what happens when the answers of several are awaited at
-- once is not modelled. The runs of Kv.Good.Reach and Requests.Runs begin with a new store, not
-- with one that priskv_recover has read.
pub mod Base
pub mod Buddy
pub mod Slab
pub mod Kv
pub mod Acl
pub mod Backend
pub mod Cluster
pub mod Crc
pub mod Memory
pub mod Policy
pub mod Requests
pub mod Tiering
pub mod Transfer
pub mod Units
