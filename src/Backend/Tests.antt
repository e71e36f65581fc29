-- ===== src/Backend/Tests.antt =====
-- The chain of devices at a driver in memory.
use pris_kv.Base.{ℕ, ◌≡◌, some, List, [], ◌∷◌, refl}
use pris_kv.Kv.Find.{same_bytes}
use pris_kv.Backend.{
  Got, Device, leaf, tier, status_ok, freeup, is_ok, freeup_loop, cache, fill_cache, child_get_cb,
  child_set_cb, backend_get, backend_set,
}
use pris_kv.Backend.Link.{advance}
use pris_kv.Backend.Through.{last, Through, backend_set_lem}
use pris_kv.Backend.Sample.{Entries, lookup, without, fetch, forget_all, memory}

abbrev key_a : List ℕ
key_a = b'a' ∷ []

abbrev val_a : List ℕ
val_a = 7 ∷ 8 ∷ []

abbrev buffer : List ℕ
buffer = 0 ∷ 0 ∷ []

-- A cache that is full, above a device with one value.
abbrev chain : Device Entries
chain = tier ((b'b' ∷ [], 1 ∷ []) ∷ (b'c' ∷ [], 2 ∷ []) ∷ []) (leaf ((key_a, val_a) ∷ []))

abbrev cached_chain : Device Entries
cached_chain = tier ((key_a, val_a) ∷ []) (leaf ((key_a, val_a) ∷ []))

abbrev got_a : Got
got_a = record { status = status_ok; length = 2; val = val_a }

-- The value is read from below, and cached in the room of what was there.
chain-get : backend_get memory chain key_a buffer ≡ some (cached_chain, got_a)
unfolding backend_get child_get_cb fill_cache freeup freeup_loop cache is_ok memory forget_all fetch
    lookup without same_bytes advance
chain-get = refl

-- After a SET, no cached value is left above the last device.
chain-set :
    backend_set memory cached_chain key_a (9 ∷ []) 0
    ≡ (tier [] (leaf ((key_a, 9 ∷ []) ∷ [])), record { status = status_ok; length = 0 })
unfolding backend_set child_set_cb is_ok memory lookup without same_bytes
chain-set = refl

backend_set_lem_example :
    let r = backend_set memory cached_chain key_a (9 ∷ []) 0 in
    Through memory key_a (memory.set (last cached_chain) key_a (9 ∷ []) 0) cached_chain r.0 r.1
backend_set_lem_example = backend_set_lem memory key_a cached_chain (9 ∷ []) 0
