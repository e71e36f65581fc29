-- ===== src/Tiering/Erase.antt =====
-- DEL and SET through the store and the tiering devices (server/rdma.c), on every store that requests
-- lead to and for every driver: they end with a response, which is that of the devices, and the
-- store does not keep the key.
use pris_kv.Base.{ℕ, ◌≡◌, ◌≢◌, none, some, List, [], sym, subst, refl, arith, inl, inr, length}
use pris_kv.Base.Time.{Timeval}
use pris_kv.Kv.State.{Kv}
use pris_kv.Kv.Ops.{Status, no_key, get_key, delete_key}
use pris_kv.Kv.Delete.{get_key-absent, delete_key-get_key}
use pris_kv.Kv.Good.{Good}
use pris_kv.Kv.Good.Ops.{Good-delete_key}
use pris_kv.Kv.Good.Set.{Good-Once}
use pris_kv.Kv.Good.Reach.{Shared, Reachable, Reachable-Good}
use pris_kv.Backend.{Driver, Device, backend_del}
use pris_kv.Backend.Through.{last, Through, backend_del_lem}
use pris_kv.Tiering.{Outcome, found_status, delete_and_finish, tiering_del}

module _ (crc32 : List ℕ → ℕ) where
  -- A key is taken out of a store, which then does not find it.
  Good-erased :
      {klen n : ℕ} {held : ℕ → ℕ} (kv : Kv) (now now' : Timeval) (key : List ℕ)
      → key ≢ []
      → Good crc32 klen n held none none kv
      → (kv' : Kv) × (st : Status) × (delete_key crc32 kv now key ≡ some (kv', st))
        × (get_key crc32 kv' now' key ≡ some (kv', no_key))
  Good-erased kv now now' key ne g =
      let (kv', st, e, _) = Good-delete_key now key g in
      (
        kv',
        st,
        e,
        elim (delete_key-get_key crc32 kv now now' key ne (Good-Once g key) e) [
          | inl (_, gone) ↦ gone
          | inr (_, same, absent) ↦
              subst (λ x. get_key crc32 x now' key ≡ some (x, no_key)) (sym same)
                (get_key-absent crc32 kv now' key absent)
        ],
      )

module _ {S : Type 0} (d : Driver S) (crc32 : List ℕ → ℕ) {klen n : ℕ} where
  -- A DEL ends with a response: the devices are asked first, the last one before those above it,
  -- and the response is what they answer; whatever it is, a GET of the key from the store finds
  -- nothing afterwards and leaves the store as it is. So it is for every driver, on every store that
  -- requests lead to and for a key that is not empty.
  pub tiering_del-get_key :
      (s : Shared) (dev : Device S) (now now' : Timeval) (key : List ℕ)
      → Reachable crc32 klen n s
      → key ≢ []
      → let r = backend_del d dev key in
        (t : Outcome S) × (tiering_del d crc32 s.kv dev now key ≡ some t)
        × (t.status ≡ found_status r.1.status)
        × Through d key (d.del (last dev) key) dev t.backend r.1
        × (get_key crc32 t.kv now' key ≡ some (t.kv, no_key))
  unfolding tiering_del delete_and_finish
  tiering_del-get_key s dev now now' key reach ne =
      let r = backend_del d dev key in
      let (kv', st, e, gone) = Good-erased crc32 s.kv now now' key ne (Reachable-Good s reach) in
      let t : Outcome S = record {
        kv = kv';
        backend = r.0;
        status = found_status r.1.status;
        length = 0;
      } in
      (t, ground (arith, e), refl, backend_del_lem d key dev, gone)
