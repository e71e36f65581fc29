-- ===== src/Backend.antt =====
-- server/backend/backend.c and backend.h: the chain of tiering devices, each of which caches its
-- child. A device is its driver with its private data, a value of `S`; the calls of the driver are
-- the record `Driver`, where a callback is the answer that the call returns. One request runs to
-- its last callback before the next one starts, as the server orders them by key.
pub mod Link
pub mod Through
pub mod Sample
mod Tests
use pris_kv.Base.{
  ℕ, zero, suc, Option, none, some, Bool, true, false, List, [], ◌∷◌, if◌then◌else◌, not,
}

-- `priskv_backend_status`
pub data BackendStatus : Type 0 where
  status_ok status_error status_not_found status_value_too_big status_timeout : BackendStatus
  status_no_space : BackendStatus

-- `status == PRISKV_BACKEND_STATUS_OK`
unfoldable pub is_ok : BackendStatus → Bool
is_ok status_ok = true
is_ok status_error = false
is_ok status_not_found = false
is_ok status_value_too_big = false
is_ok status_timeout = false
is_ok status_no_space = false

-- The arguments of `priskv_backend_driver_cb`.
pub record Answer : Type 0 where
  pub status : BackendStatus
  pub length : ℕ

-- The arguments of the callback of a GET, with the bytes of the reader's buffer by then.
pub record Got : Type 0 where
  pub status : BackendStatus
  pub length : ℕ
  pub val : List ℕ

-- The calls of `priskv_backend_driver` on an open device, the table of functions that each driver
-- fills in. `S` is all that their answers depend on, the disk or the server behind the device too.
-- Nothing is assumed of them. `entries` is no part of the code: the
-- number of its evictions that can succeed one after the other, the fuel of the loop below.
pub record Driver (S : Type 0) : Type 0 where
  pub is_cacheable : S → ℕ → Bool
  pub get : S → List ℕ → List ℕ → S × Got
  pub set : S → List ℕ → List ℕ → ℕ → S × Answer
  pub del : S → List ℕ → S × Answer
  pub test : S → List ℕ → S × Answer
  pub evict : S → S × Answer
  pub entries : S → ℕ

-- `priskv_backend_device`, without a child and with one
pub data Device (S : Type 0) : Type 0 where
  leaf : S → Device S
  tier : S → Device S → Device S

module _ {S : Type 0} (d : Driver S) where
  -- `_priskv_backend_freeup` and `priskv_backend_freeup_cb`, which call each other; `none` is a
  -- loop that goes on.
  unfoldable pub freeup_loop : ℕ → S → ℕ → Option (S × BackendStatus)
  freeup_loop zero s valuelen = none
  freeup_loop (suc fuel) s valuelen =
      let (s', a) = d.evict s in
      let rest = freeup_loop fuel s' valuelen in
      if not (d.is_cacheable s valuelen)
      then (if is_ok a.status then rest else some (s', a.status))
      else some (s, status_ok)

  -- `priskv_backend_freeup`
  unfoldable pub freeup : S → ℕ → Option (S × BackendStatus)
  freeup s valuelen = freeup_loop (suc (d.entries s)) s valuelen

  -- `priskv_backend_cache` and `priskv_backend_cache_cb`; the value is the whole buffer.
  unfoldable pub cache : S → List ℕ → List ℕ → BackendStatus → ℕ → S × Answer
  cache s key val status length =
      let (s', a) = d.set s key val 0 in
      if is_ok status
      then (s', record { status = status_ok; length = a.length })
      else (s, record { status = status_ok; length = length })

  -- `priskv_backend_child_get_cb` with an answer of the child that is a success
  unfoldable pub fill_cache : S → Device S → List ℕ → Got → Option (Device S × Got)
  fill_cache s child key g = elim (freeup s g.length) [
    | none ↦ none
    | some (s', status) ↦
        let (s'', a) = cache s' key g.val status g.length in
        some (tier s'' child, record g { status = a.status; length = a.length })
  ]

  -- `priskv_backend_child_get_cb`
  unfoldable pub child_get_cb : S → List ℕ → Option (Device S × Got) → Option (Device S × Got)
  child_get_cb s key none = none
  child_get_cb s key (some (child, g)) =
      if is_ok g.status then fill_cache s child key g else some (tier s child, g)

  -- `priskv_backend_get` and `priskv_backend_get_cb`; the buffer holds `valuelen` bytes.
  unfoldable pub backend_get : Device S → List ℕ → List ℕ → Option (Device S × Got)
  backend_get (leaf s) key val = let (s', g) = d.get s key val in some (leaf s', g)
  backend_get (tier s child) key val =
      let (s', g) = d.get s key val in
      let below = backend_get child key g.val in
      if is_ok g.status then some (tier s' child, g) else child_get_cb s' key below

  -- `priskv_backend_child_set_cb` and `priskv_backend_child_del_cb`
  unfoldable pub child_set_cb : S → List ℕ → Device S × Answer → Device S × Answer
  child_set_cb s key (child, a) =
      let (s', b) = d.del s key in if is_ok a.status then (tier s' child, b) else (tier s child, a)

  -- `priskv_backend_set`
  unfoldable pub backend_set : Device S → List ℕ → List ℕ → ℕ → Device S × Answer
  backend_set (leaf s) key val timeout = let (s', a) = d.set s key val timeout in (leaf s', a)
  backend_set (tier s child) key val timeout =
      child_set_cb s key (backend_set child key val timeout)

  -- `priskv_backend_del`
  unfoldable pub backend_del : Device S → List ℕ → Device S × Answer
  backend_del (leaf s) key = let (s', a) = d.del s key in (leaf s', a)
  backend_del (tier s child) key = child_set_cb s key (backend_del child key)

  -- `priskv_backend_test` and `priskv_backend_test_cb`
  unfoldable pub backend_test : Device S → List ℕ → Device S × Answer
  backend_test (leaf s) key = let (s', a) = d.test s key in (leaf s', a)
  backend_test (tier s child) key =
      let (s', a) = d.test s key in
      let (child', b) = backend_test child key in
      if is_ok a.status then (tier s' child, a) else (tier s' child', b)
