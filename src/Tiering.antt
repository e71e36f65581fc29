-- ===== src/Tiering.antt =====
-- server/rdma.c: the requests of a server with tiering devices, which keep the values while the
-- store holds those that are on their way: `priskv_tiering_get`, `priskv_tiering_set`,
-- `priskv_tiering_test` and `priskv_tiering_del` with their callbacks, from the moment that a
-- request executes to its response. Each transfer of the transport is an argument: whether
-- `priskv_rdma_rw_req` accepts it, and the bytes that it brings. A request has a device, since
-- `priskv_tiering_req_new` refuses one without, and a key without a byte 0, since the devices take
-- it as a C string. `none` is a failed assertion or an eviction loop that goes on.
pub mod Erase
mod Tests
use pris_kv.Base.{
  ℕ, ◌+◌, Option, none, some, Bool, true, false, List, [], ◌∷◌, ltb, ◌==◌, ◌||◌, length,
  if◌then◌else◌,
}
use pris_kv.Base.Time.{Timeval}
use pris_kv.Kv.State.{Kv, update_valuelen}
use pris_kv.Kv.Ops.{
  Status, ok, value_too_big, no_such_key, invalid_regex, key_updating, no_mem, GetReply, get_key,
  get_key_end, set_key_end, delete_key,
}
use pris_kv.Kv.Evict.{SetReply, set_key}
use pris_kv.Backend.{
  BackendStatus, status_ok, status_error, status_not_found, status_value_too_big, status_timeout,
  status_no_space, Answer, Got, Driver, Device, backend_get, backend_set, backend_del, backend_test,
}

-- `priskv_resp_status`: what the store answers, and the status SERVER_ERROR besides.
pub data Resp : Type 0 where
  of_store : Status → Resp
  server_error : Resp

-- What a request changes, with the response.
pub record Outcome (S : Type 0) : Type 0 where
  pub kv : Kv
  pub backend : Device S
  pub status : Resp
  pub length : ℕ

-- The switches of `priskv_tiering_get_backend_cb` (without OK), `priskv_tiering_test_backend_cb`
-- and `priskv_tiering_del_backend_cb`, and of `priskv_tiering_set_backend_cb`.
unfoldable pub get_failed : BackendStatus → Resp
get_failed status_value_too_big = of_store value_too_big
get_failed status_not_found = of_store no_such_key
get_failed status_ok = server_error
get_failed status_error = server_error
get_failed status_timeout = server_error
get_failed status_no_space = server_error

unfoldable pub found_status : BackendStatus → Resp
found_status status_ok = of_store ok
found_status status_not_found = of_store no_such_key
found_status status_error = server_error
found_status status_value_too_big = server_error
found_status status_timeout = server_error
found_status status_no_space = server_error

unfoldable pub set_status : BackendStatus → Resp
set_status status_ok = of_store ok
set_status status_no_space = of_store no_mem
set_status status_error = server_error
set_status status_not_found = server_error
set_status status_value_too_big = server_error
set_status status_timeout = server_error

unfoldable pub is_status_ok : Status → Bool
is_status_ok ok = true
is_status_ok value_too_big = false
is_status_ok no_such_key = false
is_status_ok invalid_regex = false
is_status_ok key_updating = false
is_status_ok no_mem = false

-- `status == PRISKV_RESP_STATUS_OK && keynode`
unfoldable pub node_of : Status → Option ℕ → Option ℕ
node_of status none = none
node_of status (some a) = if is_status_ok status then some a else none

-- The length that `priskv_get_key` writes, 0 before.
unfoldable pub valuelen_of : Option (ℕ × ℕ) → ℕ
valuelen_of none = 0
valuelen_of (some (v, n)) = n

module _ {S : Type 0} (d : Driver S) (crc32 : List ℕ → ℕ) where
  -- A response after `priskv_delete_key`, whose status is not looked at.
  unfoldable pub delete_and_finish : Kv → Device S → Timeval → List ℕ → Resp → Option (Outcome S)
  delete_and_finish kv dev now key status = elim (delete_key crc32 kv now key) [
    | none ↦ none
    | some (kv', unused) ↦ some (record { kv = kv'; backend = dev; status = status; length = 0 })
  ]

  -- `priskv_tiering_del` and `priskv_tiering_del_backend_cb`
  unfoldable pub tiering_del : Kv → Device S → Timeval → List ℕ → Option (Outcome S)
  tiering_del kv dev now key =
      let (dev', a) = backend_del d dev key in
      delete_and_finish kv dev' now key (found_status a.status)

  -- `priskv_tiering_set_rdma_complete_cb` and `priskv_tiering_set_backend_cb`; `valuelen` of the
  -- request is 0.
  unfoldable pub set_received :
      Kv → Device S → Timeval → List ℕ → ℕ → List ℕ → ℕ → Option (Outcome S)
  set_received kv dev now key keynode bytes timeout =
      let (dev', a) = backend_set d dev key bytes timeout in
      delete_and_finish (set_key_end kv (some keynode)) dev' now key (set_status a.status)

  -- `priskv_tiering_set`; `bytes` is what the client sends, in the length that it has announced.
  unfoldable pub tiering_set :
      Kv → Device S → Timeval → List ℕ → List ℕ → ℕ → Bool → Option (Outcome S)
  tiering_set kv dev now key bytes timeout accepted =
      elim (set_key crc32 kv now key (length bytes) timeout) [
        | none ↦ none
        | some (kv', r) ↦ elim (node_of r.status r.keynode) [
          | none ↦ some (record {
            kv = set_key_end kv' r.keynode;
            backend = dev;
            status = of_store r.status;
            length = 0;
          })
          | some a ↦
              if accepted
              then set_received kv' dev now key a bytes timeout
              else delete_and_finish (set_key_end kv' (some a)) dev now key (of_store no_mem)
        ]
      ]

  -- `priskv_tiering_test` and `priskv_tiering_test_backend_cb`
  unfoldable pub tiering_test : Kv → Device S → Timeval → List ℕ → Option (Outcome S)
  tiering_test kv dev now key = elim (get_key crc32 kv now key) [
    | none ↦ none
    | some (kv', r) ↦
        let found = valuelen_of r.value in
        let (dev', a) = backend_test d dev key in
        if is_status_ok r.status
        then elim (get_key_end kv' r.keynode) [
          | none ↦ none
          | some kv'' ↦
              some (record { kv = kv''; backend = dev; status = of_store ok; length = found })
        ]
        else some (record {
          kv = kv';
          backend = dev';
          status = found_status a.status;
          length = elim (found_status a.status) [
            | of_store s ↦ if is_status_ok s then a.length else 0
            | server_error ↦ 0
          ];
        })
  ]

  -- The end of a GET of a node that is held. When the transfer is not accepted, the reference is
  -- given back only where `given_back` says so.
  unfoldable pub send_value : Kv → Device S → ℕ → ℕ → Bool → Bool → Option (Outcome S)
  send_value kv dev keynode n accepted given_back =
      elim (if accepted || given_back then get_key_end kv (some keynode) else some kv) [
        | none ↦ none
        | some kv' ↦ some (record {
          kv = kv';
          backend = dev;
          status = if accepted then of_store ok else server_error;
          length = if accepted then n else 0;
        })
      ]

  -- `priskv_tiering_get` where the store has the key; the reference stays taken where the value is
  -- longer than the client's room.
  unfoldable pub get_stored : Kv → Device S → ℕ → ℕ → ℕ → Bool → Option (Outcome S)
  get_stored kv dev keynode n room accepted =
      if ltb room n
      then some (record { kv = kv; backend = dev; status = of_store value_too_big; length = n })
      else send_value kv dev keynode n accepted true

  -- `priskv_tiering_get_backend_cb`
  unfoldable pub get_backend_cb :
      Kv → Device S → Timeval → List ℕ → ℕ → Got → Bool → Option (Outcome S)
  get_backend_cb kv dev now key keynode g accepted = elim g.status [
    | status_ok ↦ elim (get_key crc32 (update_valuelen kv keynode g.length) now key) [
      | none ↦ none
      | some (kv', r) ↦ elim r.keynode [
        | none ↦ none
        | some a ↦ if a == keynode then send_value kv' dev keynode g.length accepted false else none
      ]
    ]
    | status_error ↦ delete_and_finish kv dev now key (get_failed g.status)
    | status_not_found ↦ delete_and_finish kv dev now key (get_failed g.status)
    | status_value_too_big ↦ delete_and_finish kv dev now key (get_failed g.status)
    | status_timeout ↦ delete_and_finish kv dev now key (get_failed g.status)
    | status_no_space ↦ delete_and_finish kv dev now key (get_failed g.status)
  ]

  -- `priskv_tiering_get` where the store does not have the key; `memory` is what the value memory
  -- holds that is taken for it, as long as the client's room.
  unfoldable pub get_missed :
      Kv → Device S → Timeval → List ℕ → List ℕ → ℕ → Bool → Option (Outcome S)
  get_missed kv dev now key memory timeout accepted =
      elim (set_key crc32 kv now key (length memory) timeout) [
        | none ↦ none
        | some (kv', r) ↦
            let kv'' = set_key_end kv' r.keynode in
            elim (node_of r.status r.keynode) [
              | none ↦
                  some (record { kv = kv''; backend = dev; status = of_store r.status; length = 0 })
              | some a ↦ elim (backend_get d dev key memory) [
                | none ↦ none
                | some (dev', g) ↦ get_backend_cb kv'' dev' now key a g accepted
              ]
            ]
      ]

  -- `priskv_tiering_get`
  unfoldable pub tiering_get :
      Kv → Device S → Timeval → List ℕ → List ℕ → ℕ → Bool → Option (Outcome S)
  tiering_get kv dev now key memory timeout accepted = elim (get_key crc32 kv now key) [
    | none ↦ none
    | some (kv', r) ↦ elim (node_of r.status r.keynode) [
      | none ↦ get_missed kv' dev now key memory timeout accepted
      | some a ↦ let n = valuelen_of r.value in get_stored kv' dev a n (length memory) accepted
    ]
  ]
