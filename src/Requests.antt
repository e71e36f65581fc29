-- ===== src/Requests.antt =====
-- server/rdma.c without tiering devices: `priskv_rdma_handle_recv`, from a request that has been
-- received to its response or to the transfer of its value, and the callbacks that
-- `priskv_rdma_handle_rw` makes when a transfer is done. The numbers of a request have been read
-- from the wire. What the transport decides is an argument: whether all pieces of a transfer are
-- posted, and whether the memory of a KEYS reply is there. A response is
-- always sent: its memory, with the assertion on it in `priskv_rdma_send_response`, is not modelled.
pub mod Recv
pub mod Switch
pub mod Served
pub mod Runs
mod Tests
use pris_kv.Base.{
  ℕ, zero, suc, ◌+◌, ◌-◌, ◌*◌, ◌%◌, Option, none, some, Bool, true, false, List, [], ◌∷◌, ltb, ◌==◌,
  if◌then◌else◌, length, take, get_elem?, set,
}
use pris_kv.Base.Time.{Timeval}
use pris_kv.Kv.State.{Kv}
use pris_kv.Kv.Ops.{
  Status, ok, value_too_big, no_such_key, invalid_regex, key_updating, no_mem, GetReply, get_key,
  get_key_end, set_key_end, delete_key, expire_key,
}
use pris_kv.Kv.Evict.{set_key}
use pris_kv.Kv.Sweep.{Keys, get_keys, flush_keys}
use pris_kv.Tiering.{is_status_ok, node_of, valuelen_of}
use pris_kv.Transfer.{KeyedSgl, sgl_size, rw_pieces, Work, posted, handle_rw}

-- `priskv_resp_status`: what the store answers, and what is answered without it.
pub data RespStatus : Type 0 where
  of_kv : Status → RespStatus
  invalid_command key_empty key_too_big invalid_sgl value_empty no_such_command : RespStatus

-- `priskv_req_command`; `unknown` is any other number.
pub data Command : Type 0 where
  command_get command_set command_test command_delete command_expire command_keys : Command
  command_nrkeys command_flush unknown : Command

abbrev pub command_at : ℕ → Command
command_at c =
    if c == 0
    then command_get
    else if c == 1
    then command_set
    else if c == 2
    then command_test
    else if c == 3
    then command_delete
    else if c == 4
    then command_expire
    else if c == 5
    then command_keys
    else if c == 6
    then command_nrkeys
    else if c == 7
    then command_flush
    else unknown

-- `priskv_request`, as received in `len` bytes; `memory` is what follows the segments.
pub record Received : Type 0 where
  pub len : ℕ
  pub command : ℕ
  pub timeout : ℕ
  pub sgls : List KeyedSgl
  pub memory : List ℕ

-- `priskv_request_key_off`; a `priskv_request` has 128 bytes and a `priskv_keyed_sgl` 16.
abbrev pub key_off : ℕ → ℕ
key_off nsgl = (128 + 16 * nsgl) % 65536

-- `priskv_rdma_conn_cap`
pub record ConnCap : Type 0 where
  pub max_sgl : ℕ
  pub max_key_length : ℕ

-- `priskv_response`
pub record Response : Type 0 where
  pub status : RespStatus
  pub length : ℕ

-- What is called when a transfer is done: `cb` with `cbarg`, or the end of a KEYS reply, with
-- the memory that its transfer was posted for (`work->mr`). A memory is named by its address.
pub data Callback : Type 0 where
  end_get end_set end_keys : ℕ → Callback

pub record Inflight : Type 0 where
  pub work : Work
  pub cb : Callback

-- What a request leaves: the store, the memory of the KEYS reply in flight, the transfer it has begun,
-- the response it has got, and whether the connection stays.
pub record Handled : Type 0 where
  pub kv : Kv
  pub keys_mr : Option ℕ
  pub started : Option Inflight
  pub response : Option Response
  pub stays : Bool

abbrev pub answer : Kv → Option ℕ → RespStatus → ℕ → Handled
answer kv keys_mr status length = record {
  kv = kv;
  keys_mr = keys_mr;
  started = none;
  response = some (record { status = status; length = length });
  stays = true;
}

abbrev pub refuse : Kv → Option ℕ → RespStatus → Handled
refuse kv keys_mr status = let h = answer kv keys_mr status 0 in record h { stays = false }

-- `priskv_rdma_rw_req`. Where a piece is not posted there is no transfer.
unfoldable pub rw_req : Bool → Kv → Option ℕ → List KeyedSgl → ℕ × ℕ → Callback → Option Handled
rw_req accepted kv keys_mr sgls (val, valuelen) cb = elim (rw_pieces val 0 valuelen sgls) [
  | none ↦ none
  | some ps ↦
      let h : Handled = record {
        kv = kv;
        keys_mr = keys_mr;
        started = none;
        response = none;
        stays = false;
      } in
      some (
        if accepted
        then record h {
          started = some (record { work = posted ps valuelen false; cb = cb });
          stays = true;
        }
        else h)
]

-- A response, and then `priskv_get_key_end`.
unfoldable pub answer_and_end : Kv → Option ℕ → Option ℕ → RespStatus → ℕ → Option Handled
answer_and_end kv keys_mr keynode status length = elim (get_key_end kv keynode) [
  | none ↦ none
  | some kv' ↦ some (answer kv' keys_mr status length)
]

abbrev pub place_of : Option (ℕ × ℕ) → ℕ × ℕ
place_of o = elim o [ none ↦ (0, 0) | some p ↦ p ]

abbrev pub value_of : Option ℕ → ℕ
value_of o = elim o [ none ↦ 0 | some v ↦ v ]

module _ (crc32 : List ℕ → ℕ) where
  -- PRISKV_COMMAND_GET
  unfoldable pub recv_get : Bool → Timeval → Kv → Option ℕ → List KeyedSgl → List ℕ → Option Handled
  recv_get accepted now kv keys_mr sgls key = elim (get_key crc32 kv now key) [
    | none ↦ none
    | some (kv', r) ↦ elim (node_of r.status r.keynode) [
      | none ↦ answer_and_end kv' keys_mr r.keynode (of_kv r.status) 0
      | some a ↦ elim (ltb (sgl_size 0 sgls) (valuelen_of r.value)) [
        | true ↦ answer_and_end kv' keys_mr (some a) (of_kv value_too_big) (valuelen_of r.value)
        | false ↦ rw_req accepted kv' keys_mr sgls (place_of r.value) (end_get a)
      ]
    ]
  ]

  -- PRISKV_COMMAND_SET
  unfoldable pub recv_set :
      Bool → Timeval → Kv → Option ℕ → List KeyedSgl → List ℕ → ℕ → Option Handled
  recv_set accepted now kv keys_mr sgls key timeout = elim (sgl_size 0 sgls == 0) [
    | true ↦ some (answer kv keys_mr value_empty 0)
    | false ↦ elim (set_key crc32 kv now key (sgl_size 0 sgls) timeout) [
      | none ↦ none
      | some (kv', r) ↦ elim (node_of r.status r.keynode) [
        | none ↦ some (answer (set_key_end kv' r.keynode) keys_mr (of_kv r.status) 0)
        | some a ↦ rw_req accepted kv' keys_mr sgls (value_of r.val, sgl_size 0 sgls) (end_set a)
      ]
    ]
  ]

  -- PRISKV_COMMAND_TEST
  unfoldable pub recv_test : Timeval → Kv → Option ℕ → List ℕ → Option Handled
  recv_test now kv keys_mr key = elim (get_key crc32 kv now key) [
    | none ↦ none
    | some (kv', r) ↦ answer_and_end kv' keys_mr r.keynode (of_kv r.status) (valuelen_of r.value)
  ]

  -- PRISKV_COMMAND_DELETE
  unfoldable pub recv_delete : Timeval → Kv → Option ℕ → List ℕ → Option Handled
  recv_delete now kv keys_mr key = elim (delete_key crc32 kv now key) [
    | none ↦ none
    | some (kv', status) ↦ some (answer kv' keys_mr (of_kv status) 0)
  ]

  -- PRISKV_COMMAND_EXPIRE
  unfoldable pub recv_expire : Timeval → Kv → Option ℕ → List ℕ → ℕ → Option Handled
  recv_expire now kv keys_mr key timeout = elim (expire_key crc32 kv now key timeout) [
    | none ↦ none
    | some (kv', status) ↦ some (answer kv' keys_mr (of_kv status) 0)
  ]

abbrev pub reallen_of : Option Keys → ℕ
reallen_of o = elim o [ none ↦ 0 | some k ↦ k.reallen ]

-- Is the status PRISKV_RESP_STATUS_VALUE_TOO_BIG?
abbrev pub is_too_big : Status → Bool
is_too_big status = elim status [
  | value_too_big ↦ true
  | ok ↦ false
  | no_such_key ↦ false
  | invalid_regex ↦ false
  | key_updating ↦ false
  | no_mem ↦ false
]

module _ (regcomp : List ℕ → Option (List ℕ → Bool)) where
  -- PRISKV_COMMAND_KEYS; `buf` is the memory of the reply, if there is any.
  unfoldable pub recv_keys :
      Bool → Option ℕ → Kv → Option ℕ → List KeyedSgl → List ℕ → Option Handled
  recv_keys accepted buf kv keys_mr sgls key = elim keys_mr [
    | some m ↦ some (answer kv (some m) (of_kv no_mem) 0)
    | none ↦ elim buf [
      | none ↦ some (answer kv none (of_kv no_mem) 0)
      | some b ↦
          let (status, k) = get_keys regcomp kv key (sgl_size 0 sgls) in
          elim (is_status_ok status) [
            | false ↦ some (answer kv none (of_kv status) (reallen_of k))
            | true ↦ elim (reallen_of k == 0) [
              | true ↦ some (answer kv none (of_kv status) (reallen_of k))
              | false ↦ elim accepted [
                | true ↦ rw_req true kv (some b) sgls (b, reallen_of k) (end_keys b)
                | false ↦ some (answer kv none (of_kv status) (reallen_of k))
              ]
            ]
          ]
    ]
  ]

  -- PRISKV_COMMAND_NRKEYS
  unfoldable pub recv_nrkeys : Kv → Option ℕ → List ℕ → Handled
  recv_nrkeys kv keys_mr key =
      let (status, k) = get_keys regcomp kv key 0 in
      if is_too_big status
      then answer kv keys_mr (of_kv ok) (elim k [ none ↦ 0 | some r ↦ r.nkey ])
      else answer kv keys_mr (of_kv status) 0

  -- PRISKV_COMMAND_FLUSH
  unfoldable pub recv_flush : Kv → Option ℕ → List ℕ → Option Handled
  recv_flush kv keys_mr key = elim (flush_keys regcomp kv key) [
    | none ↦ none
    | some (kv', status, nkey) ↦ some (answer kv' keys_mr (of_kv status) (value_of nkey))
  ]

-- A server: the store, and what goes on for a connection.
pub record Server : Type 0 where
  pub kv : Kv
  pub keys_mr : Option ℕ
  pub works : List Inflight

-- What the transport decides on a request.
pub record Transport : Type 0 where
  pub accepted : Bool
  pub buf : Option ℕ

module _ (crc32 : List ℕ → ℕ) (regcomp : List ℕ → Option (List ℕ → Bool)) where
  -- The `switch` of `priskv_rdma_handle_recv`
  unfoldable pub recv_command :
      Command → Transport → Timeval → Kv → Option ℕ → List KeyedSgl → List ℕ → ℕ → Option Handled
  recv_command command_get t now kv busy sgls key timeout =
      recv_get crc32 t.accepted now kv busy sgls key
  recv_command command_set t now kv busy sgls key timeout =
      recv_set crc32 t.accepted now kv busy sgls key timeout
  recv_command command_test t now kv busy sgls key timeout = recv_test crc32 now kv busy key
  recv_command command_delete t now kv busy sgls key timeout = recv_delete crc32 now kv busy key
  recv_command command_expire t now kv busy sgls key timeout =
      recv_expire crc32 now kv busy key timeout
  recv_command command_keys t now kv busy sgls key timeout =
      recv_keys regcomp t.accepted t.buf kv busy sgls key
  recv_command command_nrkeys t now kv busy sgls key timeout =
      some (recv_nrkeys regcomp kv busy key)
  recv_command command_flush t now kv busy sgls key timeout = recv_flush regcomp kv busy key
  recv_command unknown t now kv busy sgls key timeout = some (refuse kv busy no_such_command)

module _ (crc32 : List ℕ → ℕ) (regcomp : List ℕ → Option (List ℕ → Bool)) (cap : ConnCap) where
  -- `priskv_rdma_handle_recv`
  unfoldable pub handle_recv : Transport → Timeval → Kv → Option ℕ → Received → Option Handled
  handle_recv t now kv busy r =
      let nsgl = length r.sgls in
      let keylen = (r.len - key_off nsgl) % 65536 in
      elim (ltb r.len (key_off nsgl)) [
        | true ↦ some (refuse kv busy invalid_command)
        | false ↦ elim (keylen == 0) [
          | true ↦ some (refuse kv busy key_empty)
          | false ↦ elim (ltb cap.max_key_length keylen) [
            | true ↦ some (refuse kv busy key_too_big)
            | false ↦ elim (ltb cap.max_sgl nsgl) [
              | true ↦ some (refuse kv busy invalid_sgl)
              | false ↦
                  recv_command crc32 regcomp (command_at r.command) t now kv busy r.sgls
                    (take keylen r.memory) r.timeout
            ]
          ]
        ]
      ]

  -- The server after a request.
  unfoldable pub recv : Transport → Timeval → Received → Server → Option Server
  recv t now r s = elim (handle_recv t now s.kv s.keys_mr r) [
    | none ↦ none
    | some h ↦ some (record {
      kv = h.kv;
      keys_mr = h.keys_mr;
      works = elim h.started [ none ↦ s.works | some w ↦ w ∷ s.works ];
    })
  ]

-- The callback of a transfer that is done, and the end of `priskv_rdma_complete_rw_work`, which
-- gives back the memory of a KEYS reply. `none` is a failed assertion, also `work->mr == rmem->mr`.
unfoldable pub run_callback : Callback → Server → Option Server
run_callback (end_get a) s = elim (get_key_end s.kv (some a)) [
  | none ↦ none
  | some kv ↦ some (record s { kv = kv })
]
run_callback (end_set a) s = some (record s { kv = set_key_end s.kv (some a) })
run_callback (end_keys mr) s = elim s.keys_mr [
  | none ↦ none
  | some m ↦ if m == mr then some (record s { keys_mr = none }) else none
]

unfoldable pub drop_at : List Inflight → ℕ → List Inflight
drop_at [] i = []
drop_at (w ∷ l) zero = l
drop_at (w ∷ l) (suc i) = w ∷ drop_at l i

-- The completion of a piece of the transfer `i`, with `priskv_rdma_handle_rw`.
unfoldable pub done_piece : ℕ → Server → Option Server
done_piece i s = elim (get_elem? s.works i) [
  | none ↦ some s
  | some w ↦ elim (handle_rw w.work) [
    | none ↦ none
    | some (work, called, sent) ↦ elim called [
      | false ↦ some (record s { works = set s.works i (record w { work = work }) })
      | true ↦ run_callback w.cb (record s { works = drop_at s.works i })
    ]
  ]
]
