-- ===== src/Requests/Recv.antt =====
-- Each request that `priskv_rdma_handle_recv` (server/rdma.c) serves keeps the invariant of the
-- store, and leaves a reference only to a transfer that gives it back.
use pris_kv.Base.{
  ℕ, ◌≤◌, ◌<◌, ◌≡◌, ◌≢◌, inl, inr, arith, refl, subst, Option, none, some, Bool, true, false, List,
  [], ltb, ◌==◌, length, Bool-cases, Option-cases,
}
use pris_kv.Base.Time.{Timeval}
use pris_kv.Kv.State.{Kv}
use pris_kv.Kv.Ops.{Status, value_too_big, get_key_end, set_key_end}
use pris_kv.Tiering.{node_of, valuelen_of}
use pris_kv.Transfer.{KeyedSgl, sgl_size, posted}
use pris_kv.Transfer.Enough.{Words, rw_pieces_enough}
use pris_kv.Kv.Good.{Good}
use pris_kv.Kv.Good.Refs.{more, less-more, more_self, Good-held}
use pris_kv.Kv.Good.Ops.{
  taken, Spare, Good-get_key, Good-get_key_end, Good-set_key_end, Good-delete_key, Good-expire_key,
}
use pris_kv.Kv.Good.Set.{set_key-Good}
use pris_kv.Kv.Good.Sweeps.{flush_keys-Good}
use pris_kv.Requests.{
  RespStatus, of_kv, value_empty, Callback, end_get, end_set, end_keys, Inflight, Handled, answer,
  refuse, rw_req, answer_and_end, recv_get, recv_set, recv_test, recv_delete, recv_expire,
  recv_flush, place_of, value_of,
}

-- The references, with that of a callback.
unfoldable pub held_with : Callback → (ℕ → ℕ) → ℕ → ℕ
held_with (end_get a) held = more held a
held_with (end_set a) held = held
held_with (end_keys mr) held = held

-- Not more pieces are done than were posted, and these are fewer than 65536.
pub record Running (w : Inflight) : Type 0 where
  pub completed : w.work.completed ≤ w.work.nsgl
  pub few : w.work.nsgl < 65536

-- How often a memory is that of a KEYS reply, by the server, and with the transfer of a callback.
unfoldable pub mr_count : Option ℕ → ℕ → ℕ
mr_count none m = 0
mr_count (some a) m = more (λ x. 0) a m

unfoldable pub mr_with : Callback → (ℕ → ℕ) → ℕ → ℕ
mr_with (end_get a) used = used
mr_with (end_set a) used = used
mr_with (end_keys mr) used = more used mr

unfoldable pub mr_after : Option Inflight → (ℕ → ℕ) → ℕ → ℕ
mr_after none used = used
mr_after (some w) used = mr_with w.cb used

unfoldable pub held_after : Option Inflight → (ℕ → ℕ) → ℕ → ℕ
held_after none held = held
held_after (some w) held = held_with w.cb held

unfoldable pub Began : Option Inflight → Type 0
Began none = Unit {0}
Began (some w) = Running w

-- What a request has to leave.
pub record Kept (hash : List ℕ → ℕ) (klen n : ℕ) (held : ℕ → ℕ) (mr : Option ℕ) (h : Handled)
    : Type 0 where
  pub store : Good hash klen n (held_after h.started held) none none h.kv
  pub work : Began h.started
  pub keys : (m : ℕ) → mr_after h.started (mr_count mr) m ≡ mr_count h.keys_mr m

-- The segments of a request: of 32-bit lengths, and so few that the pieces can be counted.
pub record Segments (sgls : List KeyedSgl) : Type 0 where
  pub words : Words sgls
  pub few : length sgls ≤ 16383

node_of-some : (status : Status) (o : Option ℕ) {a : ℕ} → node_of status o ≡ some a → o ≡ some a
unfolding node_of
node_of-some status none h = absurd (cc h)
node_of-some status (some b) h = ground (arith, h)

module _ {hash : List ℕ → ℕ} {klen n : ℕ} {held : ℕ → ℕ} where
  pub answer-Kept :
      (kv : Kv) (busy : Option ℕ) (status : RespStatus) (len : ℕ)
      → Good hash klen n held none none kv
      → Kept hash klen n held busy (answer kv busy status len)
  unfolding held_after Began mr_after
  answer-Kept kv busy status len g = record { store = g; work = tt; keys = λ m. refl }

  pub refuse-Kept :
      (kv : Kv) (busy : Option ℕ) (status : RespStatus)
      → Good hash klen n held none none kv
      → Kept hash klen n held busy (refuse kv busy status)
  unfolding held_after Began mr_after
  refuse-Kept kv busy status g = record { store = g; work = tt; keys = λ m. refl }

  pub rw_req-Kept :
      (kv : Kv) (busy mr : Option ℕ) (sgls : List KeyedSgl) (val valuelen : ℕ) (cb : Callback)
      → ((m : ℕ) → mr_with cb (mr_count busy) m ≡ mr_count mr m)
      → Segments sgls
      → Good hash klen n (held_with cb held) none none kv
      → (h : Handled) × (rw_req true kv mr sgls (val, valuelen) cb ≡ some h)
        × Kept hash klen n held busy h
  unfolding rw_req posted held_after Began mr_after mr_with
  rw_req-Kept kv busy mr sgls val valuelen cb keys q g =
      let (ps, e, many, few) = rw_pieces_enough val 0 valuelen sgls q.words in
      let w : Inflight = record { work = posted ps valuelen false; cb = cb } in
      let small : length ps < 65536 = omega (arith, few, q.few) in
      (
        record { kv = kv; keys_mr = mr; started = some w; response = none; stays = true },
        ground (arith, e),
        record {
          store = g;
          work = record { completed = omega arith; few = omega (arith, small) };
          keys = keys;
        },
      )

  pub answer_and_end-Kept :
      (kv : Kv) (busy : Option ℕ) (o : Option ℕ) (status : RespStatus) (len : ℕ)
      → Good hash klen n (taken o held) none none kv
      → (h : Handled) × (answer_and_end kv busy o status len ≡ some h)
        × Kept hash klen n held busy h
  unfolding answer_and_end taken get_key_end
  answer_and_end-Kept kv busy none status len g =
      (answer kv busy status len, refl, answer-Kept kv busy status len g)
  answer_and_end-Kept kv busy (some a) status len g =
      let (kv', e, q) = Good-get_key_end a (omega (arith, more_self held a)) g in
      (
        answer kv' busy status len,
        ground (arith, e),
        answer-Kept kv' busy status len (Good-held held (less-more held a) q),
      )

  pub recv_get-Kept :
      (now : Timeval) (kv : Kv) (busy : Option ℕ) (sgls : List KeyedSgl) (key : List ℕ)
      → Segments sgls
      → Spare held
      → Good hash klen n held none none kv
      → (h : Handled) × (recv_get hash true now kv busy sgls key ≡ some h)
        × Kept hash klen n held busy h
  unfolding recv_get taken held_with mr_with
  recv_get-Kept now kv busy sgls key segs spare g =
      let (kv', r, e, q) = Good-get_key now key spare g in
      elim (Option-cases (node_of r.status r.keynode)) [
        | inl gone ↦
            let (h, f, k) = answer_and_end-Kept kv' busy r.keynode (of_kv r.status) 0 q in
            (h, ground (arith, e, gone, f), k)
        | inr (a, at) ↦
            let q' : Good hash klen n (more held a) none none kv' =
              subst (λ o. Good hash klen n (taken o held) none none kv')
                (node_of-some r.status r.keynode at) q in
            elim (Bool-cases (ltb (sgl_size 0 sgls) (valuelen_of r.value))) [
              | inl big ↦
                  let (h, f, k) =
                    answer_and_end-Kept kv' busy (some a) (of_kv value_too_big)
                      (valuelen_of r.value) q' in
                  (h, ground (arith, e, at, big, f), k)
              | inr fine ↦
                  let (val, len) = place_of r.value in
                  let (h, f, k) =
                    rw_req-Kept kv' busy busy sgls val len (end_get a) (λ m. refl) segs q' in
                  (h, ground (arith, e, at, fine, f), k)
            ]
      ]

  pub recv_set-Kept :
      (now : Timeval) (kv : Kv) (busy : Option ℕ) (sgls : List KeyedSgl) (key : List ℕ)
      (timeout : ℕ)
      → Segments sgls
      → sgl_size 0 sgls ≤ 2147483648
      → key ≢ []
      → length key ≤ klen
      → Good hash klen n held none none kv
      → (h : Handled) × (recv_set hash true now kv busy sgls key timeout ≡ some h)
        × Kept hash klen n held busy h
  unfolding recv_set held_with mr_with
  recv_set-Kept now kv busy sgls key timeout segs small ne short g =
      elim (Bool-cases (sgl_size 0 sgls == 0)) [
        | inl z ↦
            (answer kv busy value_empty 0, ground (arith, z), answer-Kept kv busy value_empty 0 g)
        | inr nz ↦
            let pos : 0 < sgl_size 0 sgls = ground (arith, nz) in
            let (kv', r, e, q) =
              set_key-Good kv now key (sgl_size 0 sgls) timeout ne short pos small g in
            elim (Option-cases (node_of r.status r.keynode)) [
              | inl gone ↦ (
                answer (set_key_end kv' r.keynode) busy (of_kv r.status) 0,
                ground (arith, nz, e, gone),
                answer-Kept (set_key_end kv' r.keynode) busy (of_kv r.status) 0
                    (Good-set_key_end r.keynode q),
              )
              | inr (a, at) ↦
                  let (h, f, k) =
                    rw_req-Kept kv' busy busy sgls (value_of r.val) (sgl_size 0 sgls) (end_set a)
                      (λ m. refl) segs q in
                  (h, ground (arith, nz, e, at, f), k)
            ]
      ]

  pub recv_test-Kept :
      (now : Timeval) (kv : Kv) (busy : Option ℕ) (key : List ℕ)
      → Spare held
      → Good hash klen n held none none kv
      → (h : Handled) × (recv_test hash now kv busy key ≡ some h) × Kept hash klen n held busy h
  unfolding recv_test
  recv_test-Kept now kv busy key spare g =
      let (kv', r, e, q) = Good-get_key now key spare g in
      let (h, f, k) =
        answer_and_end-Kept kv' busy r.keynode (of_kv r.status) (valuelen_of r.value) q in
      (h, ground (arith, e, f), k)

  pub recv_delete-Kept :
      (now : Timeval) (kv : Kv) (busy : Option ℕ) (key : List ℕ)
      → Good hash klen n held none none kv
      → (h : Handled) × (recv_delete hash now kv busy key ≡ some h) × Kept hash klen n held busy h
  unfolding recv_delete
  recv_delete-Kept now kv busy key g =
      let (kv', status, e, q) = Good-delete_key now key g in
      (answer kv' busy (of_kv status) 0, ground (arith, e), answer-Kept kv' busy (of_kv status) 0 q)

  pub recv_expire-Kept :
      (now : Timeval) (kv : Kv) (busy : Option ℕ) (key : List ℕ) (timeout : ℕ)
      → Spare held
      → Good hash klen n held none none kv
      → (h : Handled) × (recv_expire hash now kv busy key timeout ≡ some h)
        × Kept hash klen n held busy h
  unfolding recv_expire
  recv_expire-Kept now kv busy key timeout spare g =
      let (kv', status, e, q) = Good-expire_key now key timeout spare g in
      (answer kv' busy (of_kv status) 0, ground (arith, e), answer-Kept kv' busy (of_kv status) 0 q)

  pub recv_flush-Kept :
      (regcomp : List ℕ → Option (List ℕ → Bool)) (kv : Kv) (busy : Option ℕ) (key : List ℕ)
      → Good hash klen n held none none kv
      → (h : Handled) × (recv_flush regcomp kv busy key ≡ some h) × Kept hash klen n held busy h
  unfolding recv_flush
  recv_flush-Kept regcomp kv busy key g =
      let (kv', status, nkey, e, q) = flush_keys-Good regcomp kv key g in
      (
        answer kv' busy (of_kv status) (value_of nkey),
        ground (arith, e),
        answer-Kept kv' busy (of_kv status) (value_of nkey) q,
      )
