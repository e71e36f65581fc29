-- ===== src/Requests/Switch.antt =====
-- The whole of `priskv_rdma_handle_recv` (server/rdma.c) keeps the invariant of the store, where the
-- transport posts all pieces of a transfer.
use pris_kv.Base.{
  ℕ, zero, suc, ◌-◌, ◌%◌, ◌≤◌, ◌<◌, ◌≡◌, ◌≢◌, inl, inr, arith, refl, Option, none, some, Bool, true,
  List, [], ◌∷◌, ltb, ◌==◌, length, take, Bool-cases,
}
use pris_kv.Base.Time.{Timeval}
use pris_kv.Kv.State.{Kv}
use pris_kv.Kv.Ops.{no_mem, ok}
use pris_kv.Kv.Sweep.{get_keys}
use pris_kv.Tiering.{is_status_ok}
use pris_kv.Transfer.{KeyedSgl, sgl_size}
use pris_kv.Kv.Good.{Good}
use pris_kv.Kv.Good.Ops.{Spare}
use pris_kv.Requests.{
  of_kv, invalid_command, key_empty, key_too_big, invalid_sgl, no_such_command, Command,
  command_get, command_set, command_test, command_delete, command_expire, command_keys,
  command_nrkeys, command_flush, unknown, command_at, Received, key_off, ConnCap, end_keys, Handled,
  answer, refuse, reallen_of, recv_keys, recv_nrkeys, is_too_big, recv_command, handle_recv,
}
use pris_kv.Requests.Recv.{
  held_with, mr_with, mr_count, Kept, Segments, answer-Kept, refuse-Kept, rw_req-Kept,
  recv_get-Kept, recv_set-Kept, recv_test-Kept, recv_delete-Kept, recv_expire-Kept, recv_flush-Kept,
}

module _ {hash : List ℕ → ℕ} {klen n : ℕ} {held : ℕ → ℕ} where
  recv_keys-Kept :
      (regcomp : List ℕ → Option (List ℕ → Bool)) (accepted : Bool) (buf : Option ℕ) (kv : Kv)
      (busy : Option ℕ) (sgls : List KeyedSgl) (key : List ℕ)
      → Segments sgls
      → Good hash klen n held none none kv
      → (h : Handled) × (recv_keys regcomp accepted buf kv busy sgls key ≡ some h)
        × Kept hash klen n held busy h
  unfolding recv_keys held_with mr_with mr_count
  recv_keys-Kept regcomp accepted buf kv (some m) sgls key segs g =
      (answer kv (some m) (of_kv no_mem) 0, refl, answer-Kept kv (some m) (of_kv no_mem) 0 g)
  recv_keys-Kept regcomp accepted none kv none sgls key segs g =
      (answer kv none (of_kv no_mem) 0, refl, answer-Kept kv none (of_kv no_mem) 0 g)
  recv_keys-Kept regcomp accepted (some b) kv none sgls key segs g =
      let (status, k) = get_keys regcomp kv key (sgl_size 0 sgls) in
      let len = reallen_of k in
      let h = answer kv none (of_kv status) len in
      let q = answer-Kept kv none (of_kv status) len g in
      elim (Bool-cases (is_status_ok status)) [
        | inr bad ↦ (h, ground (arith, bad), q)
        | inl fine ↦ elim (Bool-cases (len == 0)) [
          | inl z ↦ (h, ground (arith, fine, z), q)
          | inr nz ↦ elim (Bool-cases accepted) [
            | inr lost ↦ (h, ground (arith, fine, nz, lost), q)
            | inl posted_all ↦
                let (h', f, q') =
                  rw_req-Kept kv none (some b) sgls b len (end_keys b) (λ m. refl) segs g in
                (h', ground (arith, fine, nz, posted_all, f), q')
          ]
        ]
      ]

  recv_nrkeys-Kept :
      (regcomp : List ℕ → Option (List ℕ → Bool)) (kv : Kv) (busy : Option ℕ) (key : List ℕ)
      → Good hash klen n held none none kv
      → Kept hash klen n held busy (recv_nrkeys regcomp kv busy key)
  unfolding recv_nrkeys
  recv_nrkeys-Kept regcomp kv busy key g =
      let (status, k) = get_keys regcomp kv key 0 in
      elim (Bool-cases (is_too_big status)) [
        | inl t ↦ rw t (answer-Kept kv busy (of_kv ok) (elim k [ none ↦ 0 | some r ↦ r.nkey ]) g)
        | inr f ↦ rw f (answer-Kept kv busy (of_kv status) 0 g)
      ]

  recv_command-Kept :
      (regcomp : List ℕ → Option (List ℕ → Bool)) (c : Command) (buf : Option ℕ) (now : Timeval)
      (kv : Kv) (busy : Option ℕ) (sgls : List KeyedSgl) (key : List ℕ) (timeout : ℕ)
      → Segments sgls
      → sgl_size 0 sgls ≤ 2147483648
      → key ≢ []
      → length key ≤ klen
      → Spare held
      → Good hash klen n held none none kv
      → (h : Handled) × (recv_command hash regcomp c
            (record { accepted = true; buf = buf })
            now
            kv
            busy
            sgls
            key
            timeout
          ≡ some h)
        × Kept hash klen n held busy h
  unfolding recv_command
  recv_command-Kept regcomp command_get buf now kv busy sgls key timeout segs small ne short spare
        g =
      recv_get-Kept now kv busy sgls key segs spare g
  recv_command-Kept regcomp command_set buf now kv busy sgls key timeout segs small ne short spare
        g =
      recv_set-Kept now kv busy sgls key timeout segs small ne short g
  recv_command-Kept regcomp command_test buf now kv busy sgls key timeout segs small ne short spare
        g =
      recv_test-Kept now kv busy key spare g
  recv_command-Kept regcomp command_delete buf now kv busy sgls key timeout segs small ne short
        spare g =
      recv_delete-Kept now kv busy key g
  recv_command-Kept regcomp command_expire buf now kv busy sgls key timeout segs small ne short
        spare g =
      recv_expire-Kept now kv busy key timeout spare g
  recv_command-Kept regcomp command_keys buf now kv busy sgls key timeout segs small ne short spare
        g =
      recv_keys-Kept regcomp true buf kv busy sgls key segs g
  recv_command-Kept regcomp command_nrkeys buf now kv busy sgls key timeout segs small ne short
        spare g =
      (recv_nrkeys regcomp kv busy key, refl, recv_nrkeys-Kept regcomp kv busy key g)
  recv_command-Kept regcomp command_flush buf now kv busy sgls key timeout segs small ne short spare
        g =
      recv_flush-Kept regcomp kv busy key g
  recv_command-Kept regcomp unknown buf now kv busy sgls key timeout segs small ne short spare g =
      (refuse kv busy no_such_command, refl, refuse-Kept kv busy no_such_command g)

-- What a client sends: segments of 32-bit lengths, at most 2^31 bytes of them for a value, and as
-- many bytes as it says.
pub record WellSent (r : Received) : Type 0 where
  pub segments : Segments r.sgls
  pub small : sgl_size 0 r.sgls ≤ 2147483648
  pub bytes : (r.len - key_off (length r.sgls)) % 65536 ≤ length r.memory

length-take_le : (k : ℕ) (l : List ℕ) → length (take k l) ≤ k
length-take_le zero l = omega arith
length-take_le (suc k) [] = omega arith
length-take_le (suc k) (b ∷ l) = omega (arith, length-take_le k l)

take-ne : (k : ℕ) (l : List ℕ) → 0 < k → k ≤ length l → take k l ≢ []
take-ne zero l pos le e = omega (arith, pos)
take-ne (suc k) [] pos le e = omega (arith, le)
take-ne (suc k) (b ∷ l) pos le e = cc e

module _ {hash : List ℕ → ℕ} {klen n : ℕ} {held : ℕ → ℕ} where
  pub handle_recv-Kept :
      (regcomp : List ℕ → Option (List ℕ → Bool)) (cap : ConnCap) (buf : Option ℕ) (now : Timeval)
      (kv : Kv) (busy : Option ℕ) (r : Received)
      → WellSent r
      → cap.max_key_length ≤ klen
      → Spare held
      → Good hash klen n held none none kv
      → (h : Handled) × (handle_recv hash regcomp cap
            (record { accepted = true; buf = buf })
            now
            kv
            busy
            r
          ≡ some h)
        × Kept hash klen n held busy h
  unfolding handle_recv
  handle_recv-Kept regcomp cap buf now kv busy r sent within spare g =
      let nsgl = length r.sgls in
      let keylen = (r.len - key_off nsgl) % 65536 in
      elim (Bool-cases (ltb r.len (key_off nsgl))) [
        | inl a ↦ (
          refuse kv busy invalid_command,
          ground (arith, a),
          refuse-Kept kv busy invalid_command g,
        )
        | inr a ↦ elim (Bool-cases (keylen == 0)) [
          | inl b ↦
              (refuse kv busy key_empty, ground (arith, a, b), refuse-Kept kv busy key_empty g)
          | inr b ↦ elim (Bool-cases (ltb cap.max_key_length keylen)) [
            | inl c ↦ (
              refuse kv busy key_too_big,
              ground (arith, a, b, c),
              refuse-Kept kv busy key_too_big g,
            )
            | inr c ↦ elim (Bool-cases (ltb cap.max_sgl nsgl)) [
              | inl d ↦ (
                refuse kv busy invalid_sgl,
                ground (arith, a, b, c, d),
                refuse-Kept kv busy invalid_sgl g,
              )
              | inr d ↦
                  let pos : 0 < keylen = ground (arith, b) in
                  let (h, f, q) =
                    recv_command-Kept regcomp (command_at r.command) buf now kv busy r.sgls
                      (take keylen r.memory) r.timeout sent.segments sent.small
                      (take-ne keylen r.memory pos sent.bytes)
                      (ground (arith, c, length-take_le keylen r.memory, within)) spare g in
                  (h, ground (arith, a, b, c, d, f), q)
            ]
          ]
        ]
      ]
