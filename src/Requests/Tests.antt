-- ===== src/Requests/Tests.antt =====
-- A run of a small server of server/rdma.c, without tiering devices, and the theorems at it.
use pris_kv.Base.{
  ℕ, ◌+◌, ◌%◌, ◌≤◌, ◌<◌, ◌≡◌, arith, refl, ap, Option, none, some, Bool, true, List, [], ◌∷◌,
  get_elem?,
}
use mathlib.Core.Option
use mathlib.Core.Option.{some-injective}
use pris_kv.Kv.State.{zero_node}
use pris_kv.Kv.Find.{key_max_timeout}
use pris_kv.Kv.Ops.{ok, no_such_key}
use pris_kv.Kv.Owned.{HasSlot}
use pris_kv.Kv.Tests.{clock, hash, key_a, program}
use pris_kv.Kv.Good.{times}
use pris_kv.Kv.Good.Tests.{first, room}
use pris_kv.Tiering.{is_status_ok, node_of, valuelen_of}
use pris_kv.Transfer.{sgl_size, piece_at, sgl_pieces, rw_pieces, posted, handle_rw}
use pris_kv.Transfer.Enough.{Words}
use pris_kv.Requests.{
  of_kv, Received, ConnCap, Response, Inflight, Handled, Server, rw_req, answer_and_end, recv_get,
  recv_set, recv_delete, recv_command, handle_recv, recv, run_callback, drop_at, done_piece,
}
use pris_kv.Requests.Switch.{WellSent}
use pris_kv.Requests.Served.{references}
use pris_kv.Requests.Runs.{
  Event, received, completed, handle, Possible, Runs, begin, next, Runs-handle, Runs-references,
}

abbrev no_regex : List ℕ → Option (List ℕ → Bool)
no_regex r = none

abbrev cap : ConnCap
cap = record { max_sgl = 4; max_key_length = 8 }

-- A request for the key of two bytes, with a segment of 100 bytes.
abbrev request : ℕ → Received
request command = record {
  len = 146;
  command = command;
  timeout = key_max_timeout;
  sgls = record { addr = 5000; length = 100; key = 7 } ∷ [];
  memory = key_a;
}

server : Unit {0}
unfolding program handle recv handle_recv recv_command recv_set recv_get recv_delete rw_req
    answer_and_end node_of is_status_ok valuelen_of rw_pieces sgl_pieces piece_at sgl_size posted
    done_piece handle_rw run_callback drop_at
server = tt

abbrev handled : Event → Server → Server
handled e s = elim (handle hash no_regex cap e s) [ none ↦ s | some s' ↦ s' ]

-- A SET, its data, and a GET.
abbrev s₀ : Server
s₀ = record { kv = first; keys_mr = none; works = [] }

abbrev s₁ : Server
s₁ = handled (received none clock (request 1)) s₀

abbrev s₂ : Server
s₂ = handled (completed 0) s₁

abbrev s₃ : Server
s₃ = handled (received none clock (request 0)) s₂

-- After a DELETE the value is still there for the GET, and then it goes.
abbrev s₄ : Server
s₄ = handled (received none clock (request 3)) s₃

abbrev counts : Server → ℕ × ℕ
counts s = ((s.kv.node 1000).refcnt, s.kv.key_slab.inuse)

counts-run :
    (counts s₂ ≡ (1, 1))
    × (counts s₃ ≡ (2, 1))
    × (counts s₄ ≡ (1, 1))
    × (counts (handled (completed 0) s₄) ≡ (0, 0))
unfolding server
counts-run = (refl, refl, refl, refl)

abbrev response_to : ℕ → Server → Option (Option Response)
response_to command s =
    Option.map (λ (h : Handled). h.response)
      (handle_recv hash no_regex cap (record { accepted = true; buf = none }) clock s.kv s.keys_mr
        (request command))

delete-answered : response_to 3 s₃ ≡ some (some (record { status = of_kv ok; length = 0 }))
unfolding server
delete-answered = refl

delete-no_key : response_to 3 s₄ ≡ some (some (record { status = of_kv no_such_key; length = 0 }))
unfolding server
delete-no_key = refl

request-WellSent : (command : ℕ) → WellSent (request command)
unfolding sgl_size Words
request-WellSent command = record {
  segments = record { words = (omega arith, tt); few = omega arith };
  small = omega arith;
  bytes = omega arith;
}

s₀-Runs : Runs hash no_regex cap 8 2 s₀
unfolding program
s₀-Runs = begin (λ a. zero_node) (λ i. 0) 1000 4096 3 64 first room (omega arith) refl

s₁-Runs : Runs hash no_regex cap 8 2 s₁
unfolding server Possible
s₁-Runs =
    next (received none clock (request 1)) s₀ s₁ s₀-Runs (request-WellSent 1, omega arith) refl

-- The only transfer of the server has its only piece before it.
abbrev Waits : Server → Type 0
Waits s = (w : Inflight) → get_elem? s.works 0 ≡ some w → w.work.completed < w.work.nsgl

s₁-Waits : Waits s₁
unfolding server
s₁-Waits w e =
    let same = some-injective _ _ e in
    omega
      (arith, ap (λ (x : Inflight). x.work.completed) same, ap (λ (x : Inflight). x.work.nsgl) same)

s₂-Runs : Runs hash no_regex cap 8 2 s₂
unfolding server Possible
s₂-Runs = next (completed 0) s₁ s₂ s₁-Runs s₁-Waits refl

s₃-Runs : Runs hash no_regex cap 8 2 s₃
unfolding server Possible
s₃-Runs =
    next (received none clock (request 0)) s₂ s₃ s₂-Runs (request-WellSent 0, omega arith) refl

s₃-Possible : Possible (completed 0) s₃
unfolding server Possible
s₃-Possible w e =
    let same = some-injective _ _ e in
    omega
      (arith, ap (λ (x : Inflight). x.work.completed) same, ap (λ (x : Inflight). x.work.nsgl) same)

-- The data of the GET is sent.
Runs-handle_example :
    (s' : Server) × (handle hash no_regex cap (completed 0) s₃ ≡ some s')
    × Runs hash no_regex cap 8 2 s'
Runs-handle_example = Runs-handle no_regex cap (completed 0) s₃ s₃-Runs s₃-Possible

Runs-references_example :
    ((s₃.kv.node 1000).refcnt
      ≡ references s₃.works 1000
        + times 1000 (s₃.kv.buckets (hash (s₃.kv.node 1000).key % s₃.kv.bucket_count)))
    × (times 1000 (s₃.kv.buckets (hash (s₃.kv.node 1000).key % s₃.kv.bucket_count)) ≤ 1)
    × (HasSlot s₃.kv.key_slab 1000 → 0 < (s₃.kv.node 1000).refcnt)
Runs-references_example = Runs-references no_regex cap s₃ 1000 s₃-Runs
