-- ===== src/Requests/Runs.antt =====
-- What holds of server/rdma.c, without tiering devices, after every run: no assertion fails, and
-- the references to a node are those of its transfers in flight and of its bucket.
use mathlib.Core.Option.{some-injective}
use pris_kv.Base.{
  ℕ, ◌+◌, ◌%◌, ◌≤◌, ◌<◌, ◌≡◌, ◌∙◌, inl, inr, refl, sym, subst, Option, none, some, Bool, true, List,
  [], length, get_elem?,
}
use pris_kv.Base.Pow.{pow2}
use pris_kv.Base.Word.{u32_mod}
use pris_kv.Base.Time.{Timeval}
use pris_kv.Buddy.{Meta}
use pris_kv.Kv.State.{Kv, KeyNode}
use pris_kv.Kv.Ops.{new_kv}
use pris_kv.Kv.Owned.{HasSlot}
use pris_kv.Kv.Good.{times, Good}
use pris_kv.Kv.Good.Refs.{Good-held}
use pris_kv.Kv.Good.Start.{Fresh, new_kv-Good}
use pris_kv.Requests.{Received, ConnCap, Inflight, Server, recv, done_piece}
use pris_kv.Requests.Recv.{mr_count}
use pris_kv.Requests.Switch.{WellSent}
use pris_kv.Requests.Served.{references, AllRunning, mrs, Fine, recv-Fine, done_piece-Fine}

-- What comes from the transport: a request, with the memory of a KEYS reply if there is any, or the
-- completion of a piece of the transfer `i`.
pub data Event : Type 0 where
  received : Option ℕ → Timeval → Received → Event
  completed : ℕ → Event

module _ (hash : List ℕ → ℕ) (regcomp : List ℕ → Option (List ℕ → Bool)) (cap : ConnCap) where
  -- The server after the event, where all pieces of a transfer are posted; `none` is a failed
  -- assertion.
  unfoldable pub handle : Event → Server → Option Server
  handle (received buf now r) s =
      recv hash regcomp cap (record { accepted = true; buf = buf }) now r s
  handle (completed i) s = done_piece i s

-- A request is as `WellSent` says and fewer than 2^32 - 2 transfers are in flight; and a piece is
-- done once.
unfoldable pub Possible : Event → Server → Type 0
Possible (received buf now r) s = WellSent r × (length s.works + 2 < u32_mod)
Possible (completed i) s =
    (w : Inflight) → get_elem? s.works i ≡ some w → w.work.completed < w.work.nsgl

-- The states that a server with a new store over 2^n blocks comes to, where a connection takes no
-- longer keys than the store, whose `max_key_length` is `klen`.
pub data Runs (hash : List ℕ → ℕ) (regcomp : List ℕ → Option (List ℕ → Bool)) (cap : ConnCap)
    (klen n : ℕ) : Server → Type 0 where
  begin :
      (node : ℕ → KeyNode) (meta : Meta) (key_base value_base max_keys value_block_size : ℕ)
      (kv : Kv)
      → Fresh node key_base value_base max_keys klen value_block_size n
      → cap.max_key_length ≤ klen
      → new_kv node meta key_base value_base max_keys klen value_block_size (pow2 n) ≡ some kv
      → Runs hash regcomp cap klen n (record { kv = kv; keys_mr = none; works = [] })
  next :
      (e : Event) (s s' : Server)
      → Runs hash regcomp cap klen n s
      → Possible e s
      → handle hash regcomp cap e s ≡ some s'
      → Runs hash regcomp cap klen n s'

module _ {hash : List ℕ → ℕ} (regcomp : List ℕ → Option (List ℕ → Bool)) (cap : ConnCap)
    {klen n : ℕ} where
  handle-Fine :
      (e : Event) (s : Server)
      → cap.max_key_length ≤ klen
      → Possible e s
      → Fine hash klen n s
      → (s' : Server) × (handle hash regcomp cap e s ≡ some s') × Fine hash klen n s'
  unfolding handle Possible
  handle-Fine (received buf now r) s within (sent, room) f =
      recv-Fine regcomp cap buf now r s sent within room f
  handle-Fine (completed i) s within left f = done_piece-Fine i s left f

  Runs-within : (s : Server) → Runs hash regcomp cap klen n s → cap.max_key_length ≤ klen
  Runs-within _ (begin node meta kb vb keys size kv fresh within e) = within
  Runs-within _ (next e s s' run possible h) = Runs-within s run

  Runs-Fine : (s : Server) → Runs hash regcomp cap klen n s → Fine hash klen n s
  unfolding references AllRunning mrs mr_count
  Runs-Fine _ (begin node meta kb vb keys size kv fresh within e) =
      let (kv', e', q) = new_kv-Good hash meta fresh in
      record {
        store =
            Good-held (references []) (λ a. refl)
              (subst (Good hash klen n (λ a. 0) none none) (some-injective _ _ (sym e' ∙ e)) q);
        running = tt;
        keys = λ m. refl;
      }
  Runs-Fine _ (next e s s' run possible h) =
      let (t, e', q) = handle-Fine e s (Runs-within s run) possible (Runs-Fine s run) in
      subst (Fine hash klen n) (some-injective _ _ (sym e' ∙ h)) q

  -- The server goes on: in a state that requests and completions have led to, with a new store at
  -- the start, the next request or completion fails no assertion of the store, of its allocators or
  -- of the end of a transfer (its pieces are not more than were posted, and the memory of a KEYS
  -- reply is that of the connection), writes no key behind its slot, and no loop goes on for ever.
  -- It is asked that it is possible, as `Possible` says, that the pieces of each transfer were
  -- posted, and that the connection takes no longer keys than the store; the memory that responses
  -- are sent from is not part of it.
  pub Runs-handle :
      (e : Event) (s : Server)
      → Runs hash regcomp cap klen n s
      → Possible e s
      → (s' : Server) × (handle hash regcomp cap e s ≡ some s') × Runs hash regcomp cap klen n s'
  Runs-handle e s run possible =
      let (s', h, _) = handle-Fine e s (Runs-within s run) possible (Runs-Fine s run) in
      (s', h, next e s s' run possible h)

  -- No reference is lost: in every state that requests and completions lead to from a new store,
  -- where the connection takes no longer keys than the store, the count of references of every node
  -- is the number of GET transfers in flight that read it, and one more if the node is in its
  -- bucket, where it is at most once; and a slot is in use only where that count is not 0.
  pub Runs-references :
      (s : Server) (a : ℕ)
      → Runs hash regcomp cap klen n s
      → ((s.kv.node a).refcnt
          ≡ references s.works a
            + times a (s.kv.buckets (hash (s.kv.node a).key % s.kv.bucket_count)))
        × (times a (s.kv.buckets (hash (s.kv.node a).key % s.kv.bucket_count)) ≤ 1)
        × (HasSlot s.kv.key_slab a → 0 < (s.kv.node a).refcnt)
  Runs-references s a run =
      let q = (Runs-Fine s run).store in
      (
        q.index.refs a,
        q.index.single a (hash (s.kv.node a).key % s.kv.bucket_count),
        λ has. elim (q.heap.slot_owner a has) [ inl lt ↦ lt | inr e ↦ absurd (cc e) ],
      )
