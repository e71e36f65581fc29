-- ===== src/Kv/Good/Reach.antt =====
-- The requests that server/kv.c serves one after the other, with the references that its callers
-- hold, and the states of the store that they lead to.
use mathlib.Core.Option.{some-injective}
use pris_kv.Base.{
  ℕ, ◌≤◌, ◌<◌, ◌≡◌, ◌≢◌, ◌∙◌, Option, none, some, List, [], Bool, arith, refl, sym, subst, length,
}
use pris_kv.Base.Pow.{pow2}
use pris_kv.Base.Time.{Timeval}
use pris_kv.Buddy.{Meta}
use pris_kv.Kv.State.{Kv, KeyNode, update_valuelen}
use pris_kv.Kv.Ops.{new_kv, get_key, get_key_end, set_key_end, delete_key, expire_key}
use pris_kv.Kv.Evict.{set_key}
use pris_kv.Kv.Sweep.{flush_keys, clear_expired_kv}
use pris_kv.Kv.Good.{Good}
use pris_kv.Kv.Good.Refs.{less}
use pris_kv.Kv.Good.Ops.{
  taken, Spare, Good-set_key_end, Good-update_valuelen, Good-get_key_end, Good-delete_key,
  Good-get_key, Good-expire_key,
}
use pris_kv.Kv.Good.Set.{set_key-Good}
use pris_kv.Kv.Good.Sweeps.{flush_keys-Good, clear_expired_kv-Good}
use pris_kv.Kv.Good.Start.{Fresh, new_kv-Good}

-- One call of an operation of server/kv.c.
pub data StoreRequest : Type 0 where
  get : Timeval → List ℕ → StoreRequest
  get_end : ℕ → StoreRequest
  set : Timeval → List ℕ → ℕ → ℕ → StoreRequest
  set_end : ℕ → StoreRequest
  update : ℕ → ℕ → StoreRequest
  delete : Timeval → List ℕ → StoreRequest
  expire : Timeval → List ℕ → ℕ → StoreRequest
  flush : (List ℕ → Option (List ℕ → Bool)) → List ℕ → StoreRequest
  clear_expired : Timeval → StoreRequest

-- The store, and how many references of each node the callers have been given by GET.
pub record Shared : Type 0 where
  pub kv : Kv
  pub held : ℕ → ℕ

module _ (hash : List ℕ → ℕ) where
  -- The store and the references after the request; `none` is a failed assertion.
  unfoldable pub serve : StoreRequest → Shared → Option Shared
  serve (get now key) s = elim (get_key hash s.kv now key) [
    | none ↦ none
    | some (kv, r) ↦ some (record { kv = kv; held = taken r.keynode s.held })
  ]
  serve (get_end a) s = elim (get_key_end s.kv (some a)) [
    | none ↦ none
    | some kv ↦ some (record { kv = kv; held = less s.held a })
  ]
  serve (set now key valuelen timeout) s = elim (set_key hash s.kv now key valuelen timeout) [
    | none ↦ none
    | some (kv, r) ↦ some (record { kv = kv; held = s.held })
  ]
  serve (set_end a) s = some (record { kv = set_key_end s.kv (some a); held = s.held })
  serve (update a valuelen) s =
      some (record { kv = update_valuelen s.kv a valuelen; held = s.held })
  serve (delete now key) s = elim (delete_key hash s.kv now key) [
    | none ↦ none
    | some (kv, status) ↦ some (record { kv = kv; held = s.held })
  ]
  serve (expire now key timeout) s = elim (expire_key hash s.kv now key timeout) [
    | none ↦ none
    | some (kv, status) ↦ some (record { kv = kv; held = s.held })
  ]
  serve (flush regcomp regex) s = elim (flush_keys regcomp s.kv regex) [
    | none ↦ none
    | some (kv, status, nkey) ↦ some (record { kv = kv; held = s.held })
  ]
  serve (clear_expired now) s = elim (clear_expired_kv s.kv now) [
    | none ↦ none
    | some kv ↦ some (record { kv = kv; held = s.held })
  ]

-- What the callers keep to: a GET or an EXPIRE is not the one that makes a count of 2^32
-- references, a GET is ended as often as it was made, and the key and the value of a SET are not
-- empty, the key is no longer than the `max_key_length` of the store and the value has at most 2^31
-- bytes, and the length of a value is never raised.
unfoldable pub Allowed : ℕ → StoreRequest → Shared → Type 0
Allowed klen (get now key) s = Spare s.held
Allowed klen (get_end a) s = 0 < s.held a
Allowed klen (set now key valuelen timeout) s =
    (key ≢ []) × (length key ≤ klen) × (0 < valuelen) × (valuelen ≤ 2147483648)
Allowed klen (set_end a) s = Unit {0}
Allowed klen (update a valuelen) s = valuelen ≤ (s.kv.node a).valuelen
Allowed klen (delete now key) s = Unit {0}
Allowed klen (expire now key timeout) s = Spare s.held
Allowed klen (flush regcomp regex) s = Unit {0}
Allowed klen (clear_expired now) s = Unit {0}

-- The states that `priskv_new_kv` over 2^n blocks, with `klen` as the longest key, and such requests
-- lead to.
pub data Reachable (hash : List ℕ → ℕ) (klen n : ℕ) : Shared → Type 0 where
  start :
      (node : ℕ → KeyNode) (meta : Meta) (key_base value_base max_keys value_block_size : ℕ)
      (kv : Kv)
      → Fresh node key_base value_base max_keys klen value_block_size n
      → new_kv node meta key_base value_base max_keys klen value_block_size (pow2 n) ≡ some kv
      → Reachable hash klen n (record { kv = kv; held = λ a. 0 })
  step :
      (r : StoreRequest) (s s' : Shared)
      → Reachable hash klen n s
      → Allowed klen r s
      → serve hash r s ≡ some s'
      → Reachable hash klen n s'

abbrev GoodShared : (List ℕ → ℕ) → ℕ → ℕ → Shared → Type 0
GoodShared hash klen n s = Good hash klen n s.held none none s.kv

module _ {hash : List ℕ → ℕ} {klen n : ℕ} where
  -- Each request is served, and keeps the invariant.
  pub serve-Good :
      (r : StoreRequest) (s : Shared)
      → Allowed klen r s
      → GoodShared hash klen n s
      → (s' : Shared) × (serve hash r s ≡ some s') × GoodShared hash klen n s'
  unfolding serve Allowed
  serve-Good (get now key) s spare g =
      let (kv, r, e, q) = Good-get_key now key spare g in
      (record { kv = kv; held = taken r.keynode s.held }, ground (arith, e), q)
  serve-Good (get_end a) s mine g =
      let (kv, e, q) = Good-get_key_end a mine g in
      (record { kv = kv; held = less s.held a }, ground (arith, e), q)
  serve-Good (set now key valuelen timeout) s (ne, short, pos, small) g =
      let (kv, r, e, q) = set_key-Good s.kv now key valuelen timeout ne short pos small g in
      (record { kv = kv; held = s.held }, ground (arith, e), q)
  serve-Good (set_end a) s _ g =
      (record { kv = set_key_end s.kv (some a); held = s.held }, refl, Good-set_key_end (some a) g)
  serve-Good (update a valuelen) s le g = (
    record { kv = update_valuelen s.kv a valuelen; held = s.held },
    refl,
    Good-update_valuelen a valuelen le g,
  )
  serve-Good (delete now key) s _ g =
      let (kv, status, e, q) = Good-delete_key now key g in
      (record { kv = kv; held = s.held }, ground (arith, e), q)
  serve-Good (expire now key timeout) s spare g =
      let (kv, status, e, q) = Good-expire_key now key timeout spare g in
      (record { kv = kv; held = s.held }, ground (arith, e), q)
  serve-Good (flush regcomp regex) s _ g =
      let (kv, status, nkey, e, q) = flush_keys-Good regcomp s.kv regex g in
      (record { kv = kv; held = s.held }, ground (arith, e), q)
  serve-Good (clear_expired now) s _ g =
      let (kv, e, q) = clear_expired_kv-Good s.kv now g in
      (record { kv = kv; held = s.held }, ground (arith, e), q)

  pub Reachable-Good : (s : Shared) → Reachable hash klen n s → GoodShared hash klen n s
  Reachable-Good _ (start node meta kb vb keys size kv fresh e) =
      let (kv', e', q) = new_kv-Good hash meta fresh in
      subst (Good hash klen n (λ a. 0) none none) (some-injective _ _ (sym e' ∙ e)) q
  Reachable-Good _ (step r s s' reach allowed e) =
      let (t, e', q) = serve-Good r s allowed (Reachable-Good s reach) in
      subst (GoodShared hash klen n) (some-injective _ _ (sym e' ∙ e)) q
