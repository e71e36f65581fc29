-- ===== src/Kv/Good/Served.antt =====
-- What holds of server/kv.c after every sequence of requests: nothing that a caller may ask makes
-- an assertion fail, the counts of references are right, no two values share memory, and GET finds
-- what SET stored.
use pris_kv.Base.{
  ℕ, ◌+◌, ◌*◌, ◌%◌, ◌≤◌, ◌<◌, ◌≡◌, ◌≢◌, ◌⊎◌, ◌∙◌, some, List, [], arith, sym, ap₂, subst, inl, inr,
  dec_lt,
}
use pris_kv.Base.Pow.{pow2}
use pris_kv.Base.Time.{Timeval, micros}
use pris_kv.Buddy.Node.{Node, level_unique}
use pris_kv.Buddy.Valid.{address}
use pris_kv.Buddy.Disjoint.{address_disjoint}
use pris_kv.Kv.State.{Kv, value_to_pointer}
use pris_kv.Kv.Find.{key_max_timeout}
use pris_kv.Kv.Ops.{ok, get_key, set_key_end}
use pris_kv.Kv.Evict.{set_key}
use pris_kv.Kv.SetGet.{set_key-get_key}
use pris_kv.Kv.Owned.{HasSlot, HasBlock}
use pris_kv.Kv.Good.{times}
use pris_kv.Kv.Good.Set.{Good-Once}
use pris_kv.Kv.Good.Reach.{
  StoreRequest, Shared, serve, Allowed, Reachable, step, serve-Good, Reachable-Good,
}

-- 2^63, which a `long` does not reach.
abbrev long_max : ℕ
long_max = 9223372036854775808

module _ {hash : List ℕ → ℕ} {klen n : ℕ} where
  -- Every request is served: in a state that requests have led to from a new store, a request
  -- that its caller may make fails no assertion, neither of the store nor of its two allocators,
  -- writes no key behind its slot, and leads to such a state. What a caller may do is said by
  -- `Allowed`.
  pub Reachable-serve :
      (r : StoreRequest) (s : Shared)
      → Reachable hash klen n s
      → Allowed klen r s
      → (s' : Shared) × (serve hash r s ≡ some s') × Reachable hash klen n s'
  Reachable-serve r s reach allowed =
      let (s', e, _) = serve-Good r s allowed (Reachable-Good s reach) in
      (s', e, step r s s' reach allowed e)

  -- After every sequence of requests the count of references of every node is the number of those
  -- that callers hold, and one more if the node is in a bucket; it is in no bucket but that of
  -- its key, and there at most once, and no other node there has its key.
  pub Reachable-refcnt :
      (s : Shared) (a : ℕ)
      → Reachable hash klen n s
      → let b = hash (s.kv.node a).key % s.kv.bucket_count in
        ((s.kv.node a).refcnt ≡ s.held a + times a (s.kv.buckets b))
        × (times a (s.kv.buckets b) ≤ 1)
        × ((i : ℕ) → i ≢ b → times a (s.kv.buckets i) ≡ 0)
        × ((c : ℕ)
            → 0 < times a (s.kv.buckets b)
            → 0 < times c (s.kv.buckets b)
            → (s.kv.node a).key ≡ (s.kv.node c).key
            → a ≡ c)
  Reachable-refcnt s a reach =
      let q = (Reachable-Good s reach).index in
      let b = hash (s.kv.node a).key % s.kv.bucket_count in
      (
        q.refs a,
        q.single a b,
        λ i ne. elim (dec_lt 0 (times a (s.kv.buckets i))) [
          | yes lt ↦ absurd (ne (sym (q.homes a i lt)))
          | no ge ↦ omega (arith, ge)
        ],
        λ c lt lt' e. q.unique a c b lt lt' e,
      )

  -- After every sequence of requests the values of two nodes that anything refers to lie, with all
  -- their bytes, each inside its own block of the buddy allocator, and the blocks do not overlap.
  pub Reachable-value_to_pointer :
      (s : Shared) (a c : ℕ)
      → Reachable hash klen n s
      → 0 < (s.kv.node a).refcnt
      → 0 < (s.kv.node c).refcnt
      → a ≢ c
      → (i : ℕ) × (j : ℕ) × (k : ℕ) × (l : ℕ) × (value_to_pointer s.kv a
          ≡ address s.kv.value_buddy i j)
        × (value_to_pointer s.kv c ≡ address s.kv.value_buddy k l)
        × ((s.kv.node a).valuelen ≤ pow2 j * s.kv.value_buddy.size)
        × ((s.kv.node c).valuelen ≤ pow2 l * s.kv.value_buddy.size)
        × ((value_to_pointer s.kv a + pow2 j * s.kv.value_buddy.size ≤ value_to_pointer s.kv c)
            ⊎ (value_to_pointer s.kv c + pow2 l * s.kv.value_buddy.size ≤ value_to_pointer s.kv a))
  unfolding value_to_pointer
  Reachable-value_to_pointer s a c reach live live' ne =
      let h = (Reachable-Good s reach).heap in
      let (i, j, p, fits) = h.block a live in
      let (k, l, q, fits') = h.block c live' in
      let away : i ≢ k = λ e.
        let at : address s.kv.value_buddy i j ≡ address s.kv.value_buddy k l =
          ap₂ (address s.kv.value_buddy) e
            (level_unique (subst (λ x. Node n x j) e p.used.node) q.used.node) in
        let same : s.kv.value_base + (s.kv.node a).value_off
            ≡ s.kv.value_base + (s.kv.node c).value_off =
          p.at ∙ (at ∙ sym q.at) in
        ne (h.apart a c live live' (omega (arith, same))) in
      let apart = address_disjoint h.buddy_valid p.used q.used away in
      (
        i,
        j,
        k,
        l,
        p.at,
        q.at,
        fits,
        fits',
        elim apart [
          | inl le ↦ inl (omega (arith, le, p.at, q.at))
          | inr le ↦ inr (omega (arith, le, p.at, q.at))
        ],
      )

  -- What SET has stored, GET finds, after every sequence of requests: after a SET with success and
  -- its end, a GET of the key before its timeout runs out returns the status OK, and the address
  -- and the length that SET returned and got. It is asked that the key is not empty, that clocks
  -- are proper, and that the present and the end of the timeout, in milliseconds, stay below 2^63,
  -- where priskv_time_elapsed_ms does not overflow.
  pub Reachable-set_key-get_key :
      (s : Shared) (now now' : Timeval) (key : List ℕ) (valuelen timeout : ℕ) {kv' : Kv} {a v : ℕ}
      → Reachable hash klen n s
      → key ≢ []
      → now.usec < 1000000
      → now'.usec < 1000000
      → now'.sec * 1000 + 1000 < long_max
      → (timeout < key_max_timeout
          → (now.sec * 1000 + timeout + 1000 < long_max)
            × (micros now' ≤ micros now + timeout * 1000))
      → set_key hash s.kv now key valuelen timeout
        ≡ some (kv', record { status = ok; keynode = some a; val = some v })
      → (kv'' : Kv) × (get_key hash (set_key_end kv' (some a)) now' key
          ≡ some (kv'', record { status = ok; keynode = some a; value = some (v, valuelen) }))
  Reachable-set_key-get_key s now now' key valuelen timeout reach ne u u' _ live e =
      let g = Reachable-Good s reach in
      set_key-get_key hash s.kv now now' key valuelen timeout ne (Good-Once g key) g.heap.place u u'
        (λ lt. (live lt).1) e

  -- Nothing leaks: after every sequence of requests a slot of the slab is in use, and a block of
  -- the buddy allocator is handed out, only if it is that of a node which a caller or a bucket
  -- refers to.
  pub Reachable-owner :
      (s : Shared)
      → Reachable hash klen n s
      → ((a : ℕ) → HasSlot s.kv.key_slab a → 0 < (s.kv.node a).refcnt)
        × ((v : ℕ)
            → HasBlock n s.kv.value_buddy v
            → (a : ℕ) × (0 < (s.kv.node a).refcnt) × (value_to_pointer s.kv a ≡ v))
  unfolding value_to_pointer
  Reachable-owner s reach =
      let h = (Reachable-Good s reach).heap in
      (
        λ a q. elim (h.slot_owner a q) [ inl lt ↦ lt | inr e ↦ absurd (cc e) ],
        λ v q. elim (h.block_owner v q) [ inl o ↦ o | inr (_, e) ↦ absurd (cc e) ],
      )
