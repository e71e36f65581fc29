-- ===== src/Kv/SetGet.antt =====
-- A value that SET has written is the value that GET finds: `priskv_set_key`, `priskv_set_key_end`
-- and `priskv_get_key` of server/kv.c in turn.
use pris_kv.Base.{
  ℕ, ◌+◌, ◌*◌, ◌≡◌, ◌≢◌, ◌≤◌, ◌<◌, arith, refl, sym, ap, ◌∙◌, none, some, true, List, [], subst,
}
use pris_kv.Base.Time.{Timeval, micros}
use pris_kv.Kv.State.{Kv, lru_access, keynode_ref}
use pris_kv.Kv.Find.{key_max_timeout, find_in, bucket_of}
use pris_kv.Kv.Ops.{get_key, set_key_end, ok}
use pris_kv.Kv.Evict.{insert_keynode, publish, max_evict_rounds, set_key}
use pris_kv.Kv.Publish.{Holds, publish-Holds, get_key-Holds}
use pris_kv.Kv.Shrink.{Shrinks-refl}
use pris_kv.Kv.Grabbed.{Grabbed, grab-Grabbed}
use pris_kv.Kv.Fresh.{fresh_done, fresh_node-base, fresh_done_value, fresh_done-live}
use pris_kv.Kv.Rounds.{
  Once, pop_key-Shrinks, pop_key-absent, bucket_of-count, evict_loop-Grabbed, set_key_inv,
}

module _ (crc32 : List ℕ → ℕ) where
  publish-base :
      (kv : Kv) (now : Timeval) (key : List ℕ) (a v valuelen timeout : ℕ)
      → (publish crc32 kv now key a v valuelen timeout).value_base ≡ kv.value_base
  unfolding publish insert_keynode lru_access keynode_ref
  publish-base kv now key a v valuelen timeout = refl

  -- A SET with success, and then its end, leave the key in the store with what was set: the fresh
  -- node, whose value lies at the address that SET returned.
  pub set_key-Holds :
      (kv : Kv) (now : Timeval) (key : List ℕ) (valuelen timeout : ℕ) {kv' : Kv} {a v : ℕ}
      → key ≢ []
      → Once crc32 kv key
      → kv.value_buddy.base ≡ kv.value_base
      → set_key crc32 kv now key valuelen timeout
        ≡ some (kv', record { status = ok; keynode = some a; val = some v })
      → (kv'.value_base ≡ kv.value_base)
        × (kv.value_base ≤ v)
        × Holds crc32 (set_key_end kv' (some a)) key a (fresh_done kv now key v valuelen timeout)
  set_key-Holds kv now key valuelen timeout {kv'} {a} {v} ne once base h =
      let (k, o, g, g', ep, eg, el, ev, ek) = set_key_inv crc32 kv now key valuelen timeout h in
      let sk = pop_key-Shrinks crc32 kv now key ep in
      let q₀ : Grabbed k (record { kv = k; keynode = none; vaddr = none }) = record {
        shrinks = Shrinks-refl k;
        above = λ w e. absurd (ground (arith, e));
      } in
      let q =
        evict_loop-Grabbed crc32 k max_evict_rounds g now valuelen
          (grab-Grabbed k (record { kv = k; keynode = none; vaddr = none }) valuelen q₀ eg) el in
      let b = bucket_of crc32 kv key in
      let count : g'.kv.bucket_count ≡ kv.bucket_count = q.shrinks.count ∙ sk.count in
      let gone = q.shrinks.absent key b ne (pop_key-absent crc32 kv now key ne once ep) in
      let gone' : find_in g'.kv.node key (g'.kv.buckets (bucket_of crc32 g'.kv key)) ≡ none =
        subst (λ i. find_in g'.kv.node key (g'.kv.buckets i) ≡ none)
          (sym (bucket_of-count crc32 kv g'.kv key count)) gone in
      let vb : g'.kv.value_base ≡ kv.value_base = q.shrinks.base ∙ sk.base in
      (
        ap (λ x. x.value_base) ek ∙ (publish-base g'.kv now key a v valuelen timeout ∙ vb),
        subst (λ x. x ≤ v) (sk.buddy ∙ base) (q.above v ev),
        subst
            (λ x.
              Holds crc32 (set_key_end x (some a)) key a (fresh_done kv now key v valuelen timeout))
            (sym ek)
            (subst
              (λ n.
                Holds crc32
                  (set_key_end (publish crc32 g'.kv now key a v valuelen timeout) (some a)) key a n)
              (fresh_node-base kv g'.kv now key v valuelen timeout vb)
              (publish-Holds crc32 g'.kv now key a v valuelen timeout gone')),
      )

  -- What SET has written, GET finds: after a SET with success and its end, a GET of the key before
  -- its timeout runs out returns the status OK, and the address and the length that SET returned
  -- and got. It is asked that the key is not empty, that its bucket holds it at most once before,
  -- that the values begin where the buddy allocator's blocks do, and that clocks are proper.
  pub set_key-get_key :
      (kv : Kv) (now now' : Timeval) (key : List ℕ) (valuelen timeout : ℕ) {kv' : Kv} {a v : ℕ}
      → key ≢ []
      → Once crc32 kv key
      → kv.value_buddy.base ≡ kv.value_base
      → now.usec < 1000000
      → now'.usec < 1000000
      → (timeout < key_max_timeout → micros now' ≤ micros now + timeout * 1000)
      → set_key crc32 kv now key valuelen timeout
        ≡ some (kv', record { status = ok; keynode = some a; val = some v })
      → (kv'' : Kv) × (get_key crc32 (set_key_end kv' (some a)) now' key
          ≡ some (kv'', record { status = ok; keynode = some a; value = some (v, valuelen) }))
  set_key-get_key kv now now' key valuelen timeout {kv'} {a} {v} ne once base u u' live h =
      let (vb, le, q) = set_key-Holds kv now key valuelen timeout ne once base h in
      let n = fresh_done kv now key v valuelen timeout in
      let t = fresh_done-live kv now now' key v valuelen timeout u u' live in
      let e = get_key-Holds crc32 (set_key_end kv' (some a)) now' key a n q refl t in
      (
        lru_access (keynode_ref (set_key_end kv' (some a)) a) a true,
        subst
            (λ x.
              get_key crc32 (set_key_end kv' (some a)) now' key
              ≡ some (
                lru_access (keynode_ref (set_key_end kv' (some a)) a) a true,
                record { status = ok; keynode = some a; value = some x },
              ))
            (fresh_done_value kv kv' now key a v valuelen timeout vb le) e,
      )
