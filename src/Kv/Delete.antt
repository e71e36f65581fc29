-- ===== src/Kv/Delete.antt =====
-- What DELETE has taken away, GET does not find: `priskv_delete_key` and `priskv_get_key` of
-- server/kv.c.
use pris_kv.Base.{ℕ, ◌≡◌, ◌≢◌, ◌⊎◌, inl, inr, arith, sym, ◌∙◌, none, some, List, [], subst}
use pris_kv.Base.Time.{Timeval}
use pris_kv.Kv.State.{Kv}
use pris_kv.Kv.Find.{find_in, find_key, found_at, bucket_of, unlink}
use pris_kv.Kv.Ops.{Status, ok, no_such_key, no_key, get_key, delete_key, drop_node}
use pris_kv.Kv.Shrink.{drop_node-Shrinks, unlink-Shrinks}
use pris_kv.Kv.Rounds.{Once, find_in-unlink, bucket_of-count}

module _ (crc32 : List ℕ → ℕ) where
  delete_key_inv :
      (kv : Kv) (now : Timeval) (key : List ℕ) {kv' : Kv} {status : Status}
      → delete_key crc32 kv now key ≡ some (kv', status)
      → ((status ≡ no_such_key)
          × (kv' ≡ kv)
          × (find_in kv.node key (kv.buckets (bucket_of crc32 kv key)) ≡ none))
        ⊎ ((a : ℕ) × (status ≡ ok)
            × (find_in kv.node key (kv.buckets (bucket_of crc32 kv key)) ≡ some a)
            × (drop_node (unlink kv (bucket_of crc32 kv key) a) a ≡ some kv'))
  unfolding delete_key find_key found_at
  delete_key_inv kv now key h = ground arith

  -- GET of a key that its bucket does not hold.
  pub get_key-absent :
      (kv : Kv) (now : Timeval) (key : List ℕ)
      → find_in kv.node key (kv.buckets (bucket_of crc32 kv key)) ≡ none
      → get_key crc32 kv now key ≡ some (kv, no_key)
  unfolding get_key find_key found_at
  get_key-absent kv now key h = ground arith

  -- DELETE has the status OK or NO_SUCH_KEY. After OK, a GET of the key has the status NO_SUCH_KEY
  -- and leaves the store as it is; NO_SUCH_KEY leaves the store as it is and comes where the bucket
  -- does not hold the key. It is asked that the key is not empty and that its bucket holds it at
  -- most once.
  pub delete_key-get_key :
      (kv : Kv) (now now' : Timeval) (key : List ℕ) {kv' : Kv} {status : Status}
      → key ≢ []
      → Once crc32 kv key
      → delete_key crc32 kv now key ≡ some (kv', status)
      → ((status ≡ ok) × (get_key crc32 kv' now' key ≡ some (kv', no_key)))
        ⊎ ((status ≡ no_such_key)
            × (kv' ≡ kv)
            × (find_in kv.node key (kv.buckets (bucket_of crc32 kv key)) ≡ none))
  delete_key-get_key kv now now' key {kv'} {status} ne once h =
      let b = bucket_of crc32 kv key in
      elim (delete_key_inv kv now key h) [
        | inl e ↦ inr e
        | inr (a, st, f, d) ↦
            let q = drop_node-Shrinks (unlink kv b a) a d in
            let gone : find_in kv'.node key (kv'.buckets b) ≡ none =
              q.absent key b ne (find_in-unlink crc32 kv key b a (once a f)) in
            let same = bucket_of-count crc32 kv kv' key (q.count ∙ (unlink-Shrinks kv b a).count) in
            inl (
              st,
              get_key-absent kv' now' key
                  (subst (λ i. find_in kv'.node key (kv'.buckets i) ≡ none) (sym same) gone),
            )
      ]
