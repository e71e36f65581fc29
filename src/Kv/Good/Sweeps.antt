-- ===== src/Kv/Good/Sweeps.antt =====
-- The invariant of the store under the operations of server/kv.c on all keys: FLUSH and the
-- expire routine.
use pris_kv.Base.{
  ℕ, zero, suc, ◌+◌, ◌≤◌, ◌<◌, ◌≡◌, ◌∙◌, Option, none, some, List, [], ◌∷◌, ◌++◌, if◌then◌else◌,
  arith, refl, sym, ap, subst, Bool, inl, inr, Bool-cases, Option-cases, ℕ_discrete,
}
use pris_kv.Base.Word.{u32}
use pris_kv.Base.Time.{Timeval}
use pris_kv.Kv.State.{Kv, list_del, keynode_deref, release, lru_del_key}
use pris_kv.Kv.Find.{key_timeout, unlink}
use pris_kv.Kv.Ops.{Status, ok, invalid_regex}
use pris_kv.Kv.Sweep.{
  flush_node, flush_bucket, flush_buckets, flush_keys, collect_expired, drop_all, clear_buckets,
  clear_expired_kv,
}
use pris_kv.Kv.Good.{times, Good}
use pris_kv.Kv.Good.Counts.{times-append, times-list_del, times-list_del_ne}
use pris_kv.Kv.Good.Refs.{less-more, more_self, store_self, Good-held, Good-unlink}
use pris_kv.Kv.Good.Release.{Good-keynode_deref}
use pris_kv.Kv.Good.Ops.{Good-lru_del_key, Good-drop_node}

-- A reference that is given back changes no bucket.
keynode_deref-buckets :
    (kv : Kv) (a : ℕ) {kv' : Kv} → keynode_deref kv a ≡ some kv' → kv'.buckets ≡ kv.buckets
unfolding keynode_deref release
keynode_deref-buckets kv a h = ground (arith, h)

-- The references to what has been collected are counted with those of the callers.
abbrev plus : (ℕ → ℕ) → List ℕ → ℕ → ℕ
plus held l x = held x + times x l

module _ {hash : List ℕ → ℕ} {klen n : ℕ} {held : ℕ → ℕ} {kv : Kv} where
  flush_node-Good :
      (b a : ℕ) (l : List ℕ)
      → ((c : ℕ) → times c (a ∷ l) ≤ times c (kv.buckets b))
      → Good hash klen n held none none kv
      → (kv' : Kv) × (flush_node kv b a ≡ some kv')
        × Good hash klen n held none none kv'
        × ((c : ℕ) → times c l ≤ times c (kv'.buckets b))
  unfolding flush_node times lru_del_key unlink
  flush_node-Good b a l all g =
      let there : 0 < times a (kv.buckets b) = ground (arith, all a) in
      let (kv', e, q) =
        Good-keynode_deref a (omega (arith, more_self held a))
          (Good-unlink b a there (Good-lru_del_key a g)) in
      let at : kv'.buckets b ≡ list_del a (kv.buckets b) =
        ap (λ f. f b) (keynode_deref-buckets (unlink (lru_del_key kv a) b a) a e)
        ∙ store_self kv.buckets b (list_del a (kv.buckets b)) in
      (
        kv',
        e,
        Good-held held (less-more held a) q,
        λ c. elim (ℕ_discrete a c) [
          | yes same ↦
              subst (λ c. times c l ≤ times c (kv'.buckets b)) same
                (ground (arith, all a, ap (times a) at, times-list_del a (kv.buckets b) there))
          | no ne ↦
              ground (arith, all c, ap (times c) at, times-list_del_ne a c (kv.buckets b) ne, ne)
        ],
      )

module _ {hash : List ℕ → ℕ} {klen n : ℕ} {held : ℕ → ℕ} where
  flush_bucket-Good :
      (test : List ℕ → Bool) (b : ℕ) (kv : Kv) (nkey : ℕ) (l : List ℕ)
      → ((c : ℕ) → times c l ≤ times c (kv.buckets b))
      → Good hash klen n held none none kv
      → (kv' : Kv) × (nkey' : ℕ) × (flush_bucket test b kv nkey l ≡ some (kv', nkey'))
        × Good hash klen n held none none kv'
  unfolding flush_bucket times
  flush_bucket-Good test b kv nkey [] all g = (kv, nkey, refl, g)
  flush_bucket-Good test b kv nkey (a ∷ l) all g = elim (Bool-cases (test (kv.node a).key)) [
    | inr f ↦
        let less : (c : ℕ) → times c l ≤ times c (kv.buckets b) = λ c. ground (arith, all c) in
        let (kv', m, e, q) = flush_bucket-Good test b kv nkey l less g in
        (kv', m, ground (arith, f, e), q)
    | inl t ↦
        let (k, d, q, rest) = flush_node-Good b a l all g in
        let (kv', m, e, q') = flush_bucket-Good test b k (u32 (nkey + 1)) l rest q in
        (kv', m, ground (arith, t, d, e), q')
  ]

  flush_buckets-Good :
      (test : List ℕ → Bool) (rounds i : ℕ) (kv : Kv) (nkey : ℕ)
      → Good hash klen n held none none kv
      → (kv' : Kv) × (nkey' : ℕ) × (flush_buckets test rounds i kv nkey ≡ some (kv', nkey'))
        × Good hash klen n held none none kv'
  unfolding flush_buckets
  flush_buckets-Good test zero i kv nkey g = (kv, nkey, refl, g)
  flush_buckets-Good test (suc rounds) i kv nkey g =
      let (k, m, e, q) = flush_bucket-Good test i kv nkey (kv.buckets i) (λ c. omega arith) g in
      let (kv', m', e', q') = flush_buckets-Good test rounds (i + 1) k m q in
      (kv', m', ground (arith, e, e'), q')

  -- `priskv_flush_keys`
  pub flush_keys-Good :
      (regcomp : List ℕ → Option (List ℕ → Bool)) (kv : Kv) (regex : List ℕ)
      → Good hash klen n held none none kv
      → (kv' : Kv) × (st : Status) × (nkey : Option ℕ) × (flush_keys regcomp kv regex
          ≡ some (kv', st, nkey))
        × Good hash klen n held none none kv'
  unfolding flush_keys
  flush_keys-Good regcomp kv regex g = elim (Option-cases (regcomp regex)) [
    | inl e ↦ (kv, invalid_regex, none, ground (arith, e), g)
    | inr (test, e) ↦
        let (kv', m, f, q) = flush_buckets-Good test kv.bucket_count 0 kv 0 g in
        (kv', ok, some m, ground (arith, e, f), q)
  ]

module _ {hash : List ℕ → ℕ} {klen n : ℕ} (held : ℕ → ℕ) where
  -- The first loop takes the references of the bucket to what has expired.
  collect_expired-Good :
      (now : Timeval) (b : ℕ) (kv : Kv) (expired l : List ℕ)
      → ((c : ℕ) → times c l ≤ times c (kv.buckets b))
      → Good hash klen n (plus held expired) none none kv
      → let r = collect_expired now b kv expired l in Good hash klen n (plus held r.1) none none r.0
  unfolding collect_expired times unlink
  collect_expired-Good now b kv expired [] all g = g
  collect_expired-Good now b kv expired (a ∷ l) all g =
      let m = kv.node a in
      let statics = kv.statics in
      let moved : Kv = record (unlink kv b a) {
        statics = record statics { count = statics.count + 1; bytes = statics.bytes + m.valuelen };
      } in
      let Goal : Bool → Type 0 = λ t.
        let r =
          collect_expired now b (if t then moved else kv)
            (if t then expired ++ (a ∷ []) else expired) l in
        Good hash klen n (plus held r.1) none none r.0 in
      elim (Bool-cases (key_timeout m now)) [
        | inr f ↦
            subst Goal (sym f)
              (collect_expired-Good now b kv expired l (λ c. ground (arith, all c)) g)
        | inl t ↦
            let there : 0 < times a (kv.buckets b) = ground (arith, all a) in
            let q = Good-unlink b a there g in
            let at = store_self kv.buckets b (list_del a (kv.buckets b)) in
            subst Goal (sym t) (
              collect_expired-Good now b moved (expired ++ (a ∷ [])) l
                (λ c. elim (ℕ_discrete a c) [
                  | yes same ↦
                      subst (λ c. times c l ≤ times c (moved.buckets b)) same
                        (ground
                          (arith, all a, ap (times a) at, times-list_del a (kv.buckets b) there))
                  | no ne ↦
                      ground
                        (arith, all c, ap (times c) at, times-list_del_ne a c (kv.buckets b) ne, ne)
                ])
                (let q' =
                    Good-held (plus held (expired ++ (a ∷ [])))
                      (λ x. ground (arith, times-append a x expired)) q in
                  record { heap = q'.heap; index = q'.index }))
      ]

list_del_self : (a : ℕ) (l : List ℕ) → list_del a (a ∷ l) ≡ l
unfolding list_del
list_del_self a l = ground arith

module _ {hash : List ℕ → ℕ} {klen n : ℕ} {held : ℕ → ℕ} where
  -- The second loop gives them back.
  drop_all-Good :
      (kv : Kv) (l : List ℕ)
      → Good hash klen n (plus held l) none none kv
      → (kv' : Kv) × (drop_all kv l l ≡ some (kv', [])) × Good hash klen n held none none kv'
  unfolding drop_all times
  drop_all-Good kv [] g = (kv, refl, Good-held held (λ x. omega arith) g)
  drop_all-Good kv (a ∷ l) g =
      let (k, d, q) = Good-drop_node a (ground arith) g in
      let (kv', e, q') = drop_all-Good k l (Good-held (plus held l) (λ x. ground arith) q) in
      let own : list_del a (a ∷ l) ≡ l = list_del_self a l in (kv', ground (arith, d, e, own), q')

  clear_buckets-Good :
      (now : Timeval) (rounds i : ℕ) (kv : Kv)
      → Good hash klen n held none none kv
      → (kv' : Kv) × (clear_buckets now rounds i kv ≡ some kv')
        × Good hash klen n held none none kv'
  unfolding clear_buckets times
  clear_buckets-Good now zero i kv g = (kv, refl, g)
  clear_buckets-Good now (suc rounds) i kv g =
      let r = collect_expired now i kv [] (kv.buckets i) in
      let q =
        collect_expired-Good held now i kv [] (kv.buckets i) (λ c. omega arith)
          (Good-held (plus held []) (λ x. omega arith) g) in
      let (k, d, q') = drop_all-Good r.0 r.1 q in
      let (kv', e, q'') = clear_buckets-Good now rounds (i + 1) k q' in
      (kv', ground (arith, d, e), q'')

  -- `priskv_clear_expired_kv`
  pub clear_expired_kv-Good :
      (kv : Kv) (now : Timeval)
      → Good hash klen n held none none kv
      → (kv' : Kv) × (clear_expired_kv kv now ≡ some kv') × Good hash klen n held none none kv'
  unfolding clear_expired_kv
  clear_expired_kv-Good kv now g =
      let (k, e, q) = clear_buckets-Good now kv.bucket_count 0 kv g in
      let statics = k.statics in
      let kv' : Kv = record k { statics = record statics { times = statics.times + 1 } } in
      (kv', ground (arith, e), record { heap = q.heap; index = q.index })
