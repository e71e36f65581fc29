-- ===== src/Kv/Good/Ops.antt =====
-- The invariant of the store under the operations of server/kv.c on one key but SET: none of their
-- assertions fails, and the references of the callers are counted.
use pris_kv.Base.{
  ℕ, suc, ◌%◌, ◌≤◌, ◌<◌, ◌≡◌, Option, none, some, Bool, true, false, List, ltb, arith, refl, sym,
  ap, subst, inl, inr, Bool-cases, Option-cases,
}
use pris_kv.Base.Word.{u32_mod}
use pris_kv.Base.Time.{Timeval, add_ms}
use pris_kv.Kv.State.{Kv, KeyNode, lru_access, lru_del_key, keynode_ref, update_valuelen}
use pris_kv.Kv.Find.{
  find_in, find_key, found_at, bucket_of, unlink, touch, key_timeout, key_max_timeout,
}
use pris_kv.Kv.Ops.{
  Status, ok, no_such_key, no_key, GetReply, get_key, get_key_end, set_key_end, get_found,
  delete_key, expire_key, drop_node,
}
use pris_kv.Kv.Good.{times, Good}
use pris_kv.Kv.Good.Counts.{find_in-some}
use pris_kv.Kv.Good.Refs.{
  more, less, less-more, more_self, Good-held, Good-set_node, Good-keynode_ref, Good-unlink,
}
use pris_kv.Kv.Good.Release.{Good-keynode_deref}

-- The references of the callers after a GET.
unfoldable pub taken : Option ℕ → (ℕ → ℕ) → ℕ → ℕ
taken none held = held
taken (some a) held = more held a

-- No count is near its bound: fewer than 2^32 - 2 references are held of each node.
abbrev pub Spare : (ℕ → ℕ) → Type 0
Spare held = (a : ℕ) → suc (suc (held a)) < u32_mod

touch-buckets :
    (kv : Kv) (now : Timeval) (a timeout : ℕ) → (touch kv now a timeout).buckets ≡ kv.buckets
unfolding touch
touch-buckets kv now a timeout = ground arith

module _ {hash : List ℕ → ℕ} {klen n : ℕ} {held : ℕ → ℕ} {pn : Option ℕ} {pv : Option (ℕ × ℕ)}
    {kv : Kv} where
  pub refcnt_room :
      (a : ℕ) → Spare held → Good hash klen n held pn pv kv → suc (kv.node a).refcnt < u32_mod
  refcnt_room a spare g =
      omega
        (arith, spare a, g.index.refs a, g.index.single a (hash (kv.node a).key % kv.bucket_count))

  pub Good-live :
      (b a : ℕ)
      → 0 < times a (kv.buckets b)
      → Good hash klen n held pn pv kv
      → 0 < (kv.node a).refcnt
  Good-live b a lt g =
      omega (arith, g.index.refs a, lt, ap (λ i. times a (kv.buckets i)) (g.index.homes a b lt))

  pub Good-lru_del_key :
      (a : ℕ) → Good hash klen n held pn pv kv → Good hash klen n held pn pv (lru_del_key kv a)
  unfolding lru_del_key
  Good-lru_del_key a g = record { heap = g.heap; index = g.index }

  pub Good-lru_access :
      (a : ℕ) (b : Bool)
      → Good hash klen n held pn pv kv
      → Good hash klen n held pn pv (lru_access kv a b)
  unfolding lru_access
  Good-lru_access a b g = record { heap = g.heap; index = g.index }

  pub Good-touch :
      (now : Timeval) (a timeout : ℕ)
      → Good hash klen n held pn pv kv
      → Good hash klen n held pn pv (touch kv now a timeout)
  unfolding touch
  Good-touch now a timeout g = elim (Bool-cases (ltb timeout key_max_timeout)) [
    | inl e ↦
        let m : KeyNode = kv.node a in
        rw e (
          Good-set_node a (record m { expire_time = some (add_ms now timeout) }) refl
            (refl, refl, refl, omega arith) g)
    | inr e ↦ rw e g
  ]

  pub Good-get_found :
      (a : ℕ)
      → Good hash klen n held pn pv kv
      → Good hash klen n held pn pv (get_found kv a).0 × ((get_found kv a).1.keynode ≡ some a)
  unfolding get_found
  Good-get_found a g = elim (Bool-cases (kv.node a).inprocess) [
    | inl e ↦ rw e (g, refl)
    | inr e ↦ rw e (Good-lru_access a true g, refl)
  ]

  pub Good-set_key_end :
      (o : Option ℕ)
      → Good hash klen n held pn pv kv
      → Good hash klen n held pn pv (set_key_end kv o)
  unfolding set_key_end
  Good-set_key_end none g = g
  Good-set_key_end (some a) g =
      let m : KeyNode = kv.node a in
      Good-set_node a (record m { inprocess = false }) refl (refl, refl, refl, omega arith) g

  pub Good-update_valuelen :
      (a valuelen : ℕ)
      → valuelen ≤ (kv.node a).valuelen
      → Good hash klen n held pn pv kv
      → Good hash klen n held pn pv (update_valuelen kv a valuelen)
  unfolding update_valuelen
  Good-update_valuelen a valuelen le g =
      let m : KeyNode = kv.node a in
      Good-set_node a (record m { valuelen = valuelen }) refl (refl, refl, refl, le) g

  pub Good-get_key_end :
      (a : ℕ)
      → 0 < held a
      → Good hash klen n held pn pv kv
      → (kv' : Kv) × (get_key_end kv (some a) ≡ some kv') × Good hash klen n (less held a) pn pv kv'
  unfolding get_key_end
  Good-get_key_end a mine g = Good-keynode_deref a mine g

module _ {hash : List ℕ → ℕ} {klen n : ℕ} {held : ℕ → ℕ} {pn : Option ℕ} {pv : Option (ℕ × ℕ)}
    {kv : Kv} where
  pub Good-drop_node :
      (a : ℕ)
      → 0 < held a
      → Good hash klen n held pn pv kv
      → (kv' : Kv) × (drop_node kv a ≡ some kv') × Good hash klen n (less held a) pn pv kv'
  unfolding drop_node
  Good-drop_node a mine g = Good-keynode_deref a mine (Good-lru_del_key a g)

module _ {hash : List ℕ → ℕ} {klen n : ℕ} {held : ℕ → ℕ} {pn : Option ℕ} {pv : Option (ℕ × ℕ)}
    {kv : Kv} where
  -- A node that leaves its bucket is dropped.
  pub Good-pop :
      (b a : ℕ)
      → 0 < times a (kv.buckets b)
      → Good hash klen n held pn pv kv
      → (kv' : Kv) × (drop_node (unlink kv b a) a ≡ some kv') × Good hash klen n held pn pv kv'
  Good-pop b a lt g =
      let (kv', e, q) = Good-drop_node a (omega (arith, more_self held a)) (Good-unlink b a lt g) in
      (kv', e, Good-held held (less-more held a) q)

  -- `priskv_delete_key`
  pub Good-delete_key :
      (now : Timeval) (key : List ℕ)
      → Good hash klen n held pn pv kv
      → (kv' : Kv) × (status : Status) × (delete_key hash kv now key ≡ some (kv', status))
        × Good hash klen n held pn pv kv'
  unfolding delete_key find_key found_at
  Good-delete_key now key g =
      let b = bucket_of hash kv key in
      elim (Option-cases (find_in kv.node key (kv.buckets b))) [
        | inl e ↦ (kv, no_such_key, ground (arith, e), g)
        | inr (a, e) ↦
            let (kv', d, q) = Good-pop b a (find_in-some kv.node key (kv.buckets b) e).0 g in
            (kv', ok, ground (arith, e, d), q)
      ]

  -- The node that a search returns, alive.
  found_live :
      (now : Timeval) (timeout b a : ℕ)
      → 0 < times a (kv.buckets b)
      → Spare held
      → Good hash klen n held pn pv kv
      → Good hash klen n (more held a) pn pv (keynode_ref (touch kv now a timeout) a)
  found_live now timeout b a lt spare g =
      let t = Good-touch now a timeout g in
      let live =
        Good-live b a (subst (λ f. 0 < times a (f b)) (sym (touch-buckets kv now a timeout)) lt)
          t in
      Good-keynode_ref a live (refcnt_room a spare t) t

  -- `priskv_get_key`
  pub Good-get_key :
      (now : Timeval) (key : List ℕ)
      → Spare held
      → Good hash klen n held pn pv kv
      → (kv' : Kv) × (r : GetReply) × (get_key hash kv now key ≡ some (kv', r))
        × Good hash klen n (taken r.keynode held) pn pv kv'
  unfolding get_key find_key found_at taken
  Good-get_key now key spare g =
      let b = bucket_of hash kv key in
      elim (Option-cases (find_in kv.node key (kv.buckets b))) [
        | inl e ↦ (kv, no_key, ground (arith, e), g)
        | inr (a, e) ↦
            let lt = (find_in-some kv.node key (kv.buckets b) e).0 in
            elim (Bool-cases (key_timeout (kv.node a) now)) [
              | inl t ↦
                  let (kv', d, q) = Good-pop b a lt g in (kv', no_key, ground (arith, e, t, d), q)
              | inr t ↦
                  let f = keynode_ref (touch kv now a key_max_timeout) a in
                  let (q, r) = Good-get_found a (found_live now key_max_timeout b a lt spare g) in
                  (
                    (get_found f a).0,
                    (get_found f a).1,
                    ground (arith, e, t),
                    subst (λ o. Good hash klen n (taken o held) pn pv (get_found f a).0) (sym r) q,
                  )
            ]
      ]

  -- `priskv_expire_key`
  pub Good-expire_key :
      (now : Timeval) (key : List ℕ) (timeout : ℕ)
      → Spare held
      → Good hash klen n held pn pv kv
      → (kv' : Kv) × (status : Status) × (expire_key hash kv now key timeout ≡ some (kv', status))
        × Good hash klen n held pn pv kv'
  unfolding expire_key find_key found_at
  Good-expire_key now key timeout spare g =
      let b = bucket_of hash kv key in
      elim (Option-cases (find_in kv.node key (kv.buckets b))) [
        | inl e ↦ (kv, no_such_key, ground (arith, e), g)
        | inr (a, e) ↦
            let lt = (find_in-some kv.node key (kv.buckets b) e).0 in
            elim (Bool-cases (key_timeout (kv.node a) now)) [
              | inl t ↦
                  let (kv', d, q) = Good-pop b a lt g in
                  (kv', no_such_key, ground (arith, e, t, d), q)
              | inr t ↦
                  let (kv', d, q) =
                    Good-keynode_deref a (omega (arith, more_self held a))
                      (found_live now timeout b a lt spare g) in
                  (kv', ok, ground (arith, e, t, d), Good-held held (less-more held a) q)
            ]
      ]
