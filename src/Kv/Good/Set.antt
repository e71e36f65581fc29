-- ===== src/Kv/Good/Set.antt =====
-- The invariant of the store under `priskv_set_key` of server/kv.c, with its rounds of eviction: no
-- assertion fails on the way, also where the memory does not suffice.
use pris_kv.Base.{
  ℕ, zero, suc, ◌+◌, ◌≤◌, ◌<◌, ◌≡◌, ◌≢◌, ◌∙◌, Option, none, some, List, [], arith, refl, sym, ap,
  subst, inl, inr, Bool-cases, Option-cases, length, leb, true,
}
use pris_kv.Base.Time.{Timeval}
use pris_kv.Kv.State.{Kv, list_del, lru_evict}
use pris_kv.Kv.Find.{find_in, find_key, found_at, bucket_of, key_matches}
use pris_kv.Kv.Ops.{no_mem, ok, key_header}
use pris_kv.Kv.Evict.{
  Grab, SetReply, pop_key, evict_round, complete, evict_loop, finish_set, fail_set, publish,
  max_evict_rounds, set_key,
}
use pris_kv.Kv.Shrink.{Shrinks-refl}
use pris_kv.Kv.Grabbed.{Grabbed, grab-Grabbed}
use pris_kv.Kv.Rounds.{Once, pop_key-Shrinks, pop_key-absent, bucket_of-count, evict_loop-Grabbed}
use pris_kv.Kv.Good.{times, Good}
use pris_kv.Kv.Good.Counts.{
  find_in-some, find_in_absent, times-list_del, times-list_del_le, key_matches→≡,
}
use pris_kv.Kv.Good.Ops.{Good-pop}
use pris_kv.Kv.Good.Pending.{pending, GoodGrab, grab-Good, give_up-Good}
use pris_kv.Kv.Good.Insert.{publish-Good}

module _ {hash : List ℕ → ℕ} {klen n : ℕ} {held : ℕ → ℕ} {pn : Option ℕ} {pv : Option (ℕ × ℕ)}
    {kv : Kv} where
  -- A bucket holds each key at most once.
  pub Good-Once : Good hash klen n held pn pv kv → (key : List ℕ) → Once hash kv key
  Good-Once g key a found =
      let b = bucket_of hash kv key in
      let l = kv.buckets b in
      let (lt, e) = find_in-some kv.node key l found in
      find_in_absent kv.node key (list_del a l) (λ c lt'.
        elim (Bool-cases (key_matches (kv.node c) key)) [
          | inr f ↦ f
          | inl t ↦
              let there : 0 < times c l = omega (arith, lt', times-list_del_le a c l) in
              let same : a ≡ c =
                g.index.unique a c b lt there (e ∙ sym (key_matches→≡ (kv.node c) key t).1) in
              absurd (
                omega (
                  arith,
                  lt',
                  times-list_del a l lt,
                  g.index.single a b,
                  ap (λ x. times x (list_del a l)) same,
                ))
        ])

  -- A pending block begins no earlier than the values.
  above : (v len : ℕ) → pv ≡ some (v, len) → Good hash klen n held pn pv kv → kv.value_base ≤ v
  above v len e g = let ((i, j, q, _), _) = g.heap.room v len e in omega (arith, q.at, g.heap.place)

  -- The search that takes a node out of its bucket, and the drop of that node.
  pub Good-pop_key :
      (now : Timeval) (key : List ℕ)
      → Good hash klen n held pn pv kv
      → (kv' : Kv) × (o : Option ℕ) × (pop_key hash kv now key ≡ some (kv', o))
        × Good hash klen n held pn pv kv'
  unfolding pop_key find_key found_at
  Good-pop_key now key g =
      let b = bucket_of hash kv key in
      elim (Option-cases (find_in kv.node key (kv.buckets b))) [
        | inl e ↦ (kv, none, ground (arith, e), g)
        | inr (a, e) ↦
            let (kv', d, q) = Good-pop b a (find_in-some kv.node key (kv.buckets b) e).0 g in
            (kv', some a, ground (arith, e, d), q)
      ]

module _ {hash : List ℕ → ℕ} {klen n : ℕ} {held : ℕ → ℕ} where
  evict_round-Good :
      (g : Grab) (now : Timeval) (valuelen victim : ℕ)
      → 0 < valuelen
      → valuelen ≤ 2147483648
      → GoodGrab hash klen n held valuelen g
      → (g' : Grab) × (evict_round hash g now valuelen victim ≡ some g')
        × GoodGrab hash klen n held valuelen g'
  unfolding evict_round
  evict_round-Good g now valuelen victim pos small q =
      let (kv, o, e, r) = Good-pop_key now (g.kv.node victim).key q in
      let g₁ : Grab = record { kv = kv; keynode = g.keynode; vaddr = g.vaddr } in
      elim (Option-cases o) [
        | inl f ↦ (g₁, ground (arith, e, f), r)
        | inr (a, f) ↦
            let (g₂, t, r') = grab-Good g₁ valuelen pos small r in (g₂, ground (arith, e, f, t), r')
      ]

  evict_loop-Good :
      (rounds : ℕ) (g : Grab) (now : Timeval) (valuelen : ℕ)
      → 0 < valuelen
      → valuelen ≤ 2147483648
      → GoodGrab hash klen n held valuelen g
      → (g' : Grab) × (evict_loop hash rounds g now valuelen ≡ some g')
        × GoodGrab hash klen n held valuelen g'
  unfolding evict_loop
  evict_loop-Good zero g now valuelen pos small q = (g, refl, q)
  evict_loop-Good (suc rounds) g now valuelen pos small q = elim (Bool-cases (complete g)) [
    | inl t ↦ (g, ground (arith, t), q)
    | inr f ↦ elim (Option-cases (lru_evict g.kv)) [
      | inl e ↦ (g, ground (arith, f, e), q)
      | inr (victim, e) ↦
          let (g₁, r, q₁) = evict_round-Good g now valuelen victim pos small q in
          let (g₂, s, q₂) = evict_loop-Good rounds g₁ now valuelen pos small q₁ in
          (g₂, ground (arith, f, e, r, s), q₂)
    ]
  ]

  fail_set-Good :
      (g : Grab) (valuelen : ℕ)
      → GoodGrab hash klen n held valuelen g
      → (kv' : Kv) × (r : SetReply) × (fail_set hash g ≡ some (kv', r))
        × Good hash klen n held none none kv'
  unfolding fail_set
  fail_set-Good g valuelen q =
      let (kv', e, r) = give_up-Good g valuelen q in
      (kv', record { status = no_mem; keynode = none; val = none }, ground (arith, e), r)

  finish_set-Good :
      (g : Grab) (now : Timeval) (key : List ℕ) (valuelen timeout : ℕ)
      → length key ≤ klen
      → find_in g.kv.node key (g.kv.buckets (bucket_of hash g.kv key)) ≡ none
      → GoodGrab hash klen n held valuelen g
      → (kv' : Kv) × (r : SetReply) × (finish_set hash g now key valuelen timeout ≡ some (kv', r))
        × Good hash klen n held none none kv'
  unfolding finish_set pending
  finish_set-Good g now key valuelen timeout short absent q = elim (Option-cases g.keynode) [
    | inl e ↦ let (kv', r, f, q') = fail_set-Good g valuelen q in (kv', r, ground (arith, e, f), q')
    | inr (a, e) ↦ elim (Option-cases g.vaddr) [
      | inl e' ↦
          let (kv', r, f, q') = fail_set-Good g valuelen q in (kv', r, ground (arith, e, e', f), q')
      | inr (v, e') ↦
          let fits : leb (key_header + length key) g.kv.key_slab.size ≡ true =
            ground (arith, q.heap.wide, short) in
          (
            publish hash g.kv now key a v valuelen timeout,
            record { status = ok; keynode = some a; val = some v },
            ground (arith, e, e', fits),
            publish-Good hash g.kv now key a v valuelen timeout absent
                (above v valuelen (ap (pending valuelen) e') q)
                (subst (λ o. Good hash klen n held (some a) (pending valuelen o) g.kv) e'
                  (subst (λ o. Good hash klen n held o (pending valuelen g.vaddr) g.kv) e q)),
          )
    ]
  ]

  -- `priskv_set_key`
  pub set_key-Good :
      (kv : Kv) (now : Timeval) (key : List ℕ) (valuelen timeout : ℕ)
      → key ≢ []
      → length key ≤ klen
      → 0 < valuelen
      → valuelen ≤ 2147483648
      → Good hash klen n held none none kv
      → (kv' : Kv) × (r : SetReply) × (set_key hash kv now key valuelen timeout ≡ some (kv', r))
        × Good hash klen n held none none kv'
  unfolding set_key pending
  set_key-Good kv now key valuelen timeout ne short pos small q =
      let (k, o, ep, qk) = Good-pop_key now key q in
      let g₀ : Grab = record { kv = k; keynode = none; vaddr = none } in
      let (g, eg, qg) = grab-Good g₀ valuelen pos small qk in
      let (g', el, ql) = evict_loop-Good max_evict_rounds g now valuelen pos small qg in
      let q₀ : Grabbed k g₀ = record {
        shrinks = Shrinks-refl k;
        above = λ w e. absurd (ground (arith, e));
      } in
      let s =
        evict_loop-Grabbed hash k max_evict_rounds g now valuelen (grab-Grabbed k g₀ valuelen q₀ eg)
          el in
      let b = bucket_of hash kv key in
      let gone =
        s.shrinks.absent key b ne (pop_key-absent hash kv now key ne (Good-Once q key) ep) in
      let gone' : find_in g'.kv.node key (g'.kv.buckets (bucket_of hash g'.kv key)) ≡ none =
        subst (λ i. find_in g'.kv.node key (g'.kv.buckets i) ≡ none)
          (sym (
            bucket_of-count hash kv g'.kv key
              (s.shrinks.count ∙ (pop_key-Shrinks hash kv now key ep).count)))
          gone in
      let (kv', r, ef, q') = finish_set-Good g' now key valuelen timeout short gone' ql in
      (kv', r, ground (arith, ep, eg, el, ef), q')
