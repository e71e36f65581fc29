-- ===== src/Kv/Rounds.antt =====
-- The keys of a store of server/kv.c after a node has been popped, and after eviction.
use pris_kv.Base.{
  ℕ, zero, suc, ◌%◌, ◌≡◌, ◌≢◌, ◌⊎◌, inl, inr, arith, sym, ap, Option, none, some, List, [],
  Bool-cases, Option-cases, subst, ◌+◌, leb, length,
}
use pris_kv.Base.Time.{Timeval}
use pris_kv.Kv.State.{Kv, list_del, lru_evict}
use pris_kv.Kv.Find.{find_in, find_key, found_at, bucket_of, unlink}
use pris_kv.Kv.Ops.{ok, key_header, drop_node}
use pris_kv.Kv.Evict.{
  Grab, grab, publish, pop_key, evict_round, complete, evict_loop, finish_set, fail_set,
  max_evict_rounds, set_key,
}
use pris_kv.Kv.Shrink.{Shrinks, Shrinks-refl, Shrinks-trans, drop_node-Shrinks, unlink-Shrinks}
use pris_kv.Kv.Grabbed.{Grabbed, grab-Grabbed}

module _ (crc32 : List ℕ → ℕ) where
  -- A bucket holds a key at most once.
  abbrev pub Once : Kv → List ℕ → Type 0
  Once kv key =
      let l = kv.buckets (bucket_of crc32 kv key) in
      (a : ℕ) → find_in kv.node key l ≡ some a → find_in kv.node key (list_del a l) ≡ none

  pub pop_key_inv :
      (kv : Kv) (now : Timeval) (key : List ℕ) {kv' : Kv} {o : Option ℕ}
      → pop_key crc32 kv now key ≡ some (kv', o)
      → ((find_in kv.node key (kv.buckets (bucket_of crc32 kv key)) ≡ none) × (kv' ≡ kv))
        ⊎ ((a : ℕ) × (find_in kv.node key (kv.buckets (bucket_of crc32 kv key)) ≡ some a)
            × (drop_node (unlink kv (bucket_of crc32 kv key) a) a ≡ some kv'))
  unfolding pop_key find_key found_at
  pop_key_inv kv now key h = ground arith

  pub pop_key-Shrinks :
      (kv : Kv) (now : Timeval) (key : List ℕ) {kv' : Kv} {o : Option ℕ}
      → pop_key crc32 kv now key ≡ some (kv', o)
      → Shrinks kv kv'
  pop_key-Shrinks kv now key {kv'} h = elim (pop_key_inv kv now key h) [
    | inl (n, e) ↦ subst (λ x. Shrinks kv x) (sym e) (Shrinks-refl kv)
    | inr (a, f, d) ↦
        Shrinks-trans (unlink-Shrinks kv (bucket_of crc32 kv key) a)
          (drop_node-Shrinks (unlink kv (bucket_of crc32 kv key) a) a d)
  ]

  pub bucket_of-count :
      (kv kv' : Kv) (key : List ℕ)
      → kv'.bucket_count ≡ kv.bucket_count
      → bucket_of crc32 kv' key ≡ bucket_of crc32 kv key
  unfolding bucket_of
  bucket_of-count kv kv' key e = ap (λ n. crc32 key % n) e

  pub find_in-unlink :
      (kv : Kv) (key : List ℕ) (b a : ℕ)
      → find_in kv.node key (list_del a (kv.buckets b)) ≡ none
      → find_in (unlink kv b a).node key ((unlink kv b a).buckets b) ≡ none
  unfolding unlink
  find_in-unlink kv key b a h = ground arith

  -- After a node has been taken out of its bucket, its key is not there.
  pub pop_key-absent :
      (kv : Kv) (now : Timeval) (key : List ℕ) {kv' : Kv} {o : Option ℕ}
      → key ≢ []
      → Once kv key
      → pop_key crc32 kv now key ≡ some (kv', o)
      → find_in kv'.node key (kv'.buckets (bucket_of crc32 kv key)) ≡ none
  pop_key-absent kv now key {kv'} ne once h =
      let b = bucket_of crc32 kv key in
      elim (pop_key_inv kv now key h) [
        | inl (n, e) ↦ subst (λ k. find_in k.node key (k.buckets b) ≡ none) (sym e) n
        | inr (a, f, d) ↦
            let q = drop_node-Shrinks (unlink kv b a) a d in
            q.absent key b ne (find_in-unlink kv key b a (once a f))
      ]

  evict_round-Grabbed :
      (kv : Kv) (g : Grab) (now : Timeval) (valuelen victim : ℕ) {g' : Grab}
      → Grabbed kv g
      → evict_round crc32 g now valuelen victim ≡ some g'
      → Grabbed kv g'
  unfolding evict_round
  evict_round-Grabbed kv g now valuelen victim q h =
      elim (Option-cases (pop_key crc32 g.kv now (g.kv.node victim).key)) [
        | inl e ↦ absurd (ground (arith, h, e))
        | inr ((k, o), e) ↦
            let g₁ : Grab = record { kv = k; keynode = g.keynode; vaddr = g.vaddr } in
            let q₁ : Grabbed kv g₁ = record {
              shrinks = Shrinks-trans q.shrinks (pop_key-Shrinks g.kv now (g.kv.node victim).key e);
              above = q.above;
            } in
            elim (Option-cases o) [
              | inl n ↦ subst (λ x. Grabbed kv x) (ground (arith, h, e, n)) q₁
              | inr (a, so) ↦ grab-Grabbed kv g₁ valuelen q₁ (ground (arith, h, e, so))
            ]
      ]

  pub evict_loop-Grabbed :
      (kv : Kv) (rounds : ℕ) (g : Grab) (now : Timeval) (valuelen : ℕ) {g' : Grab}
      → Grabbed kv g
      → evict_loop crc32 rounds g now valuelen ≡ some g'
      → Grabbed kv g'
  unfolding evict_loop
  evict_loop-Grabbed kv zero g now valuelen q h = subst (λ x. Grabbed kv x) (ground arith) q
  evict_loop-Grabbed kv (suc rounds) g now valuelen q h = elim (Bool-cases (complete g)) [
    | inl t ↦ subst (λ x. Grabbed kv x) (ground (arith, h, t)) q
    | inr f ↦ elim (Option-cases (lru_evict g.kv)) [
      | inl n ↦ subst (λ x. Grabbed kv x) (ground (arith, h, f, n)) q
      | inr (victim, e) ↦ elim (Option-cases (evict_round crc32 g now valuelen victim)) [
        | inl n ↦ absurd (ground (arith, h, f, e, n))
        | inr (g₁, r) ↦
            evict_loop-Grabbed kv rounds g₁ now valuelen
              (evict_round-Grabbed kv g now valuelen victim q r) (ground (arith, h, f, e, r))
      ]
    ]
  ]

  fail_set-ne :
      (g : Grab) (kv' : Kv) (a v : ℕ)
      → fail_set crc32 g ≢ some (kv', record { status = ok; keynode = some a; val = some v })
  unfolding fail_set
  fail_set-ne g kv' a v h = ground arith

  finish_set_inv :
      (g : Grab) (now : Timeval) (key : List ℕ) (valuelen timeout : ℕ) {kv' : Kv} {a v : ℕ}
      → finish_set crc32 g now key valuelen timeout
        ≡ some (kv', record { status = ok; keynode = some a; val = some v })
      → (g.vaddr ≡ some v) × (kv' ≡ publish crc32 g.kv now key a v valuelen timeout)
  unfolding finish_set
  finish_set_inv g now key valuelen timeout {kv'} {a} {v} h = elim (Option-cases g.keynode) [
    | inl e ↦ absurd (fail_set-ne g kv' a v (ground (arith, h, e)))
    | inr (x, e) ↦ elim (Option-cases g.vaddr) [
      | inl e₂ ↦ absurd (fail_set-ne g kv' a v (ground (arith, h, e, e₂)))
      | inr (y, e₂) ↦ elim (Bool-cases (leb (key_header + length key) g.kv.key_slab.size)) [
        | inl fits ↦ ground (arith, h, e, e₂, fits)
        | inr long ↦ absurd (ground (arith, h, e, e₂, long))
      ]
    ]
  ]

  pub set_key_inv :
      (kv : Kv) (now : Timeval) (key : List ℕ) (valuelen timeout : ℕ) {kv' : Kv} {a v : ℕ}
      → set_key crc32 kv now key valuelen timeout
        ≡ some (kv', record { status = ok; keynode = some a; val = some v })
      → (k : Kv) × (o : Option ℕ) × (g g' : Grab) × (pop_key crc32 kv now key ≡ some (k, o))
        × (grab (record { kv = k; keynode = none; vaddr = none }) valuelen ≡ some g)
        × (evict_loop crc32 max_evict_rounds g now valuelen ≡ some g')
        × (g'.vaddr ≡ some v)
        × (kv' ≡ publish crc32 g'.kv now key a v valuelen timeout)
  unfolding set_key
  set_key_inv kv now key valuelen timeout h = elim (Option-cases (pop_key crc32 kv now key)) [
    | inl e ↦ absurd (ground (arith, h, e))
    | inr ((k, o), e) ↦
        elim (Option-cases (grab (record { kv = k; keynode = none; vaddr = none }) valuelen)) [
          | inl e₂ ↦ absurd (ground (arith, h, e, e₂))
          | inr (g, e₂) ↦ elim (Option-cases (evict_loop crc32 max_evict_rounds g now valuelen)) [
            | inl e₃ ↦ absurd (ground (arith, h, e, e₂, e₃))
            | inr (g', e₃) ↦
                let (ev, ek) =
                  finish_set_inv g' now key valuelen timeout (ground (arith, h, e, e₂, e₃)) in
                (k, o, g, g', e, e₂, e₃, ev, ek)
          ]
        ]
  ]
