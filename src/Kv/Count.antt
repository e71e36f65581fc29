-- ===== src/Kv/Count.antt =====
-- `calculate_hash_bucket_count` of server/kv.c chooses the largest prime of its table that is not
-- above the number of keys.
use pris_kv.Base.{
  ℕ, zero, suc, ◌+◌, ◌-◌, ◌/◌, ◌≡◌, ◌≤◌, ◌<◌, ◌⊎◌, inl, inr, arith, refl, ◌∙◌, some, true, false,
  ltb, leb, Bool-cases, subst, ℕ_discrete, ltb→lt, leb→le,
}
use pris_kv.Base.Pow.{pow2}
use pris_kv.Kv.Ops.{prime_at, prime_search, hash_bucket_count}

-- The largest prime that is not above `max_keys` is the `k`-th.
pub record Best (max_keys k : ℕ) : Type 0 where
  pub index : k < 9
  pub below : prime_at k ≤ max_keys
  pub above : (i : ℕ) → k < i → i < 9 → max_keys < prime_at i

prime_at-suc : (i : ℕ) → i < 8 → prime_at i ≤ prime_at (i + 1)
prime_at-suc zero h = omega arith
prime_at-suc (suc zero) h = omega arith
prime_at-suc (suc (suc zero)) h = omega arith
prime_at-suc (suc (suc (suc zero))) h = omega arith
prime_at-suc (suc (suc (suc (suc zero)))) h = omega arith
prime_at-suc (suc (suc (suc (suc (suc zero))))) h = omega arith
prime_at-suc (suc (suc (suc (suc (suc (suc zero)))))) h = omega arith
prime_at-suc (suc (suc (suc (suc (suc (suc (suc zero))))))) h = omega arith
prime_at-suc (suc (suc (suc (suc (suc (suc (suc (suc i)))))))) h = absurd (omega (arith, h))

prime_at_mono : (i d : ℕ) → i + d < 9 → prime_at i ≤ prime_at (i + d)
prime_at_mono i zero h =
    let e : i ≡ i + 0 = omega arith in
    let r : prime_at i ≤ prime_at i = omega arith in subst (λ x. prime_at i ≤ prime_at x) e r
prime_at_mono i (suc d) h =
    let e : i + d + 1 ≡ i + suc d = omega arith in
    let step : prime_at (i + d) ≤ prime_at (i + suc d) =
      subst (λ x. prime_at (i + d) ≤ prime_at x) e (prime_at-suc (i + d) (omega (arith, h))) in
    omega (arith, step, prime_at_mono i d (omega (arith, h)))

-- Where the search stands: all from `right` on are too large, the best so far is the `j`-th.
pub record Searching (max_keys left right j : ℕ) : Type 0 where
  pub in_table : right ≤ 9
  pub last : j < 9
  pub below : prime_at j ≤ max_keys
  pub above : (i : ℕ) → right ≤ i → i < 9 → max_keys < prime_at i
  pub place : (left ≡ suc j) ⊎ ((left ≡ 0) × (j ≡ 0) × (0 < right))

finished :
    (max_keys left right j : ℕ) → Searching max_keys left right j → right ≤ left → Best max_keys j
finished max_keys left right j s le = record {
  index = s.last;
  below = s.below;
  above = λ i lt h. elim s.place [
    | inl e ↦ s.above i (omega (arith, e, le, lt)) h
    | inr (e, ej, pos) ↦ absurd (omega (arith, e, pos, le))
  ];
}

go_right :
    (max_keys left right j mid : ℕ)
    → Searching max_keys left right j
    → mid < right
    → prime_at mid ≤ max_keys
    → Searching max_keys (mid + 1) right mid
go_right max_keys left right j mid s lt le = record {
  in_table = s.in_table;
  last = omega (arith, lt, s.in_table);
  below = le;
  above = s.above;
  place = inl (omega arith);
}

go_left :
    (max_keys left right j mid : ℕ)
    → Searching max_keys left right j
    → left ≤ mid
    → mid < right
    → max_keys < prime_at mid
    → Searching max_keys left mid j
go_left max_keys left right j mid s ge lt gt = record {
  in_table = omega (arith, lt, s.in_table);
  last = s.last;
  below = s.below;
  above = λ i le h.
      let (d, e) : (d : ℕ) × (mid + d ≡ i) = (i - mid, omega (arith, le)) in
      let up = prime_at_mono mid d (omega (arith, e, h)) in
      let up' : prime_at mid ≤ prime_at i = subst (λ x. prime_at mid ≤ prime_at x) e up in
      omega (arith, gt, up');
  place = elim s.place [
    | inl e ↦ inl e
    | inr (e, ej, pos) ↦
        let below : prime_at 0 ≤ max_keys = subst (λ x. prime_at x ≤ max_keys) ej s.below in
        elim (ℕ_discrete mid 0) [
          | yes z ↦
              let gt' : max_keys < prime_at 0 = subst (λ x. max_keys < prime_at x) z gt in
              absurd (omega (arith, gt', below))
          | no nz ↦ inr (e, ej, omega (arith, nz))
        ]
  ];
}

prime_search_stop :
    (fuel max_keys left right result : ℕ)
    → ltb left right ≡ false
    → prime_search (suc fuel) max_keys left right result ≡ some result
unfolding prime_search
prime_search_stop fuel max_keys left right result f = ground (arith, f)

prime_search_right :
    (fuel max_keys left right result : ℕ)
    → ltb left right ≡ true
    → let mid = left + (right - 1 - left) / 2 in
      leb (prime_at mid) max_keys ≡ true
      → prime_search (suc fuel) max_keys left right result
        ≡ prime_search fuel max_keys (mid + 1) right (prime_at mid)
unfolding prime_search
prime_search_right fuel max_keys left right result t le =
    rw (t, prime_search) (rw (le, prime_search) refl)

prime_search_left :
    (fuel max_keys left right result : ℕ)
    → ltb left right ≡ true
    → let mid = left + (right - 1 - left) / 2 in
      leb (prime_at mid) max_keys ≡ false
      → prime_search (suc fuel) max_keys left right result
        ≡ prime_search fuel max_keys left mid result
unfolding prime_search
prime_search_left fuel max_keys left right result t gt =
    rw (t, prime_search) (rw (gt, prime_search) refl)

prime_search_lem :
    (fuel max_keys left right j : ℕ)
    → right < left + pow2 fuel
    → Searching max_keys left right j
    → (k : ℕ) × (prime_search (suc fuel) max_keys left right (prime_at j) ≡ some (prime_at k))
      × Best max_keys k
prime_search_lem zero max_keys left right j h s = (
  j,
  prime_search_stop zero max_keys left right (prime_at j) (ground (arith, h)),
  finished max_keys left right j s (omega (arith, h)),
)
prime_search_lem (suc fuel) max_keys left right j h s = elim (Bool-cases (ltb left right)) [
  | inr f ↦ (
    j,
    prime_search_stop (suc fuel) max_keys left right (prime_at j) f,
    finished max_keys left right j s (ground (arith, f)),
  )
  | inl t ↦
      let lt : left < right = ltb→lt left right t in
      let mid = left + (right - 1 - left) / 2 in
      elim (Bool-cases (leb (prime_at mid) max_keys)) [
        | inl le ↦
            let s' =
              go_right max_keys left right j mid s (omega (arith, lt))
                (leb→le (prime_at mid) max_keys le) in
            let (k, e, best) =
              prime_search_lem fuel max_keys (mid + 1) right mid (omega (arith, h, lt)) s' in
            (k, prime_search_right (suc fuel) max_keys left right (prime_at j) t le ∙ e, best)
        | inr gt ↦
            let s' =
              go_left max_keys left right j mid s (omega arith) (omega (arith, lt))
                (ground (arith, gt)) in
            let (k, e, best) =
              prime_search_lem fuel max_keys left mid j (omega (arith, h, lt)) s' in
            (k, prime_search_left (suc fuel) max_keys left right (prime_at j) t gt ∙ e, best)
      ]
]

-- The number of buckets is that of the keys below the first prime, and else the largest prime of
-- the table that is not above the number of keys: the search always ends.
pub hash_bucket_count_lem :
    (max_keys : ℕ)
    → ((max_keys < 32749) × (hash_bucket_count max_keys ≡ some max_keys))
      ⊎ ((k : ℕ) × (hash_bucket_count max_keys ≡ some (prime_at k)) × Best max_keys k)
unfolding hash_bucket_count
hash_bucket_count_lem max_keys = elim (Bool-cases (ltb max_keys (prime_at 0))) [
  | inl t ↦ inl (ltb→lt max_keys (prime_at 0) t, ground (arith, t))
  | inr f ↦
      let le : prime_at 0 ≤ max_keys = ground (arith, f) in
      let s : Searching max_keys 0 9 0 = record {
        in_table = omega arith;
        last = omega arith;
        below = le;
        above = λ i h g. absurd (omega (arith, h, g));
        place = inr (refl, refl, omega arith);
      } in
      let (k, e, best) = prime_search_lem 4 max_keys 0 9 0 (omega arith) s in
      inr (k, rw (f) e, best)
]
