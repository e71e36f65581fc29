-- ===== src/Policy/Evict.antt =====
-- What `lru_policy_evict` of server/backend/policy_lru.c gives up.
use mathlib.Core.List.{reverse, reverse-reverse, reverse-cons}
use pris_kv.Base.{
  ℕ, zero, suc, ◌+◌, ◌<◌, ◌≡◌, ◌⊎◌, inl, inr, arith, refl, sym, ap, none, some, true, false, List,
  [], ◌∷◌, ◌++◌, ◌==◌, length, Bool-cases, Option-cases, subst,
}
use pris_kv.Kv.Find.{same_bytes}
use pris_kv.Policy.{
  LruNode, Lru, max_attempts, evict_from, lru_policy_evict, lru_policy_try_ref_key, hash_find,
  remove,
}

-- All of the nodes have references.
abbrev pub Pinned : Lru → Type 0
Pinned [] = Unit {0}
Pinned (n ∷ nodes) = (0 < n.ref_count) × Pinned nodes

-- The search comes to a node without references after `front`.
pub record Free (attempts : ℕ) (nodes front : Lru) (n : LruNode) (back : Lru) : Type 0 where
  pub whole : nodes ≡ front ++ (n ∷ back)
  pub free : n.ref_count ≡ 0
  pub pinned : Pinned front
  pub reached : length front < attempts

-- The search has seen `front` in vain.
pub record Stuck (attempts : ℕ) (nodes front back : Lru) : Type 0 where
  pub whole : nodes ≡ front ++ back
  pub pinned : Pinned front
  pub ended : (back ≡ []) ⊎ (length front ≡ attempts)

evict_from_lem :
    (attempts : ℕ) (nodes : Lru)
    → ((front : Lru) × (n : LruNode) × (back : Lru) × Free attempts nodes front n back
        × (evict_from attempts nodes ≡ some (n.key, front ++ back)))
      ⊎ ((front back : Lru) × Stuck attempts nodes front back × (evict_from attempts nodes ≡ none))
unfolding evict_from
evict_from_lem zero nodes =
    inr ([], nodes, record { whole = refl; pinned = tt; ended = inr refl }, refl)
evict_from_lem (suc attempts) [] =
    inr ([], [], record { whole = refl; pinned = tt; ended = inl refl }, refl)
evict_from_lem (suc attempts) (m ∷ nodes) = elim (Bool-cases (m.ref_count == 0)) [
  | inl t ↦ inl (
    [],
    m,
    nodes,
    record { whole = refl; free = ground (arith, t); pinned = tt; reached = omega arith },
    ground (arith, t),
  )
  | inr f ↦
      let held : 0 < m.ref_count = ground (arith, f) in
      elim (evict_from_lem attempts nodes) [
        | inl (front, n, back, q, e) ↦ inl (
          m ∷ front,
          n,
          back,
          record {
            whole = ap (◌∷◌ m) q.whole;
            free = q.free;
            pinned = (held, q.pinned);
            reached = omega (arith, q.reached);
          },
          ground (arith, f, e),
        )
        | inr (front, back, q, e) ↦ inr (
          m ∷ front,
          back,
          record {
            whole = ap (◌∷◌ m) q.whole;
            pinned = (held, q.pinned);
            ended = elim q.ended [ inl d ↦ inl d | inr d ↦ inr (omega (arith, d)) ];
          },
          ground (arith, f, e),
        )
      ]
]

evict_found :
    (lru : Lru) (key : List ℕ) (rest : Lru)
    → evict_from max_attempts (reverse lru) ≡ some (key, rest)
    → lru_policy_evict lru ≡ (reverse rest, some key)
unfolding lru_policy_evict
evict_found lru key rest e = ground (arith, e)

evict_none :
    (lru : Lru) → evict_from max_attempts (reverse lru) ≡ none → lru_policy_evict lru ≡ (lru, none)
unfolding lru_policy_evict
evict_none lru e = ground (arith, e)

-- Eviction takes, of the last 128 nodes of the list, the last that has no references: the nodes
-- behind it all have some, it alone leaves the list, and the others keep their order. If there is
-- none, it returns NULL and changes nothing: all nodes, or the last 128, have references.
pub lru_policy_evict_lem :
    (lru : Lru)
    → ((front : Lru) × (n : LruNode) × (back lru' : Lru) × Free 128 (reverse lru) front n back
        × (lru_policy_evict lru ≡ (lru', some n.key))
        × (reverse lru' ≡ front ++ back))
      ⊎ ((front back : Lru) × Stuck 128 (reverse lru) front back
          × (lru_policy_evict lru ≡ (lru, none)))
lru_policy_evict_lem lru = elim (evict_from_lem 128 (reverse lru)) [
  | inl (front, n, back, q, e) ↦ inl (
    front,
    n,
    back,
    reverse (front ++ back),
    q,
    evict_found lru n.key (front ++ back) e,
    reverse-reverse (front ++ back),
  )
  | inr (front, back, q, e) ↦ inr (front, back, q, evict_none lru e)
]

-- No node without references has the key.
abbrev pub Held : List ℕ → Lru → Type 0
Held key [] = Unit {0}
Held key (n ∷ nodes) = (n.ref_count ≡ 0 → same_bytes n.key key ≡ false) × Held key nodes

Held-append : (key : List ℕ) (l m : Lru) → Held key l → Held key m → Held key (l ++ m)
Held-append key [] m p q = q
Held-append key (n ∷ l) m p q = (p.0, Held-append key l m p.1 q)

Held-reverse : (key : List ℕ) (l : Lru) → Held key l → Held key (reverse l)
Held-reverse key [] p = tt
Held-reverse key (n ∷ l) p =
    subst (λ x. Held key x) (sym (reverse-cons n l))
      (Held-append key (reverse l) (n ∷ []) (Held-reverse key l p.1) (p.0, tt))

Held-hash_find : (key : List ℕ) (l : Lru) → hash_find l key ≡ none → Held key l
unfolding hash_find
Held-hash_find key [] e = tt
Held-hash_find key (n ∷ l) e =
    let f : same_bytes n.key key ≡ false = ground (arith, e) in
    (λ z. f, Held-hash_find key l (ground (arith, e, f)))

Held-middle :
    (key : List ℕ) (front : Lru) (n : LruNode) (back : Lru)
    → Held key (front ++ (n ∷ back))
    → n.ref_count ≡ 0
    → same_bytes n.key key ≡ false
Held-middle key [] n back p z = p.0 z
Held-middle key (m ∷ front) n back p z = Held-middle key front n back p.1 z

try_ref_inv :
    (lru : Lru) (key : List ℕ) {lru' : Lru}
    → lru_policy_try_ref_key lru key ≡ (lru', true)
    → (n : LruNode) × (lru' ≡ record n { ref_count = n.ref_count + 1 } ∷ remove lru key)
unfolding lru_policy_try_ref_key
try_ref_inv lru key h = elim (Option-cases (hash_find lru key)) [
  | inl e ↦ absurd (ground (arith, h, e))
  | inr (n, e) ↦ (n, ground (arith, h, e))
]

-- A key that has got a reference is not evicted, where the list holds it once: the next eviction
-- gives up another key or none.
pub try_ref_key-evict :
    (lru : Lru) (key : List ℕ) {lru' : Lru}
    → hash_find (remove lru key) key ≡ none
    → lru_policy_try_ref_key lru key ≡ (lru', true)
    → ((lru'' : Lru) × (evicted : List ℕ) × (lru_policy_evict lru' ≡ (lru'', some evicted))
        × (same_bytes evicted key ≡ false))
      ⊎ (lru_policy_evict lru' ≡ (lru', none))
try_ref_key-evict lru key {lru'} once h =
    let (m, e) = try_ref_inv lru key h in
    let held : Held key lru' =
      subst (λ x. Held key x) (sym e)
        (λ z. absurd (omega (arith, z)), Held-hash_find key (remove lru key) once) in
    elim (lru_policy_evict_lem lru') [
      | inl (front, n, back, rest, q, ev, er) ↦
          let whole = subst (λ x. Held key x) q.whole (Held-reverse key lru' held) in
          inl (rest, n.key, ev, Held-middle key front n back whole q.free)
      | inr (front, back, q, ev) ↦ inr ev
    ]
