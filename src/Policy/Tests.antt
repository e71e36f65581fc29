-- ===== src/Policy/Tests.antt =====
-- server/backend/policy_lru.c on short lists, and its theorems at them.
use mathlib.Core.List.{reverse}
use pris_kv.Base.{ℕ, ◌≡◌, ◌⊎◌, none, some, false, List, [], ◌∷◌, ◌++◌, refl, arith}
use pris_kv.Kv.Find.{same_bytes}
use pris_kv.Policy.{
  LruNode, Lru, hash_find, remove, lru_policy_access, evict_from, lru_policy_evict,
  lru_policy_del_key, lru_policy_try_ref_key, unref_in, lru_policy_unref_key,
}
use pris_kv.Policy.Unique.{Unique, access-Unique, Unique-kept}
use pris_kv.Policy.Evict.{Free, Stuck, lru_policy_evict_lem, try_ref_key-evict}

program : Unit {0}
unfolding same_bytes hash_find remove lru_policy_access evict_from lru_policy_evict
    lru_policy_del_key lru_policy_try_ref_key unref_in lru_policy_unref_key
program = tt

-- The keys 1, 2 and 3, the last of which is referred to.
abbrev three : Lru
three =
    record { key = 1 ∷ []; ref_count = 0 }
    ∷ (record { key = 2 ∷ []; ref_count = 0 } ∷ (record { key = 3 ∷ []; ref_count = 1 } ∷ []))

evict-three : (lru_policy_evict three).1 ≡ some (2 ∷ [])
unfolding program
evict-three = refl

evict-three_unref : (lru_policy_evict (lru_policy_unref_key three (3 ∷ []))).1 ≡ some (3 ∷ [])
unfolding program
evict-three_unref = refl

evict-three_access : (lru_policy_evict (lru_policy_access three (2 ∷ []))).1 ≡ some (1 ∷ [])
unfolding program
evict-three_access = refl

lru_policy_evict_lem_example :
    ((front : Lru) × (n : LruNode) × (back lru' : Lru) × Free 128 (reverse three) front n back
      × (lru_policy_evict three ≡ (lru', some n.key))
      × (reverse lru' ≡ front ++ back))
    ⊎ ((front back : Lru) × Stuck 128 (reverse three) front back
        × (lru_policy_evict three ≡ (three, none)))
lru_policy_evict_lem_example = lru_policy_evict_lem three

abbrev three_held : Lru
three_held = (lru_policy_try_ref_key three (2 ∷ [])).0

try_ref_key-evict_example :
    ((lru'' : Lru) × (evicted : List ℕ) × (lru_policy_evict three_held ≡ (lru'', some evicted))
      × (same_bytes evicted (2 ∷ []) ≡ false))
    ⊎ (lru_policy_evict three_held ≡ (three_held, none))
unfolding program
try_ref_key-evict_example = try_ref_key-evict three (2 ∷ []) refl refl

-- The keys 3 and 2, as they came.
abbrev two : Lru
two = lru_policy_access (lru_policy_access [] (3 ∷ [])) (2 ∷ [])

two-Unique : Unique two
two-Unique =
    access-Unique (lru_policy_access [] (3 ∷ [])) (2 ∷ [])
      (access-Unique [] (3 ∷ []) (λ k. omega arith))

Unique-kept_example :
    Unique (lru_policy_access two (3 ∷ []))
    × Unique (lru_policy_evict two).0
    × Unique (lru_policy_del_key two (3 ∷ []))
    × Unique (lru_policy_try_ref_key two (3 ∷ [])).0
    × Unique (lru_policy_unref_key two (3 ∷ []))
Unique-kept_example = Unique-kept two (3 ∷ []) two-Unique
