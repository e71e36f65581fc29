-- ===== src/Kv/Good/Tests.antt =====
-- The theorems on all sequences of requests to server/kv.c, at a sequence on a new store.
use pris_kv.Base.{ℕ, ◌+◌, ◌*◌, ◌%◌, ◌≤◌, ◌≡◌, ◌<◌, ◌≢◌, ◌⊎◌, arith, refl, none, some, List, [], ◌∷◌}
use pris_kv.Buddy.Valid.{address}
use pris_kv.Kv.Owned.{HasSlot, HasBlock}
use pris_kv.Base.Pow.{pow2}
use pris_kv.Kv.State.{Kv, zero_node, value_to_pointer}
use pris_kv.Kv.Find.{key_max_timeout}
use pris_kv.Kv.Ops.{new_kv, get_key, set_key_end, ok}
use pris_kv.Kv.Evict.{set_key}
use pris_kv.Kv.Tests.{clock, hash, key_a, small, program}
use pris_kv.Kv.Good.{times}
use pris_kv.Kv.Good.Ops.{taken}
use pris_kv.Kv.Good.Start.{Fresh}
use pris_kv.Kv.Good.Reach.{
  StoreRequest, get, get_end, set, set_end, Shared, serve, Allowed, Reachable, start, step,
}
use pris_kv.Kv.Good.Served.{
  Reachable-serve, Reachable-refcnt, Reachable-value_to_pointer, Reachable-set_key-get_key,
  Reachable-owner,
}

-- Three keys of up to 8 bytes and four blocks of 64 bytes.
abbrev pub first : Kv
first = elim (new_kv (λ a. zero_node) (λ i. 0) 1000 4096 3 8 64 4) [ none ↦ small | some kv ↦ kv ]

abbrev served : StoreRequest → Shared → Shared
served r s = elim (serve hash r s) [ none ↦ s | some s' ↦ s' ]

abbrev key_b : List ℕ
key_b = 98 ∷ []

abbrev s₀ : Shared
s₀ = record { kv = first; held = λ a. 0 }

-- Two keys are set, and the first is got.
abbrev s₁ : Shared
s₁ = served (set clock key_a 100 key_max_timeout) s₀

abbrev pub s₂ : Shared
s₂ = served (set_end 1000) s₁

abbrev s₃ : Shared
s₃ = served (set clock key_b 50 key_max_timeout) s₂

abbrev s₄ : Shared
s₄ = served (get clock key_a) s₃

pub room : Fresh (λ a. zero_node) 1000 4096 3 8 64 2
unfolding program
room = record {
  unused = λ a. refl;
  keys = omega arith;
  count = omega arith;
  few = omega arith;
  slot = omega arith;
  key_room = omega arith;
  blocks = omega arith;
  values = omega arith;
  block = omega arith;
  value_room = omega arith;
}

s₀-Reachable : Reachable hash 8 2 s₀
unfolding program
s₀-Reachable = start (λ a. zero_node) (λ i. 0) 1000 4096 3 64 first room refl

s₁-Reachable : Reachable hash 8 2 s₁
unfolding program serve Allowed
s₁-Reachable =
    step (set clock key_a 100 key_max_timeout) s₀ s₁ s₀-Reachable
      (λ e. absurd (cc e), omega arith, omega arith, omega arith) refl

pub s₂-Reachable : Reachable hash 8 2 s₂
unfolding program serve Allowed
s₂-Reachable = step (set_end 1000) s₁ s₂ s₁-Reachable tt refl

s₃-Reachable : Reachable hash 8 2 s₃
unfolding program serve Allowed
s₃-Reachable =
    step (set clock key_b 50 key_max_timeout) s₂ s₃ s₂-Reachable
      (λ e. absurd (cc e), omega arith, omega arith, omega arith) refl

s₄-Reachable : Reachable hash 8 2 s₄
unfolding program serve Allowed taken
s₄-Reachable = step (get clock key_a) s₃ s₄ s₃-Reachable (λ a. omega arith) refl

held-1000 : 0 < s₄.held 1000
unfolding program serve taken
held-1000 = omega arith

live-1000 : 0 < (s₃.kv.node 1000).refcnt
unfolding program serve
live-1000 = omega arith

live-1096 : 0 < (s₃.kv.node 1096).refcnt
unfolding program serve
live-1096 = omega arith

get_end-Allowed : Allowed 8 (get_end 1000) s₄
unfolding Allowed
get_end-Allowed = held-1000

-- The caller that has got the first key gives it back.
Reachable-serve_example :
    (s' : Shared) × (serve hash (get_end 1000) s₄ ≡ some s') × Reachable hash 8 2 s'
Reachable-serve_example = Reachable-serve (get_end 1000) s₄ s₄-Reachable get_end-Allowed

Reachable-refcnt_example :
    let b = hash (s₄.kv.node 1000).key % s₄.kv.bucket_count in
    ((s₄.kv.node 1000).refcnt ≡ s₄.held 1000 + times 1000 (s₄.kv.buckets b))
    × (times 1000 (s₄.kv.buckets b) ≤ 1)
    × ((i : ℕ) → i ≢ b → times 1000 (s₄.kv.buckets i) ≡ 0)
    × ((c : ℕ)
        → 0 < times 1000 (s₄.kv.buckets b)
        → 0 < times c (s₄.kv.buckets b)
        → (s₄.kv.node 1000).key ≡ (s₄.kv.node c).key
        → 1000 ≡ c)
Reachable-refcnt_example = Reachable-refcnt s₄ 1000 s₄-Reachable

Reachable-value_to_pointer_example :
    (i : ℕ) × (j : ℕ) × (k : ℕ) × (l : ℕ) × (value_to_pointer s₃.kv 1000
      ≡ address s₃.kv.value_buddy i j)
    × (value_to_pointer s₃.kv 1096 ≡ address s₃.kv.value_buddy k l)
    × ((s₃.kv.node 1000).valuelen ≤ pow2 j * s₃.kv.value_buddy.size)
    × ((s₃.kv.node 1096).valuelen ≤ pow2 l * s₃.kv.value_buddy.size)
    × ((value_to_pointer s₃.kv 1000 + pow2 j * s₃.kv.value_buddy.size ≤ value_to_pointer s₃.kv 1096)
        ⊎ (value_to_pointer s₃.kv 1096 + pow2 l * s₃.kv.value_buddy.size
            ≤ value_to_pointer s₃.kv 1000))
Reachable-value_to_pointer_example =
    Reachable-value_to_pointer s₃ 1000 1096 s₃-Reachable live-1000 live-1096
      (λ e. absurd (omega (arith, e)))

Reachable-owner_example :
    ((a : ℕ) → HasSlot s₄.kv.key_slab a → 0 < (s₄.kv.node a).refcnt)
    × ((v : ℕ)
        → HasBlock 2 s₄.kv.value_buddy v
        → (a : ℕ) × (0 < (s₄.kv.node a).refcnt) × (value_to_pointer s₄.kv a ≡ v))
Reachable-owner_example = Reachable-owner s₄ s₄-Reachable

-- The store that the SET of the second key has left.
abbrev after : Kv
after = s₃.kv

set_b :
    set_key hash s₂.kv clock key_b 50 key_max_timeout
    ≡ some (after, record { status = ok; keynode = some 1096; val = some 4224 })
unfolding program serve
set_b = refl

Reachable-set_key-get_key_example :
    (kv'' : Kv) × (get_key hash (set_key_end after (some 1096)) clock key_b
      ≡ some (kv'', record { status = ok; keynode = some 1096; value = some (4224, 50) }))
Reachable-set_key-get_key_example =
    Reachable-set_key-get_key s₂ clock clock key_b 50 key_max_timeout s₂-Reachable
      (λ e. absurd (cc e)) (omega arith) (omega arith) (omega arith)
      (λ lt. absurd (omega (arith, lt))) set_b
