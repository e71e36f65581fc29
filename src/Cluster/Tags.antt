-- ===== src/Cluster/Tags.antt =====
-- The part of a key between braces decides its slot (cluster/client/client.c).
use pris_kv.Base.{ℕ, ◌≡◌, ◌≢◌, ◌<◌, arith, refl, some, none, List, [], ◌∷◌, ◌++◌, bit_and}
use pris_kv.Base.Bits.{bit_and_le}
use pris_kv.Cluster.{cluster_slots, behind, before, hashed_part, key_hash_slot}

-- The byte is not in the list.
unfoldable pub Without : ℕ → List ℕ → Type 0
Without c [] = Unit {0}
Without c (x ∷ l) = (x ≢ c) × Without c l

first_behind : (c : ℕ) (p l : List ℕ) → Without c p → behind c (p ++ (c ∷ l)) ≡ some l
unfolding behind Without
first_behind c [] l w = ground arith
first_behind c (x ∷ p) l (ne, w) = ground (arith, ne, first_behind c p l w)

first_before : (c : ℕ) (p l : List ℕ) → Without c p → before c (p ++ (c ∷ l)) ≡ some p
unfolding before Without
first_before c [] l w = ground arith
first_before c (x ∷ p) l (ne, w) = ground (arith, ne, first_before c p l w)

no_brace : (c : ℕ) (l : List ℕ) → Without c l → behind c l ≡ none
unfolding behind Without
no_brace c [] w = refl
no_brace c (x ∷ l) (ne, w) = ground (arith, ne, no_brace c l w)

-- Of a key with a brace { and a later brace } with something in between, only what stands between
-- the first { and the } after it decides the slot; of a key without { the whole key does; and every
-- slot is in the table. It is asked that the part before has no {, the part between no }, and the
-- whole key no {.
pub key_hash_slot_lem :
    (crc16 : List ℕ → ℕ) (front tag rest whole : List ℕ) (x : ℕ)
    → Without 123 front
    → Without 125 (x ∷ tag)
    → Without 123 whole
    → (key_hash_slot crc16 (front ++ (123 ∷ ((x ∷ tag) ++ (125 ∷ rest))))
        ≡ bit_and (crc16 (x ∷ tag)) 4095)
      × (key_hash_slot crc16 whole ≡ bit_and (crc16 whole) 4095)
      × ((key : List ℕ) → key_hash_slot crc16 key < cluster_slots)
unfolding key_hash_slot hashed_part
key_hash_slot_lem crc16 front tag rest whole x wf wt ww =
    let a = first_behind 123 front ((x ∷ tag) ++ (125 ∷ rest)) wf in
    let b = first_before 125 (x ∷ tag) rest wt in
    (
      ground (arith, a, b),
      ground (arith, no_brace 123 whole ww),
      λ key. omega (arith, bit_and_le (crc16 (hashed_part key)) 4095),
    )
