-- ===== src/Kv/Find.antt =====
-- The search for a key in its bucket: `priskv_find_key` of server/kv.c. The hash of a key,
-- server/crc.c `priskv_crc32`, is an argument: what follows holds for every hash.
use pris_kv.Base.{
  ℕ, ◌%◌, Option, none, some, Bool, true, false, List, [], ◌∷◌, ltb, ◌==◌, if◌then◌else◌, length,
  ◌≡◌, refl, arith,
}
use pris_kv.Base.Time.{Timeval, elapsed_ms, add_ms, is_positive}
use pris_kv.Kv.State.{KeyNode, Kv, store, set_node, list_del, keynode_ref}

-- `PRISKV_KEY_MAX_TIMEOUT`
abbrev pub key_max_timeout : ℕ
key_max_timeout = 18446744073709551615

-- `!memcmp(a, b, n)`, for lists of the same length
unfoldable pub same_bytes : List ℕ → List ℕ → Bool
same_bytes [] [] = true
same_bytes [] (b ∷ bs) = false
same_bytes (a ∷ as') [] = false
same_bytes (a ∷ as') (b ∷ bs) = if a == b then same_bytes as' bs else false

pub same_bytes→≡ : (a b : List ℕ) → same_bytes a b ≡ true → a ≡ b
unfolding same_bytes
same_bytes→≡ [] [] h = refl
same_bytes→≡ [] (y ∷ b) h = absurd (cc h)
same_bytes→≡ (x ∷ a) [] h = absurd (cc h)
same_bytes→≡ (x ∷ a) (y ∷ b) h = ground (arith, same_bytes→≡ a b, h)

pub same_bytes_refl : (a : List ℕ) → same_bytes a a ≡ true
unfolding same_bytes
same_bytes_refl [] = refl
same_bytes_refl (x ∷ a) = ground (arith, same_bytes_refl a)

-- `priskv_key_timeout`
unfoldable pub key_timeout : KeyNode → Timeval → Bool
key_timeout n now = elim n.expire_time [ none ↦ false | some t ↦ is_positive (elapsed_ms t now) ]

unfoldable pub key_matches : KeyNode → List ℕ → Bool
key_matches n key = if n.keylen == length key then same_bytes n.key key else false

-- The loop of `priskv_find_key`, as far as the node with the key.
unfoldable pub find_in : (ℕ → KeyNode) → List ℕ → List ℕ → Option ℕ
find_in node key [] = none
find_in node key (a ∷ l) = if key_matches (node a) key then some a else find_in node key l

-- What `priskv_find_key` returns, and what it writes through `expired`.
pub record Found : Type 0 where
  pub kv : Kv
  pub keynode : Option ℕ
  pub expired : Bool

unfoldable pub unlink : Kv → ℕ → ℕ → Kv
unlink kv bucket keynode = record kv {
  buckets = store kv.buckets bucket (list_del keynode (kv.buckets bucket));
}

-- The `timeout` of EXPIRE is written; all others are `key_max_timeout`.
unfoldable pub touch : Kv → Timeval → ℕ → ℕ → Kv
touch kv now keynode timeout =
    let n = kv.node keynode in
    if ltb timeout key_max_timeout
    then set_node kv keynode (record n { expire_time = some (add_ms now timeout) })
    else kv

module _ (crc32 : List ℕ → ℕ) where
  unfoldable pub bucket_of : Kv → List ℕ → ℕ
  bucket_of kv key = crc32 key % kv.bucket_count

  -- The body of the loop at the node with the key.
  unfoldable pub found_at : Kv → Timeval → List ℕ → ℕ → Bool → ℕ → Found
  found_at kv now key timeout pop a =
      if pop
      then record { kv = unlink kv (bucket_of kv key) a; keynode = some a; expired = false }
      else if key_timeout (kv.node a) now
      then record { kv = unlink kv (bucket_of kv key) a; keynode = some a; expired = true }
      else record { kv = keynode_ref (touch kv now a timeout) a; keynode = some a; expired = false }

  -- `priskv_find_key`
  unfoldable pub find_key : Kv → Timeval → List ℕ → ℕ → Bool → Found
  find_key kv now key timeout pop = elim (find_in kv.node key (kv.buckets (bucket_of kv key))) [
    | none ↦ record { kv = kv; keynode = none; expired = false }
    | some a ↦ found_at kv now key timeout pop a
  ]
