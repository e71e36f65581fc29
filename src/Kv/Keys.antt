-- ===== src/Kv/Keys.antt =====
-- What KEYS answers: `priskv_get_keys` of server/kv.c against the list of the nodes whose keys
-- match.
use pris_kv.Base.{
  ℕ, zero, suc, ◌+◌, ◌≡◌, ◌≤◌, ◌<◌, inl, inr, arith, refl, sym, ap, ◌∙◌, Option, some, Bool, List,
  [], ◌∷◌, ◌++◌, ltb, if◌then◌else◌, length, Bool-cases,
}
use mathlib.Core.List.{append-nil, append_assoc}
use pris_kv.Base.Word.{u32, u32_mod}
use pris_kv.Kv.State.{KeyNode, Kv}
use pris_kv.Kv.Ops.{ok, value_too_big}
use pris_kv.Kv.Sweep.{
  keys_entry, keys_resp_size, Keys, add_key, keys_bucket, keys_buckets, get_keys,
}

-- The nodes of a bucket whose keys pass the test, and those of all buckets from the `i`-th.
unfoldable pub matching : (List ℕ → Bool) → (ℕ → KeyNode) → List ℕ → List KeyNode
matching test node [] = []
matching test node (a ∷ l) =
    if test (node a).key then node a ∷ matching test node l else matching test node l

unfoldable pub all_matching : (List ℕ → Bool) → Kv → ℕ → ℕ → List KeyNode
all_matching test kv zero i = []
all_matching test kv (suc rounds) i =
    matching test kv.node (kv.buckets i) ++ all_matching test kv rounds (i + 1)

-- The bytes of the reply, and their number.
unfoldable pub reply_bytes : List KeyNode → List ℕ
reply_bytes [] = []
reply_bytes (n ∷ ns) = keys_entry n ++ reply_bytes ns

unfoldable pub reply_size : List KeyNode → ℕ
reply_size [] = 0
reply_size (n ∷ ns) = keys_resp_size + n.keylen + reply_size ns

unfoldable add_keys : ℕ → Keys → List KeyNode → Keys
add_keys keyslen k [] = k
add_keys keyslen k (n ∷ ns) = add_keys keyslen (add_key keyslen k n) ns

add_keys-append :
    (keyslen : ℕ) (k : Keys) (ns ms : List KeyNode)
    → add_keys keyslen k (ns ++ ms) ≡ add_keys keyslen (add_keys keyslen k ns) ms
unfolding add_keys
add_keys-append keyslen k [] ms = refl
add_keys-append keyslen k (n ∷ ns) ms = add_keys-append keyslen (add_key keyslen k n) ns ms

keys_bucket_lem :
    (test : List ℕ → Bool) (node : ℕ → KeyNode) (keyslen : ℕ) (k : Keys) (l : List ℕ)
    → keys_bucket test node keyslen k l ≡ add_keys keyslen k (matching test node l)
unfolding keys_bucket matching add_keys
keys_bucket_lem test node keyslen k [] = refl
keys_bucket_lem test node keyslen k (a ∷ l) = elim (Bool-cases (test (node a).key)) [
  | inl t ↦ rw (t) (keys_bucket_lem test node keyslen (add_key keyslen k (node a)) l)
  | inr f ↦ rw (f) (keys_bucket_lem test node keyslen k l)
]

keys_buckets_lem :
    (test : List ℕ → Bool) (kv : Kv) (keyslen rounds i : ℕ) (k : Keys)
    → keys_buckets test kv keyslen rounds i k ≡ add_keys keyslen k (all_matching test kv rounds i)
unfolding keys_buckets all_matching add_keys
keys_buckets_lem test kv keyslen zero i k = refl
keys_buckets_lem test kv keyslen (suc rounds) i k =
    keys_buckets_lem test kv keyslen rounds (i + 1)
      (keys_bucket test kv.node keyslen k (kv.buckets i))
    ∙ (ap (λ x. add_keys keyslen x (all_matching test kv rounds (i + 1)))
          (keys_bucket_lem test kv.node keyslen k (kv.buckets i))
        ∙ sym (
            add_keys-append keyslen k (matching test kv.node (kv.buckets i))
              (all_matching test kv rounds (i + 1))))

add_keys-reallen :
    (keyslen : ℕ) (k : Keys) (ns : List KeyNode)
    → k.reallen + reply_size ns < u32_mod
    → (add_keys keyslen k ns).reallen ≡ k.reallen + reply_size ns
unfolding add_keys add_key reply_size
add_keys-reallen keyslen k [] h = omega arith
add_keys-reallen keyslen k (n ∷ ns) h =
    let e : u32 (k.reallen + (keys_resp_size + n.keylen))
        ≡ k.reallen + (keys_resp_size + n.keylen) =
      omega (arith, h) in
    add_keys-reallen keyslen (add_key keyslen k n) ns (omega (arith, h, e))
    ∙ (ap (λ x. x + reply_size ns) e ∙ omega arith)

add_key-keysbuf :
    (keyslen : ℕ) (k : Keys) (n : KeyNode)
    → k.reallen + keys_resp_size + n.keylen ≤ keyslen
    → (add_key keyslen k n).keysbuf ≡ k.keysbuf ++ keys_entry n
unfolding add_key
add_key-keysbuf keyslen k n le = ground (arith, le)

add_keys-keysbuf :
    (keyslen : ℕ) (k : Keys) (ns : List KeyNode)
    → k.reallen + reply_size ns < u32_mod
    → k.reallen + reply_size ns ≤ keyslen
    → (add_keys keyslen k ns).keysbuf ≡ k.keysbuf ++ reply_bytes ns
unfolding add_keys add_key reply_size reply_bytes
add_keys-keysbuf keyslen k [] h le = sym (append-nil k.keysbuf)
add_keys-keysbuf keyslen k (n ∷ ns) h le =
    let e : u32 (k.reallen + (keys_resp_size + n.keylen))
        ≡ k.reallen + (keys_resp_size + n.keylen) =
      omega (arith, h) in
    let k' = add_key keyslen k n in
    add_keys-keysbuf keyslen k' ns (omega (arith, h, e)) (omega (arith, le, e))
    ∙ (ap (λ x. x ++ reply_bytes ns) (add_key-keysbuf keyslen k n (omega (arith, le)))
        ∙ append_assoc k.keysbuf (keys_entry n) (reply_bytes ns))

add_keys-nkey :
    (keyslen : ℕ) (k : Keys) (ns : List KeyNode)
    → k.nkey + length ns < u32_mod
    → (add_keys keyslen k ns).nkey ≡ k.nkey + length ns
unfolding add_keys add_key
add_keys-nkey keyslen k [] h = omega arith
add_keys-nkey keyslen k (n ∷ ns) h =
    let e : u32 (k.nkey + 1) ≡ k.nkey + 1 = omega (arith, h) in
    add_keys-nkey keyslen (add_key keyslen k n) ns (omega (arith, h, e))
    ∙ (ap (λ x. x + length ns) e ∙ omega arith)

length-reply_size : (ns : List KeyNode) → length ns ≤ reply_size ns
unfolding reply_size
length-reply_size [] = omega arith
length-reply_size (n ∷ ns) = omega (arith, length-reply_size ns)

-- The nodes that a KEYS with this test is about.
abbrev pub listed : (List ℕ → Bool) → Kv → List KeyNode
listed test kv = all_matching test kv kv.bucket_count 0

get_keys_at :
    (regcomp : List ℕ → Option (List ℕ → Bool)) (test : List ℕ → Bool) (kv : Kv) (regex : List ℕ)
    (keyslen : ℕ)
    → regcomp regex ≡ some test
    → let k =
        keys_buckets test kv keyslen kv.bucket_count 0
          (record { keysbuf = []; reallen = 0; nkey = 0 }) in
      get_keys regcomp kv regex keyslen
      ≡ ((if ltb keyslen k.reallen then value_too_big else ok), some k)
unfolding get_keys
get_keys_at regcomp test kv regex keyslen e = ground (arith, e)

-- KEYS with an expression that compiles, over nodes whose reply takes less than 2^32 bytes: it
-- reports the size of the reply and the number of the keys whether or not they fit; it has the
-- status OK if they fit, and the buffer then holds the entries of all matching keys in the order of
-- the buckets; else it has the status VALUE_TOO_BIG.
pub get_keys_lem :
    (regcomp : List ℕ → Option (List ℕ → Bool)) (test : List ℕ → Bool) (kv : Kv) (regex : List ℕ)
    (keyslen : ℕ)
    → regcomp regex ≡ some test
    → reply_size (listed test kv) < u32_mod
    → (k : Keys) × (get_keys regcomp kv regex keyslen
        ≡ ((if ltb keyslen (reply_size (listed test kv)) then value_too_big else ok), some k))
      × (k.reallen ≡ reply_size (listed test kv))
      × (k.nkey ≡ length (listed test kv))
      × (reply_size (listed test kv) ≤ keyslen → k.keysbuf ≡ reply_bytes (listed test kv))
get_keys_lem regcomp test kv regex keyslen e h =
    let k₀ : Keys = record { keysbuf = []; reallen = 0; nkey = 0 } in
    let k = keys_buckets test kv keyslen kv.bucket_count 0 k₀ in
    let ek : k ≡ add_keys keyslen k₀ (listed test kv) =
      keys_buckets_lem test kv keyslen kv.bucket_count 0 k₀ in
    let er : k.reallen ≡ reply_size (listed test kv) =
      ap (λ x. x.reallen) ek
      ∙ (add_keys-reallen keyslen k₀ (listed test kv) (omega (arith, h)) ∙ omega arith) in
    (
      k,
      get_keys_at regcomp test kv regex keyslen e
          ∙ ap (λ x. ((if ltb keyslen x then value_too_big else ok), some k)) er,
      er,
      ap (λ x. x.nkey) ek
          ∙ (add_keys-nkey keyslen k₀ (listed test kv)
                (omega (arith, h, length-reply_size (listed test kv)))
              ∙ omega arith),
      λ le.
          ap (λ x. x.keysbuf) ek
          ∙ add_keys-keysbuf keyslen k₀ (listed test kv) (omega (arith, h)) (omega (arith, le)),
    )
