-- ===== src/Kv/Publish.antt =====
-- The end of `priskv_set_key` (server/kv.c): the node that it fills is the one that a later search
-- finds, and GET answers from it.
use pris_kv.Base.{
  ℕ, ◌+◌, ◌≡◌, ◌≢◌, arith, refl, sym, ap, ◌∙◌, none, some, true, false, List, [], ◌∷◌, ◌++◌, ◌==◌,
  if◌then◌else◌, length, subst,
}
use pris_kv.Base.Time.{Timeval}
use pris_kv.Kv.State.{KeyNode, Kv, lru_access, value_to_pointer, keynode_ref}
use pris_kv.Kv.Find.{
  key_max_timeout, same_bytes, key_matches, key_timeout, find_in, find_key, found_at, touch,
  bucket_of,
}
use pris_kv.Kv.Ops.{ok, get_found, get_key, set_key_end}
use pris_kv.Kv.Evict.{fresh_node, insert_keynode, publish}

same_bytes-same : (l : List ℕ) → same_bytes l l ≡ true
unfolding same_bytes
same_bytes-same [] = refl
same_bytes-same (a ∷ l) = ground (arith, same_bytes-same l)

pub key_matches-own :
    (n : KeyNode) (key : List ℕ) → n.keylen ≡ length key → n.key ≡ key → key_matches n key ≡ true
unfolding key_matches
key_matches-own n key e f = ground (arith, same_bytes-same key, e, f)

-- The last node of a bucket is found where no other node has the key.
find_in-last :
    (node node' : ℕ → KeyNode) (key : List ℕ) (a : ℕ) (l : List ℕ)
    → ((i : ℕ) → i ≢ a → node' i ≡ node i)
    → key_matches (node' a) key ≡ true
    → find_in node key l ≡ none
    → find_in node' key (l ++ (a ∷ [])) ≡ some a
unfolding find_in
find_in-last node node' key a [] same m h = ground arith
find_in-last node node' key a (b ∷ l) same m h =
    ground (arith, same b, find_in-last node node' key a l same m)

-- The node is in the store under its key.
pub record Holds (crc32 : List ℕ → ℕ) (kv : Kv) (key : List ℕ) (a : ℕ) (n : KeyNode) : Type 0 where
  pub found : find_in kv.node key (kv.buckets (bucket_of crc32 kv key)) ≡ some a
  pub content : kv.node a ≡ n

module _ (crc32 : List ℕ → ℕ) where
  publish_node :
      (kv : Kv) (now : Timeval) (key : List ℕ) (a vaddr valuelen timeout : ℕ) (i : ℕ)
      → ((set_key_end (publish crc32 kv now key a vaddr valuelen timeout) (some a)).node i) ≡ (
          if a == i
          then record (fresh_node kv now key vaddr valuelen timeout) {
            refcnt = 1;
            inprocess = false;
          }
          else kv.node i)
  unfolding set_key_end publish insert_keynode lru_access keynode_ref fresh_node
  publish_node kv now key a vaddr valuelen timeout i = ground arith

  publish_bucket :
      (kv : Kv) (now : Timeval) (key : List ℕ) (a vaddr valuelen timeout : ℕ)
      → let kv' = set_key_end (publish crc32 kv now key a vaddr valuelen timeout) (some a) in
        kv'.buckets (bucket_of crc32 kv' key) ≡ kv.buckets (bucket_of crc32 kv key) ++ (a ∷ [])
  unfolding set_key_end publish insert_keynode lru_access keynode_ref bucket_of fresh_node
  publish_bucket kv now key a vaddr valuelen timeout = ground arith

  pub publish-Holds :
      (kv : Kv) (now : Timeval) (key : List ℕ) (a vaddr valuelen timeout : ℕ)
      → find_in kv.node key (kv.buckets (bucket_of crc32 kv key)) ≡ none
      → Holds crc32
          (set_key_end (publish crc32 kv now key a vaddr valuelen timeout) (some a))
          key
          a
          (record (fresh_node kv now key vaddr valuelen timeout) { refcnt = 1; inprocess = false })
  unfolding fresh_node
  publish-Holds kv now key a vaddr valuelen timeout h =
      let kv' = set_key_end (publish crc32 kv now key a vaddr valuelen timeout) (some a) in
      let n : KeyNode = record (fresh_node kv now key vaddr valuelen timeout) {
        refcnt = 1;
        inprocess = false;
      } in
      let at = publish_node kv now key a vaddr valuelen timeout in
      let content : kv'.node a ≡ n = ground (arith, at a) in
      record {
        found =
            subst (λ l. find_in kv'.node key l ≡ some a)
              (sym (publish_bucket kv now key a vaddr valuelen timeout))
              (find_in-last kv.node kv'.node key a (kv.buckets (bucket_of crc32 kv key))
                (λ i ne. ground (arith, at i, ne))
                (subst (λ m. key_matches m key ≡ true) (sym content)
                  (key_matches-own n key refl refl))
                h);
        content = content;
      }

  found_live :
      (kv : Kv) (now : Timeval) (key : List ℕ) (a : ℕ)
      → find_in kv.node key (kv.buckets (bucket_of crc32 kv key)) ≡ some a
      → key_timeout (kv.node a) now ≡ false
      → find_key crc32 kv now key key_max_timeout false
        ≡ record { kv = keynode_ref kv a; keynode = some a; expired = false }
  unfolding find_key found_at touch
  found_live kv now key a f t = ground (arith, f, t)

  get_key_at :
      (kv k : Kv) (now : Timeval) (key : List ℕ) (a : ℕ)
      → find_key crc32 kv now key key_max_timeout false
        ≡ record { kv = k; keynode = some a; expired = false }
      → get_key crc32 kv now key ≡ some (get_found k a)
  unfolding get_key
  get_key_at kv k now key a e = ground (arith, e)

  get_found_whole :
      (kv : Kv) (a : ℕ) (n : KeyNode)
      → kv.node a ≡ n
      → n.inprocess ≡ false
      → get_found (keynode_ref kv a) a ≡ (
        lru_access (keynode_ref kv a) a true,
        record {
          status = ok;
          keynode = some a;
          value = some (kv.value_base + n.value_off, n.valuelen);
        },
      )
  unfolding get_found keynode_ref value_to_pointer
  get_found_whole kv a n e i = ground arith

  -- GET of a key whose node is in the store, whole and not expired.
  pub get_key-Holds :
      (kv : Kv) (now : Timeval) (key : List ℕ) (a : ℕ) (n : KeyNode)
      → Holds crc32 kv key a n
      → n.inprocess ≡ false
      → key_timeout n now ≡ false
      → get_key crc32 kv now key
        ≡ some (
          lru_access (keynode_ref kv a) a true,
          record {
            status = ok;
            keynode = some a;
            value = some (kv.value_base + n.value_off, n.valuelen);
          },
        )
  get_key-Holds kv now key a n q i t =
      get_key_at kv (keynode_ref kv a) now key a
        (found_live kv now key a q.found (subst (λ m. key_timeout m now ≡ false) (sym q.content) t))
      ∙ ap some (get_found_whole kv a n q.content i)
