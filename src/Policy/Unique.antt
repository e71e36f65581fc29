-- ===== src/Policy/Unique.antt =====
-- The list of server/backend/policy_lru.c holds each key at most once, whatever operation comes.
use mathlib.Core.List.{reverse, reverse-cons}
use pris_kv.Base.{
  ℕ, ◌+◌, ◌≤◌, ◌≡◌, arith, refl, sym, ap, ◌∙◌, none, some, true, List, [], ◌∷◌, ◌++◌, ◌==◌,
  Bool-cases, Option-cases, if◌then◌else◌, inl, inr, subst,
}
use pris_kv.Kv.Find.{same_bytes}
use pris_kv.Policy.{
  LruNode, Lru, hash_find, remove, lru_policy_access, lru_policy_evict, lru_policy_del_key,
  lru_policy_try_ref_key, unref_in, lru_policy_unref_key,
}
use pris_kv.Policy.Evict.{lru_policy_evict_lem}

-- How many nodes have the key.
abbrev pub count : List ℕ → Lru → ℕ
count key [] = 0
count key (n ∷ nodes) = (if same_bytes n.key key then 1 else 0) + count key nodes

abbrev pub Unique : Lru → Type 0
Unique lru = (key : List ℕ) → count key lru ≤ 1

same_bytes→≡ : (a b : List ℕ) → same_bytes a b ≡ true → a ≡ b
unfolding same_bytes
same_bytes→≡ [] [] e = refl
same_bytes→≡ [] (y ∷ b) e = absurd (ground (arith, e))
same_bytes→≡ (x ∷ a) [] e = absurd (ground (arith, e))
same_bytes→≡ (x ∷ a) (y ∷ b) e = elim (Bool-cases (x == y)) [
  | inl t ↦
      let h : x ≡ y = ground (arith, t) in
      let r : a ≡ b = same_bytes→≡ a b (ground (arith, e, t)) in
      ap (λ z. z ∷ a) h ∙ ap (λ z. y ∷ z) r
  | inr f ↦ absurd (ground (arith, e, f))
]

count-append : (key : List ℕ) (l m : Lru) → count key (l ++ m) ≡ count key l + count key m
count-append key [] m = omega arith
count-append key (n ∷ l) m = omega (arith, count-append key l m)

count-reverse : (key : List ℕ) (l : Lru) → count key (reverse l) ≡ count key l
count-reverse key [] = refl
count-reverse key (n ∷ l) =
    ap (count key) (reverse-cons n l)
    ∙ (count-append key (reverse l) (n ∷ []) ∙ omega (arith, count-reverse key l))

count-hash_find : (key : List ℕ) (l : Lru) → hash_find l key ≡ none → count key l ≡ 0
unfolding hash_find
count-hash_find key [] e = refl
count-hash_find key (n ∷ l) e = ground (arith, e, count-hash_find key l)

hash_find-count : (key : List ℕ) (l : Lru) → count key l ≡ 0 → hash_find l key ≡ none
unfolding hash_find
hash_find-count key [] e = refl
hash_find-count key (n ∷ l) e = ground (arith, e, hash_find-count key l)

-- To take a node out and put it in front changes no number.
count-remove :
    (k key : List ℕ) (l : Lru) (n : LruNode)
    → hash_find l key ≡ some n
    → (if same_bytes n.key k then 1 else 0) + count k (remove l key) ≡ count k l
unfolding hash_find remove
count-remove k key [] n e = absurd (ground (arith, e))
count-remove k key (m ∷ l) n e = elim (Bool-cases (same_bytes m.key key)) [
  | inl t ↦ let h : m ≡ n = ground (arith, e, t) in ground (arith, t, h)
  | inr f ↦
      let ih = count-remove k key l n (ground (arith, e, f)) in
      let s : remove (m ∷ l) key ≡ m ∷ remove l key = ground (arith, f) in
      rw (s) (omega (arith, ih))
]

count-unref_in : (k key : List ℕ) (l : Lru) → count k (unref_in l key) ≡ count k l
unfolding unref_in
count-unref_in k key [] = refl
count-unref_in k key (m ∷ l) = ground (arith, count-unref_in k key l)

pub access-Unique : (lru : Lru) (key : List ℕ) → Unique lru → Unique (lru_policy_access lru key)
unfolding lru_policy_access
access-Unique lru key u k = elim (Option-cases (hash_find lru key)) [
  | inl e ↦
      let z = count-hash_find key lru e in
      rw (e, lru_policy_access)
        (elim (Bool-cases (same_bytes key k)) [
          | inl t ↦
              let z' : count k lru ≡ 0 = subst (λ x. count x lru ≡ 0) (same_bytes→≡ key k t) z in
              ground (arith, t, z')
          | inr f ↦ ground (arith, f, u k)
        ])
  | inr (n, e) ↦ rw (e, lru_policy_access) (omega (arith, count-remove k key lru n e, u k))
]

del_key-Unique : (lru : Lru) (key : List ℕ) → Unique lru → Unique (lru_policy_del_key lru key)
unfolding lru_policy_del_key
del_key-Unique lru key u k = elim (Option-cases (hash_find lru key)) [
  | inl e ↦ rw (e, lru_policy_del_key) (u k)
  | inr (n, e) ↦ rw (e, lru_policy_del_key) (omega (arith, count-remove k key lru n e, u k))
]

try_ref_key-Unique :
    (lru : Lru) (key : List ℕ) → Unique lru → Unique (lru_policy_try_ref_key lru key).0
unfolding lru_policy_try_ref_key
try_ref_key-Unique lru key u k = elim (Option-cases (hash_find lru key)) [
  | inl e ↦ rw (e, lru_policy_try_ref_key) (u k)
  | inr (n, e) ↦ rw (e, lru_policy_try_ref_key) (omega (arith, count-remove k key lru n e, u k))
]

unref_key-Unique : (lru : Lru) (key : List ℕ) → Unique lru → Unique (lru_policy_unref_key lru key)
unfolding lru_policy_unref_key
unref_key-Unique lru key u k = ground (arith, u k, count-unref_in k key lru)

evict-Unique : (lru : Lru) → Unique lru → Unique (lru_policy_evict lru).0
evict-Unique lru u k = elim (lru_policy_evict_lem lru) [
  | inr (front, back, q, e) ↦ subst (λ x. count k x.0 ≤ 1) (sym e) (u k)
  | inl (front, n, back, lru', q, e, r) ↦
      let whole =
        sym (count-reverse k lru) ∙ (ap (count k) q.whole ∙ count-append k front (n ∷ back)) in
      let left = sym (count-reverse k lru') ∙ (ap (count k) r ∙ count-append k front back) in
      subst (λ x. count k x.0 ≤ 1) (sym e) (omega (arith, whole, left, u k))
]

-- A list that holds each key at most once does so after every operation.
pub Unique-kept :
    (lru : Lru) (key : List ℕ)
    → Unique lru
    → Unique (lru_policy_access lru key)
      × Unique (lru_policy_evict lru).0
      × Unique (lru_policy_del_key lru key)
      × Unique (lru_policy_try_ref_key lru key).0
      × Unique (lru_policy_unref_key lru key)
Unique-kept lru key u = (
  access-Unique lru key u,
  evict-Unique lru u,
  del_key-Unique lru key u,
  try_ref_key-Unique lru key u,
  unref_key-Unique lru key u,
)
