-- ===== src/Kv/Shrink.antt =====
-- What the steps of server/kv.c that drop nodes leave: no key appears in a bucket by them.
use pris_kv.Base.{
  ℕ, ◌≡◌, ◌≢◌, inl, inr, arith, refl, sym, ◌∙◌, none, some, false, List, [], ◌∷◌, ◌==◌, Bool-cases,
  subst,
}
use pris_kv.Base.Word.{sub_u32}
use pris_kv.Buddy
use pris_kv.Buddy.{Buddy}
use pris_kv.Slab
use pris_kv.Slab.{Slab}
use pris_kv.Kv.State.{
  KeyNode, Kv, zero_node, store, set_node, list_del, lru_del_key, value_to_pointer, release,
  keynode_deref,
}
use pris_kv.Kv.Find.{key_matches, find_in, unlink}
use pris_kv.Kv.Ops.{drop_node}

-- The two records hold the same key.
abbrev pub SameKey : KeyNode → KeyNode → Type 0
SameKey n m = (n.keylen ≡ m.keylen) × (n.key ≡ m.key)

pub key_matches_same :
    (n m : KeyNode) (key : List ℕ) → SameKey n m → key_matches n key ≡ key_matches m key
unfolding key_matches
key_matches_same n m key e = rw (e.0, e.1) refl

pub key_matches-zero : (key : List ℕ) → key ≢ [] → key_matches zero_node key ≡ false
unfolding key_matches
key_matches-zero [] h = absurd (h refl)
key_matches-zero (b ∷ key) h = ground arith

pub find_in-list_del :
    (node : ℕ → KeyNode) (key : List ℕ) (a : ℕ) (l : List ℕ)
    → find_in node key l ≡ none
    → find_in node key (list_del a l) ≡ none
unfolding find_in list_del
find_in-list_del node key a [] h = refl
find_in-list_del node key a (b ∷ l) h = ground (arith, find_in-list_del node key a l)

pub find_in-store_same :
    (node : ℕ → KeyNode) (key : List ℕ) (a : ℕ) (n : KeyNode) (l : List ℕ)
    → SameKey n (node a)
    → find_in (store node a n) key l ≡ find_in node key l
unfolding find_in
find_in-store_same node key a n [] e = refl
find_in-store_same node key a n (b ∷ l) e =
    ground (arith, find_in-store_same node key a n l e, key_matches_same n (node a) key e)

pub find_in-store_other :
    (node : ℕ → KeyNode) (key : List ℕ) (a : ℕ) (n : KeyNode) (l : List ℕ)
    → key_matches n key ≡ false
    → find_in node key l ≡ none
    → find_in (store node a n) key l ≡ none
unfolding find_in
find_in-store_other node key a n [] m h = refl
find_in-store_other node key a n (b ∷ l) m h = ground (arith, find_in-store_other node key a n l m)

-- No key comes into a bucket, and the memory of the values stays where it is.
pub record Shrinks (kv kv' : Kv) : Type 0 where
  pub absent :
      (key : List ℕ) (b : ℕ)
      → key ≢ []
      → find_in kv.node key (kv.buckets b) ≡ none
      → find_in kv'.node key (kv'.buckets b) ≡ none
  pub count : kv'.bucket_count ≡ kv.bucket_count
  pub base : kv'.value_base ≡ kv.value_base
  pub buddy : kv'.value_buddy.base ≡ kv.value_buddy.base

pub Shrinks-refl : (kv : Kv) → Shrinks kv kv
Shrinks-refl kv = record { absent = λ key b ne h. h; count = refl; base = refl; buddy = refl }

pub Shrinks-trans : {k l m : Kv} → Shrinks k l → Shrinks l m → Shrinks k m
Shrinks-trans p q = record {
  absent = λ key b ne h. q.absent key b ne (p.absent key b ne h);
  count = q.count ∙ p.count;
  base = q.base ∙ p.base;
  buddy = q.buddy ∙ p.buddy;
}

free-base : (b : Buddy) (addr : ℕ) {b' : Buddy} → Buddy.free b addr ≡ some b' → b'.base ≡ b.base
unfolding Buddy.free Buddy.put_node
free-base b addr h = ground arith

pub release_inv :
    (kv : Kv) (a : ℕ) {kv' : Kv}
    → release kv a ≡ some kv'
    → (buddy : Buddy) × (slab : Slab) × (Buddy.free kv.value_buddy (value_to_pointer kv a)
        ≡ some buddy)
      × (Slab.free kv.key_slab a ≡ some slab)
      × (kv' ≡ record kv { value_buddy = buddy; key_slab = slab; node = store kv.node a zero_node })
unfolding release
release_inv kv a h = ground arith

set_node-Shrinks :
    (kv : Kv) (a : ℕ) (n : KeyNode) → SameKey n (kv.node a) → Shrinks kv (set_node kv a n)
set_node-Shrinks kv a n e = record {
  absent = λ key b ne h. find_in-store_same kv.node key a n (kv.buckets b) e ∙ h;
  count = refl;
  base = refl;
  buddy = refl;
}

pub release-Shrinks : (kv : Kv) (a : ℕ) {kv' : Kv} → release kv a ≡ some kv' → Shrinks kv kv'
release-Shrinks kv a h =
    let (buddy, slab, fb, fs, e) = release_inv kv a h in
    subst (λ k. Shrinks kv k) (sym e)
      (record {
        absent = λ key b ne no.
            find_in-store_other kv.node key a zero_node (kv.buckets b) (key_matches-zero key ne) no;
        count = refl;
        base = refl;
        buddy = free-base kv.value_buddy (value_to_pointer kv a) fb;
      })

pub keynode_deref-Shrinks :
    (kv : Kv) (a : ℕ) {kv' : Kv} → keynode_deref kv a ≡ some kv' → Shrinks kv kv'
unfolding keynode_deref
keynode_deref-Shrinks kv a {kv'} h =
    let n : KeyNode = kv.node a in
    let m : KeyNode = record n { refcnt = sub_u32 n.refcnt 1 } in
    let first = set_node-Shrinks kv a m (refl, refl) in
    elim (Bool-cases (sub_u32 n.refcnt 1 == 0)) [
      | inl t ↦ Shrinks-trans first (release-Shrinks (set_node kv a m) a (ground (arith, h, t)))
      | inr f ↦ subst (λ k. Shrinks kv k) (ground (arith, h, f)) first
    ]

lru_del_key-Shrinks : (kv : Kv) (a : ℕ) → Shrinks kv (lru_del_key kv a)
unfolding lru_del_key
lru_del_key-Shrinks kv a = record {
  absent = λ key b ne h. h;
  count = refl;
  base = refl;
  buddy = refl;
}

pub drop_node-Shrinks : (kv : Kv) (a : ℕ) {kv' : Kv} → drop_node kv a ≡ some kv' → Shrinks kv kv'
unfolding drop_node
drop_node-Shrinks kv a h =
    Shrinks-trans (lru_del_key-Shrinks kv a) (keynode_deref-Shrinks (lru_del_key kv a) a h)

pub unlink-Shrinks : (kv : Kv) (b a : ℕ) → Shrinks kv (unlink kv b a)
unfolding unlink
unlink-Shrinks kv b a = record {
  absent = λ key i ne h. ground (arith, h, find_in-list_del kv.node key a (kv.buckets b));
  count = refl;
  base = refl;
  buddy = refl;
}
