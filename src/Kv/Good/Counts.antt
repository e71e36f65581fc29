-- ===== src/Kv/Good/Counts.antt =====
-- The lists of nodes of server/kv.c by how often a node is on them.
use pris_kv.Base.{
  ℕ, suc, ◌+◌, ◌≤◌, ◌<◌, ◌≡◌, ◌≢◌, ◌∙◌, none, some, true, false, List, [], ◌∷◌, ◌++◌, ◌==◌,
  if◌then◌else◌, arith, refl, sym, ap, subst, inl, inr, Bool-cases, ℕ_discrete, length,
}
use pris_kv.Kv.State.{KeyNode, list_del}
use pris_kv.Kv.Find.{same_bytes, same_bytes→≡, same_bytes_refl, key_matches, find_in}
use pris_kv.Kv.Good.{times}

pub times-list_del : (a : ℕ) (l : List ℕ) → 0 < times a l → suc (times a (list_del a l)) ≡ times a l
unfolding times list_del
times-list_del a [] h = absurd (omega arith)
times-list_del a (b ∷ l) h = ground (arith, times-list_del a l)

pub times-list_del_ne : (a c : ℕ) (l : List ℕ) → a ≢ c → times c (list_del a l) ≡ times c l
unfolding times list_del
times-list_del_ne a c [] ne = refl
times-list_del_ne a c (b ∷ l) ne = ground (arith, times-list_del_ne a c l ne)

pub times-list_del_le : (a c : ℕ) (l : List ℕ) → times c (list_del a l) ≤ times c l
unfolding times list_del
times-list_del_le a c [] = omega arith
times-list_del_le a c (b ∷ l) = ground (arith, times-list_del_le a c l)

pub times-append :
    (a c : ℕ) (l : List ℕ) → times c (l ++ (a ∷ [])) ≡ times c l + (if c == a then 1 else 0)
unfolding times
times-append a c [] = ground arith
times-append a c (b ∷ l) = ground (arith, times-append a c l)

pub key_matches→≡ :
    (m : KeyNode) (key : List ℕ)
    → key_matches m key ≡ true
    → (m.keylen ≡ length key) × (m.key ≡ key)
unfolding key_matches
key_matches→≡ m key h = (ground (arith, h), same_bytes→≡ m.key key (ground (arith, h)))

pub key_matches_self :
    (m : KeyNode) (key : List ℕ) → m.keylen ≡ length m.key → m.key ≡ key → key_matches m key ≡ true
unfolding key_matches
key_matches_self m key h e =
    ground (arith, h, ap length e, ap (same_bytes m.key) (sym e) ∙ same_bytes_refl m.key)

times-cons_self : (b : ℕ) (l : List ℕ) → 0 < times b (b ∷ l)
unfolding times
times-cons_self b l = ground arith

times-cons : (a b : ℕ) (l : List ℕ) → times a l ≤ times a (b ∷ l)
unfolding times
times-cons a b l = ground arith

-- What the search of a bucket finds is on its list and has the key.
pub find_in-some :
    (node : ℕ → KeyNode) (key : List ℕ) (l : List ℕ) {a : ℕ}
    → find_in node key l ≡ some a
    → (0 < times a l) × ((node a).key ≡ key)
unfolding find_in times
find_in-some node key [] h = absurd (cc h)
find_in-some node key (b ∷ l) {a} h = elim (Bool-cases (key_matches (node b) key)) [
  | inl e ↦
      let same : b ≡ a = ground (arith, e, h) in
      (
        subst (λ x. 0 < times x (b ∷ l)) same (times-cons_self b l),
        ap (λ x. (node x).key) (sym same) ∙ (key_matches→≡ (node b) key e).1,
      )
  | inr e ↦
      let (lt, same) = find_in-some node key l {a = a} (ground (arith, e, h)) in
      (omega (arith, lt, times-cons a b l), same)
]

-- Where it finds nothing, no node of the list has the key.
pub find_in-none :
    (node : ℕ → KeyNode) (key : List ℕ) (l : List ℕ) (c : ℕ)
    → find_in node key l ≡ none
    → 0 < times c l
    → key_matches (node c) key ≡ false
unfolding find_in times
find_in-none node key [] c h lt = absurd (omega arith)
find_in-none node key (b ∷ l) c h lt = elim (ℕ_discrete c b) [
  | yes e ↦ ap (λ x. key_matches (node x) key) e ∙ ground (arith, h)
  | no ne ↦ find_in-none node key l c (ground (arith, h)) (ground (arith, lt, ne))
]

-- A list none of whose nodes has the key.
pub find_in_absent :
    (node : ℕ → KeyNode) (key : List ℕ) (l : List ℕ)
    → ((c : ℕ) → 0 < times c l → key_matches (node c) key ≡ false)
    → find_in node key l ≡ none
unfolding find_in times
find_in_absent node key [] h = refl
find_in_absent node key (b ∷ l) h =
    let first = h b (times-cons_self b l) in
    let rest = find_in_absent node key l (λ c lt. h c (omega (arith, lt, times-cons c b l))) in
    ground (arith, first, rest)
