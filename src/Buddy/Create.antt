-- ===== src/Buddy/Create.antt =====
-- What `priskv_buddy_create` sets up: every block free.
use pris_kv.Base.{
  ℕ, zero, suc, ◌+◌, ◌-◌, ◌*◌, ◌/◌, ◌≤◌, ◌<◌, ◌≡◌, ◌⊎◌, inl, inr, arith, some, true, false,
  if◌then◌else◌, ◌==◌, ℕ_discrete, subst, sym, refl, ap, ◌∙◌, Bool-cases,
}
use pris_kv.Base.Word.{u32, sub_u32, is_power_of_2}
use pris_kv.Base.Pow.{pow2, pow2_pos, pow2_mono, pow2_lt}
use pris_kv.Buddy.{Buddy, Meta, store, fill, create}
use pris_kv.Buddy.Node.{Node, left, right, depth, index-lt}
use pris_kv.Buddy.Inv.{Shape, Used, Handed-zero}
use pris_kv.Buddy.Blocks.{is_power_of_2-pow2, pow2_of_is_power_of_2}
use pris_kv.Buddy.Valid.{IsValid}

-- `nodes` is the size of the nodes on the level of index `x - 1`.
record Level (n x nodes : ℕ) : Type 0 where
  d : ℕ
  k : ℕ
  total : d + k ≡ n
  from : pow2 d ≤ x
  to : x < pow2 (suc d)
  size : nodes ≡ pow2 k

abbrev Before : ℕ → ℕ → ℕ → Type 0
Before n i nodes = ((i ≡ 0) × (nodes ≡ pow2 (suc n))) ⊎ Level n i nodes

next_nodes : ℕ → ℕ → ℕ
next_nodes i nodes = if is_power_of_2 (u32 (i + 1)) then nodes / 2 else nodes

Level-half :
    (n i d k d' : ℕ)
    → d + k ≡ n
    → pow2 d ≤ i
    → i < pow2 (suc d)
    → i + 1 ≡ pow2 d'
    → i + 1 < pow2 (suc n)
    → Level n (i + 1) (pow2 k / 2)
Level-half n i d zero d' t lo hi e lt =
    let a : d < d' = pow2_lt d d' (omega arith) in
    let b : d' < suc n = pow2_lt d' (suc n) (omega arith) in absurd (omega arith)
Level-half n i d (suc k) d' t lo hi e lt =
    let a : d < d' = pow2_lt d d' (omega arith) in
    record {
      d = suc d;
      k = k;
      total = omega arith;
      from = omega (arith, pow2_mono (suc d) d' (omega arith));
      to = omega (arith, pow2_pos d);
      size = omega arith;
    }

Level-keep :
    (n i nodes : ℕ)
    → Level n i nodes
    → i + 1 < 4294967296
    → is_power_of_2 (i + 1) ≡ false
    → Level n (i + 1) nodes
Level-keep n i nodes l h e = elim (ℕ_discrete (i + 1) (pow2 (suc l.d))) [
  | yes is ↦
      let power = is_power_of_2-pow2 (suc l.d) (omega arith) in
      absurd (cc (subst (λ z. is_power_of_2 z ≡ true) (sym is) power, e))
  | no ne ↦ record {
    d = l.d;
    k = l.k;
    total = l.total;
    from = omega (arith, l.from);
    to = omega (arith, l.to);
    size = l.size;
  }
]

-- A round leaves `nodes` at the size of the level that it writes.
Level-next :
    (n i nodes : ℕ)
    → pow2 n ≤ 1073741824
    → Before n i nodes
    → i + 1 < pow2 (suc n)
    → Level n (i + 1) (next_nodes i nodes)
unfolding next_nodes
Level-next n i nodes small before lt =
    let word : u32 (i + 1) ≡ i + 1 = omega arith in
    rw (word, next_nodes)
      (elim (Bool-cases (is_power_of_2 (i + 1))) [
        | inl e ↦
            rw (e, next_nodes)
              (elim before [
                | inl (z, top) ↦ record {
                  d = 0;
                  k = n;
                  total = omega arith;
                  from = omega arith;
                  to = omega arith;
                  size = omega arith;
                }
                | inr l ↦
                    let (d', is) = pow2_of_is_power_of_2 (i + 1) (omega arith) (omega arith) e in
                    rw (l.size) (Level-half n i l.d l.k d' l.total l.from l.to is lt)
              ])
        | inr e ↦
            rw (e, next_nodes)
              (elim before [
                | inl (z, top) ↦
                    let one : i + 1 ≡ pow2 0 = omega arith in
                    absurd (
                      cc (
                        subst (λ z. is_power_of_2 z ≡ true) (sym one)
                            (is_power_of_2-pow2 0 (omega arith)),
                        e,
                      ))
                | inr l ↦ Level-keep n i nodes l (omega arith) e
              ])
      ])

fill_old : (rounds i nodes x : ℕ) (m : Meta) → x < i → fill rounds i nodes m x ≡ m x
unfolding fill
fill_old zero i nodes x m lt = refl
fill_old (suc rounds) i nodes x m lt =
    let nodes' = next_nodes i nodes in fill_old rounds (i + 1) _ x _ (omega arith) ∙ ground arith

-- The loop writes at each index the size of its level.
fill_lem :
    (n rounds i nodes x : ℕ) (m : Meta)
    → pow2 n ≤ 1073741824
    → Before n i nodes
    → i + rounds < pow2 (suc n)
    → i ≤ x
    → x < i + rounds
    → Level n (x + 1) (fill rounds i nodes m x)
unfolding fill next_nodes
fill_lem n zero i nodes x m small before top lo hi = absurd (omega arith)
fill_lem n (suc rounds) i nodes x m small before top lo hi =
    let here = Level-next n i nodes small before (omega arith) in
    elim (ℕ_discrete i x) [
      | yes e ↦
          let written : fill rounds (i + 1) (next_nodes i nodes) (store m i (next_nodes i nodes)) x
              ≡ next_nodes i nodes =
            fill_old rounds (i + 1) (next_nodes i nodes) x _ (omega arith) ∙ ground arith in
          subst (λ z. Level n (x + 1) z) (sym written)
            (subst (λ z. Level n (z + 1) (next_nodes i nodes)) e here)
      | no ne ↦
          fill_lem n rounds (i + 1) (next_nodes i nodes) x _ small (inr here) (omega arith)
            (omega arith) (omega arith)
    ]

Level-Node : {n x k s : ℕ} → Node n x k → Level n (x + 1) s → s ≡ pow2 k
Level-Node {n} {x} {k} node l =
    let (d, t, lo, hi) = depth node in
    let a : d < suc l.d = pow2_lt d (suc l.d) (omega (arith, l.to)) in
    let b : l.d < suc d = pow2_lt l.d (suc d) (omega (arith, l.from)) in
    l.size ∙ ap pow2 (omega (arith, l.total))

Free_all-Shape : {n : ℕ} {m : Meta} → ((x k : ℕ) → Node n x k → m x ≡ pow2 k) → Shape n m
Free_all-Shape free = record {
  leaf = λ i d. omega (arith, free i 0 d);
  inner = λ i k d. inr (
      ground (
        arith,
        free i (suc k) d,
        free (i + i + 1) k (left d refl),
        free (i + i + 2) k (right d refl),
      ));
}

-- The allocator that `priskv_buddy_create` makes of 2^n blocks.
abbrev pub created : ℕ → ℕ → ℕ → Meta → Buddy
created n base size memory = record {
  nmemb = pow2 n;
  inuse = 0;
  size = size;
  base = base;
  meta = fill (sub_u32 (u32 (pow2 n * 2)) 1) 0 (u32 (pow2 n * 2)) memory;
}

created-free :
    (n base size : ℕ) (memory : Meta)
    → pow2 n ≤ 1073741824
    → (x k : ℕ) → Node n x k
    → (created n base size memory).meta x ≡ pow2 k
created-free n base size memory small x k d =
    let rounds : sub_u32 (u32 (pow2 n * 2)) 1 ≡ pow2 n + pow2 n - 1 = omega (arith, pow2_pos n) in
    let top : u32 (pow2 n * 2) ≡ pow2 (suc n) = omega arith in
    Level-Node d (
      fill_lem n _ 0 _ x memory small (inl (refl, top)) (omega (arith, pow2_pos n)) (omega arith)
        (omega (arith, index-lt d)))

pub created-IsValid :
    (n base size : ℕ) (memory : Meta)
    → pow2 n ≤ 1073741824
    → 0 < size
    → base + pow2 n * size < 18446744073709551616
    → IsValid n (created n base size memory)
created-IsValid n base size memory small pos fits = record {
  nmemb = refl;
  small = small;
  size = pos;
  memory = fits;
  shape = Free_all-Shape (created-free n base size memory small);
}

-- `priskv_buddy_create` with 2^n blocks, n at most 30, at a base other than NULL makes a
-- well-formed allocator in which every node is free as a whole, nothing is handed out, and `inuse`
-- is 0, where the memory ends inside the address space and `calloc` succeeds.
pub create_lem :
    (n base size : ℕ) (memory : Meta)
    → pow2 n ≤ 1073741824
    → 0 < base
    → 0 < size
    → base + pow2 n * size < 18446744073709551616
    → (b : Buddy) × (create true memory base (pow2 n) size ≡ some b)
      × IsValid n b
      × (b.inuse ≡ 0)
      × ((x k : ℕ) → Node n x k → b.meta x ≡ pow2 k)
      × ((x k : ℕ) → ¬ Used n b.meta x k)
unfolding create
create_lem n base size memory small pos pos' fits =
    let b = created n base size memory in
    let free = created-free n base size memory small in
    let test : (base == 0) ≡ false = ground arith in
    let power = is_power_of_2-pow2 n (omega arith) in
    (
      b,
      rw (test, power) refl,
      created-IsValid n base size memory small pos' fits,
      refl,
      free,
      λ x k u. omega (arith, free x k u.node, Handed-zero b.meta x k u.handed, pow2_pos k),
    )
