-- ===== src/Buddy/Tests.antt =====
-- server/buddy.c on small allocators, and the theorems about it at them.
use pris_kv.Base.{ℕ, suc, ◌<◌, ◌≡◌, ◌⊎◌, inr, arith, none, some, if◌then◌else◌, ◌==◌, refl, ap}
use mathlib.Core.Option
use pris_kv.Base.Pow.{pow2}
use pris_kv.Base.Word.{is_power_of_2, bit_length, clz}
use pris_kv.Buddy.{
  Buddy, create, fill, align_up, roundup_power_of_2, blocks_for, descend, update_parents, take_node,
  alloc, climb, put_node, offset_of, free, larger, store,
}
use pris_kv.Buddy.Node.{Node, root, left, right, depth}
use pris_kv.Buddy.Inv.{Used, Joined}
use pris_kv.Buddy.Blocks.{Fits}
use pris_kv.Buddy.Valid.{IsValid, address}
use pris_kv.Buddy.Alloc.{HandedOut, alloc_lem}
use pris_kv.Buddy.Free.{TakenBack, free_lem}
use pris_kv.Buddy.RoundTrip.{alloc-free}

program : Unit {0}
unfolding create fill align_up is_power_of_2 roundup_power_of_2 clz bit_length blocks_for descend
    update_parents take_node alloc climb put_node offset_of free
program = tt

-- Two blocks of 16 bytes, the first handed out, the second not.
abbrev half : Buddy
half = record { nmemb = 2; inuse = 1; size = 16; base = 4096; meta = λ i. if i == 1 then 0 else 1 }

abbrev both : Buddy
both = record half { inuse = 2; meta = λ i. 0 }

-- The last block, and no room for two in a row.
alloc-half : Option.map (λ r. r.1) (alloc half 10) ≡ some (some 4112)
unfolding program
alloc-half = refl

alloc-half_full : alloc half 17 ≡ some (half, none)
unfolding program
alloc-half_full = refl

inner_root : {i k : ℕ} → Node 1 i (suc k) → (i ≡ 0) × (k ≡ 0)
inner_root d =
    let (m, p, q, r) = depth d in let top : m ≡ 0 = omega arith in omega (arith, ap pow2 top)

half-Joined : {i k : ℕ} → (i ≡ 0) × (k ≡ 0) → Joined half.meta i k
half-Joined e = rw (e.0, e.1) refl

both-Joined : {i k : ℕ} → (i ≡ 0) × (k ≡ 0) → Joined both.meta i k
both-Joined e = rw (e.1) refl

half-IsValid : IsValid 1 half
half-IsValid = record {
  nmemb = refl;
  small = omega arith;
  size = omega arith;
  memory = omega arith;
  shape = record { leaf = λ i d. ground arith; inner = λ i k d. inr (half-Joined (inner_root d)) };
}

both-IsValid : IsValid 1 both
both-IsValid = record {
  nmemb = refl;
  small = omega arith;
  size = omega arith;
  memory = omega arith;
  shape = record { leaf = λ i d. omega arith; inner = λ i k d. inr (both-Joined (inner_root d)) };
}

first : Node 1 1 0
first = left (root refl refl) refl

second : Node 1 2 0
second = right (root refl refl) refl

half-Used : Used 1 half.meta 1 0
half-Used = record { node = first; handed = refl }

alloc_lem_example :
    (j : ℕ) × Fits half 10 j
    × (((alloc half 10 ≡ some (half, none)) × (1 < pow2 j))
        ⊎ ((i : ℕ) × (b' : Buddy) × (alloc half 10 ≡ some (b', some (address half i j)))
            × HandedOut 1 half b' i j))
alloc_lem_example = alloc_lem 10 half-IsValid (omega arith) (omega arith)

free_lem_example : (b' : Buddy) × (free half 4096 ≡ some b') × TakenBack 1 half b' 1 0
free_lem_example = free_lem half-IsValid half-Used

abbrev half_taken : Buddy
half_taken = record half { inuse = 2; meta = update_parents larger 2 1 (store half.meta 2 0) 2 }

alloc-free_example :
    (b'' : Buddy) × (free half_taken 4112 ≡ some b'')
    × IsValid 1 b''
    × ((x k : ℕ) → Node 1 x k → b''.meta x ≡ half.meta x)
    × (b''.inuse ≡ 1)
unfolding program
alloc-free_example = alloc-free 10 half-IsValid (omega arith) (omega arith) (omega arith) refl
