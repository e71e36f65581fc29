-- ===== src/Memory/Clear.antt =====
-- What the threads of priskv_mem_clear (server/memory.c) clear.
use native.Mathlib.Nat.{mod-add-div}
use pris_kv.Base.{
  ℕ, zero, suc, ◌+◌, ◌-◌, ◌*◌, ◌/◌, ◌%◌, ◌≤◌, ◌<◌, ◌≡◌, ◌⊎◌, inl, inr, arith, refl, ap, ◌∙◌, dec_lt,
}
use pris_kv.Memory.{Memory, clear, clear_batches, mem_clear}

clear_in : (m : Memory) (addr size i : ℕ) → addr ≤ i → i < addr + size → clear m addr size i ≡ 0
unfolding clear
clear_in m addr size i h k = ground arith

clear_out :
    (m : Memory) (addr size i : ℕ) → (i < addr) ⊎ (addr + size ≤ i) → clear m addr size i ≡ m i
unfolding clear
clear_out m addr size i h = ground (arith, h)

batch_split : (b k t : ℕ) → b * (k + suc t) ≡ b * k + b + b * t
batch_split b k t = grind arith

batch_after : (b k t : ℕ) → b * (k + 1 + t) ≡ b * k + b + b * t
batch_after b k t = grind arith

batch_none : (b k : ℕ) → b * (k + 0) ≡ b * k
batch_none b k = ap (λ x. b * x) (omega arith)

batch_all : (b n : ℕ) → b * (0 + n) ≡ n * b
batch_all b n = grind arith

clear_batches_out :
    (threads k : ℕ) (m : Memory) (addr b i : ℕ)
    → (i < addr + b * k) ⊎ (addr + b * (k + threads) ≤ i)
    → clear_batches threads k m addr b i ≡ m i
unfolding clear_batches
clear_batches_out zero k m addr b i h = refl
clear_batches_out (suc threads) k m addr b i h =
    clear_batches_out threads (k + 1) (clear m (addr + b * k) b) addr b i (elim h [
      | inl lt ↦ inl (omega (arith, lt, batch_split b k 0))
      | inr le ↦ inr (omega (arith, le, batch_split b k threads, batch_after b k threads))
    ])
    ∙ clear_out m (addr + b * k) b i
        (elim h [ inl lt ↦ inl lt | inr le ↦ inr (omega (arith, le, batch_split b k threads)) ])

clear_batches_in :
    (threads k : ℕ) (m : Memory) (addr b i : ℕ)
    → addr + b * k ≤ i
    → i < addr + b * (k + threads)
    → clear_batches threads k m addr b i ≡ 0
unfolding clear_batches
clear_batches_in zero k m addr b i h lt = absurd (omega (arith, h, lt, batch_none b k))
clear_batches_in (suc threads) k m addr b i h lt = elim (dec_lt i (addr + b * k + b)) [
  | yes in_first ↦
      clear_batches_out threads (k + 1) (clear m (addr + b * k) b) addr b i
        (inl (omega (arith, in_first, batch_split b k 0)))
      ∙ clear_in m (addr + b * k) b i h in_first
  | no ge ↦
      clear_batches_in threads (k + 1) (clear m (addr + b * k) b) addr b i
        (omega (arith, ge, batch_split b k 0))
        (omega (arith, lt, batch_split b k threads, batch_after b k threads))
]

mem_clear_many :
    (m : Memory) (addr size nthreads : ℕ)
    → 1 < nthreads
    → mem_clear m addr size nthreads ≡ clear_batches nthreads 0 m addr (size / nthreads)
unfolding mem_clear
mem_clear_many m addr size nthreads h = ground (arith, h)

mem_clear_one :
    (m : Memory) (addr size nthreads : ℕ)
    → nthreads ≤ 1
    → mem_clear m addr size nthreads ≡ clear m addr size
unfolding mem_clear
mem_clear_one m addr size nthreads h = ground (arith, h)

-- priskv_mem_clear of `size` bytes with more than one thread sets the first of them to 0, but for
-- the last `size % nthreads`, and changes no other byte of the memory. With one thread or none it
-- sets all of them to 0.
pub mem_clear_lem :
    (m : Memory) (addr size nthreads i : ℕ)
    → ((1 < nthreads)
        → (addr ≤ i → i < addr + (size - size % nthreads) → mem_clear m addr size nthreads i ≡ 0)
          × ((i < addr) ⊎ (addr + (size - size % nthreads) ≤ i)
              → mem_clear m addr size nthreads i ≡ m i))
      × (nthreads ≤ 1
          → (addr ≤ i → i < addr + size → mem_clear m addr size nthreads i ≡ 0)
            × ((i < addr) ⊎ (addr + size ≤ i) → mem_clear m addr size nthreads i ≡ m i))
mem_clear_lem m addr size nthreads i =
    let b = size / nthreads in
    let whole : 1 < nthreads → b * (0 + nthreads) ≡ size - size % nthreads =
      λ h. omega (arith, batch_all b nthreads, mod-add-div size nthreads) in
    (
      λ h.
          let e = mem_clear_many m addr size nthreads h in
          (
            λ lo hi.
                ap (λ f. f i) e
                ∙ clear_batches_in nthreads 0 m addr b i (omega (arith, lo))
                    (omega (arith, hi, whole h)),
            λ out.
                ap (λ f. f i) e
                ∙ clear_batches_out nthreads 0 m addr b i (elim out [
                  | inl lt ↦ inl (omega (arith, lt))
                  | inr le ↦ inr (omega (arith, le, whole h))
                ]),
          ),
      λ h.
          let e = mem_clear_one m addr size nthreads h in
          (
            λ lo hi. ap (λ f. f i) e ∙ clear_in m addr size i lo hi,
            λ out. ap (λ f. f i) e ∙ clear_out m addr size i out,
          ),
    )
