-- ===== src/Slab/Words.antt =====
-- The bitmap of server/slab.c as one list of bits, a bit for each slot.
use pris_kv.Base.{
  ℕ, zero, suc, ◌+◌, ◌*◌, ◌/◌, ◌%◌, ◌≤◌, ◌<◌, ◌≡◌, arith, some, Bool, true, false, List, [], ◌∷◌,
  ◌++◌, get_elem?, set, length, refl, sym, ap, ◌∙◌, length-append, length-set,
  get_elem?-append_left, get_elem?-append_right, set-append_left, set-append_right,
}
use pris_kv.Slab.{Word, update, put_bit, is_zero, ffsl}

abbrev pub flat : List Word → List Bool
flat [] = []
flat (w ∷ ws) = w ++ flat ws

-- Every word has 64 bits.
abbrev pub Wide : List Word → Type 0
Wide [] = Unit {0}
Wide (w ∷ ws) = (length w ≡ 64) × Wide ws

-- How many slots are free.
abbrev pub count_true : List Bool → ℕ
count_true [] = 0
count_true (true ∷ l) = suc (count_true l)
count_true (false ∷ l) = count_true l

pub length-flat : (ws : List Word) → Wide ws → length (flat ws) ≡ length ws * 64
length-flat [] h = refl
length-flat (w ∷ ws) h = omega (arith, length-append w (flat ws), h.0, length-flat ws h.1)

pub update-Wide :
    (ws : List Word) (i b : ℕ) (v : Bool) → Wide ws → Wide (update ws i (λ w. set w b v))
update-Wide [] i b v h = tt
update-Wide (w ∷ ws) zero b v h = (length-set w b v ∙ h.0, h.1)
update-Wide (w ∷ ws) (suc i) b v h = (h.0, update-Wide ws i b v h.1)

pub length-update : (ws : List Word) (i : ℕ) (f : Word → Word) → length (update ws i f) ≡ length ws
length-update [] i f = refl
length-update (w ∷ ws) zero f = refl
length-update (w ∷ ws) (suc i) f = ap suc (length-update ws i f)

pub put_bit-Wide : (ws : List Word) (i : ℕ) (v : Bool) → Wide ws → Wide (put_bit ws i v)
unfolding put_bit
put_bit-Wide ws i v h = update-Wide ws (i / 64) (i % 64) v h

pub length-put_bit : (ws : List Word) (i : ℕ) (v : Bool) → length (put_bit ws i v) ≡ length ws
unfolding put_bit
length-put_bit ws i v = length-update ws (i / 64) (λ w. set w (i % 64) v)

-- To set a bit of a word sets the bit of its slot.
pub flat-update :
    (ws : List Word) (i b : ℕ) (v : Bool)
    → Wide ws
    → b < 64
    → flat (update ws i (λ w. set w b v)) ≡ set (flat ws) (i * 64 + b) v
flat-update [] i b v h lt = refl
flat-update (w ∷ ws) zero b v h lt =
    let place : b ≡ 0 * 64 + b = omega arith in
    sym (set-append_left w (flat ws) b v (omega (arith, h.0)))
    ∙ ap (λ z. set (w ++ flat ws) z v) place
flat-update (w ∷ ws) (suc i) b v h lt =
    ap (◌++◌ w) (flat-update ws i b v h.1 lt)
    ∙ sym (set-append_right w (flat ws) (i * 64 + b) (suc i * 64 + b) v (omega (arith, h.0)))

pub flat-put_bit :
    (ws : List Word) (i : ℕ) (v : Bool) → Wide ws → flat (put_bit ws i v) ≡ set (flat ws) i v
unfolding put_bit
flat-put_bit ws i v h =
    flat-update ws (i / 64) (i % 64) v h (omega arith) ∙ ap (λ z. set (flat ws) z v) (omega arith)

pub get-flat :
    (ws : List Word) (i b : ℕ) {w : Word}
    → Wide ws
    → get_elem? ws i ≡ some w
    → b < 64
    → (get_elem? (flat ws) (i * 64 + b) ≡ get_elem? w b) × (length w ≡ 64)
get-flat [] i b h e lt = absurd (cc e)
get-flat (u ∷ ws) zero b {w} h e lt =
    let same : u ≡ w = cc e in
    let place : 0 * 64 + b ≡ b = omega arith in
    (
      ap (get_elem? (u ++ flat ws)) place
          ∙ get_elem?-append_left u (flat ws) b (omega (arith, h.0))
          ∙ ap (λ z. get_elem? z b) same,
      sym (ap length same) ∙ h.0,
    )
get-flat (u ∷ ws) (suc i) b h e lt =
    let (rest, wide) = get-flat ws i b h.1 e lt in
    (
      get_elem?-append_right u (flat ws) (i * 64 + b) (suc i * 64 + b) (omega (arith, h.0)) ∙ rest,
      wide,
    )

-- A word that is not 0 has a lowest bit that is set.
pub ffsl_lem :
    (w : Word) → is_zero w ≡ false → (k : ℕ) × (ffsl w ≡ suc k) × (get_elem? w k ≡ some true)
unfolding is_zero ffsl
ffsl_lem [] h = absurd (cc h)
ffsl_lem (true ∷ w) h = (0, refl, refl)
ffsl_lem (false ∷ w) h = let (k, e, t) = ffsl_lem w h in (suc k, ground arith, t)

pub count_true-is_zero : (w : Word) → is_zero w ≡ true → count_true w ≡ 0
unfolding is_zero
count_true-is_zero [] h = refl
count_true-is_zero (true ∷ w) h = absurd (cc h)
count_true-is_zero (false ∷ w) h = count_true-is_zero w h

pub count_true-append : (l r : List Bool) → count_true (l ++ r) ≡ count_true l + count_true r
count_true-append [] r = omega arith
count_true-append (true ∷ l) r = omega (arith, count_true-append l r)
count_true-append (false ∷ l) r = count_true-append l r

pub count_true-clear :
    (l : List Bool) (i : ℕ)
    → get_elem? l i ≡ some true
    → count_true (set l i false) + 1 ≡ count_true l
count_true-clear [] i h = absurd (cc h)
count_true-clear (true ∷ l) zero h = omega arith
count_true-clear (false ∷ l) zero h = absurd (cc h)
count_true-clear (true ∷ l) (suc i) h = omega (arith, count_true-clear l i h)
count_true-clear (false ∷ l) (suc i) h = count_true-clear l i h

pub count_true-set :
    (l : List Bool) (i : ℕ)
    → get_elem? l i ≡ some false
    → count_true (set l i true) ≡ count_true l + 1
count_true-set [] i h = absurd (cc h)
count_true-set (true ∷ l) zero h = absurd (cc h)
count_true-set (false ∷ l) zero h = omega arith
count_true-set (true ∷ l) (suc i) h = omega (arith, count_true-set l i h)
count_true-set (false ∷ l) (suc i) h = count_true-set l i h

-- The bits of a bitmap whose words are 0 are all clear.
pub count_true-flat :
    (ws : List Word)
    → ((i : ℕ) (w : Word) → get_elem? ws i ≡ some w → is_zero w ≡ true)
    → count_true (flat ws) ≡ 0
count_true-flat [] h = refl
count_true-flat (w ∷ ws) h = omega (
  arith,
  count_true-append w (flat ws),
  count_true-is_zero w (h 0 w refl),
  count_true-flat ws (λ i u e. h (suc i) u e),
)

pub count_true-le :
    (l : List Bool) (n : ℕ) → ((i : ℕ) → get_elem? l i ≡ some true → i < n) → count_true l ≤ n
count_true-le [] n h = omega arith
count_true-le (true ∷ l) zero h = absurd (omega (arith, h 0 refl))
count_true-le (true ∷ l) (suc n) h =
    omega (arith, count_true-le l n (λ i e. omega (arith, h (suc i) e)))
count_true-le (false ∷ l) zero h = count_true-le l 0 (λ i e. absurd (omega (arith, h (suc i) e)))
count_true-le (false ∷ l) (suc n) h =
    omega (arith, count_true-le l n (λ i e. omega (arith, h (suc i) e)))
