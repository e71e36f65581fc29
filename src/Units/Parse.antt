-- ===== src/Units/Parse.antt =====
-- priskv_str2num of include/priskv-utils.h reads a decimal number with a unit.
use pris_kv.Base.{
  ℕ, zero, suc, ◌+◌, ◌-◌, ◌*◌, ◌^◌, ◌≤◌, ◌<◌, ◌≡◌, arith, refl, sym, ap, subst, ◌∙◌, some, true,
  false, List, [], ◌∷◌, ◌++◌, length, get_elem?, length-append,
}
use native.Mathlib.Nat.{pow-suc, one-le-pow, le-mul_of_pos_right}
use pris_kv.Base.Time.{pos}
use pris_kv.Kv.Find.{same_bytes}
use pris_kv.Units.{
  int64_max, mul64, is_digit, digits_of, clamp, scan_digits, scan_sign, scan_spaces, strtoll,
  squeeze, unit_power, get_mult_bytes, finish_num, str2num,
}

-- The number that decimal digits write.
abbrev pub decimal : List ℕ → ℕ
decimal [] = 0
decimal (c ∷ l) = (c - 48) * 10 ^ length l + decimal l

abbrev pub Digits : List ℕ → Type 0
Digits [] = Unit {0}
Digits (c ∷ l) = (is_digit c ≡ true) × Digits l

-- The units, and what power of 1024 each stands for.
abbrev pub units : List (List ℕ × ℕ)
units =
    ([], 0)
    ∷ ((b'K' ∷ [], 1)
        ∷ ((b'k' ∷ b'b' ∷ [], 1)
            ∷ ((b'K' ∷ b'i' ∷ b'B' ∷ [], 1)
                ∷ ((b'M' ∷ [], 2)
                    ∷ ((b'M' ∷ b'B' ∷ [], 2)
                        ∷ ((b'm' ∷ b'i' ∷ b'b' ∷ [], 2)
                            ∷ ((b'G' ∷ [], 3)
                                ∷ ((b' ' ∷ b'G' ∷ b'B' ∷ [], 3)
                                    ∷ ((b'G' ∷ b'i' ∷ b'B' ∷ [], 3)
                                        ∷ ((b'T' ∷ [], 4)
                                            ∷ ((b't' ∷ b'b' ∷ [], 4)
                                                ∷ ((b'T' ∷ b'i' ∷ b'B' ∷ [], 4)
                                                    ∷ ((b'P' ∷ [], 5)
                                                        ∷ ((b'P' ∷ b'B' ∷ [], 5)
                                                            ∷ ((b'p' ∷ b'i' ∷ b'b' ∷ [], 5)
                                                            ∷ [])))))))))))))))

-- The digits end where the unit begins.
abbrev Ends : List ℕ → Type 0
Ends [] = Unit {0}
Ends (c ∷ l) = is_digit c ≡ false

abbrev Reads : List (List ℕ × ℕ) → Type 0
Reads [] = Unit {0}
Reads (e ∷ l) = (Ends e.0 × (get_mult_bytes e.0 ≡ some (1024 ^ e.1))) × Reads l

units-Reads : Reads units
unfolding get_mult_bytes unit_power squeeze same_bytes
units-Reads = ground arith

Reads-at :
    (l : List (List ℕ × ℕ)) (i : ℕ) (u : List ℕ) (p : ℕ)
    → Reads l
    → get_elem? l i ≡ some (u, p)
    → Ends u × (get_mult_bytes u ≡ some (1024 ^ p))
Reads-at [] i u p r h = absurd (ground (arith, h))
Reads-at (e ∷ l) zero u p r h =
    let same : e ≡ (u, p) = ground (arith, h) in
    subst (λ x. Ends x.0 × (get_mult_bytes x.0 ≡ some (1024 ^ x.1))) same r.0
Reads-at (e ∷ l) (suc i) u p r h = Reads-at l i u p r.1 h

digits_of-Ends : (n : ℕ) (u : List ℕ) → Ends u → digits_of n u ≡ (n, u)
unfolding digits_of
digits_of-Ends n [] h = refl
digits_of-Ends n (c ∷ u) h = ground (arith, h)

digits_of-cons :
    (n c : ℕ) (l : List ℕ)
    → is_digit c ≡ true
    → digits_of n (c ∷ l) ≡ digits_of (n * 10 + (c - 48)) l
unfolding digits_of
digits_of-cons n c l h = ground (arith, h)

positional : (n c w d : ℕ) → (n * 10 + c) * w + d ≡ n * (w * 10) + (c * w + d)
positional n c w d = grind arith

digits_of_lem :
    (n : ℕ) (ds u : List ℕ)
    → Digits ds
    → Ends u
    → digits_of n (ds ++ u) ≡ (n * 10 ^ length ds + decimal ds, u)
unfolding digits_of
digits_of_lem n [] u d h = digits_of-Ends n u h ∙ ap (λ x. (x, u)) (omega arith)
digits_of_lem n (c ∷ ds) u d h =
    let ih = digits_of_lem (n * 10 + (c - 48)) ds u d.1 h in
    let sum : (n * 10 + (c - 48)) * 10 ^ length ds + decimal ds
        ≡ n * 10 ^ length (c ∷ ds) + decimal (c ∷ ds) =
      positional n (c - 48) (10 ^ length ds) (decimal ds)
      ∙ ap (λ x. n * x + decimal (c ∷ ds)) (sym (pow-suc 10 (length ds))) in
    digits_of-cons n c (ds ++ u) d.0 ∙ (ih ∙ ap (λ x. (x, u)) sum)

mul64_small : (n b : ℕ) → n * b ≤ int64_max → mul64 (pos n) b ≡ pos (n * b)
mul64_small n b h = ground (arith, h)

scan_spaces-digit :
    (str : List ℕ) (c : ℕ) (l : List ℕ)
    → is_digit c ≡ true
    → scan_spaces str (c ∷ l) ≡ clamp false (digits_of 0 (c ∷ l)).0 (digits_of 0 (c ∷ l)).1
unfolding scan_spaces scan_sign scan_digits
scan_spaces-digit str c l h = ground (arith, h)

clamp_small :
    (n : ℕ) (rest : List ℕ)
    → n ≤ int64_max
    → clamp false n rest ≡ record { value = pos n; erange = false; unit = rest }
unfolding clamp
clamp_small n rest h = ground (arith, h)

strtoll_lem :
    (c : ℕ) (ds u : List ℕ)
    → Digits (c ∷ ds)
    → Ends u
    → decimal (c ∷ ds) ≤ int64_max
    → strtoll (c ∷ ds ++ u) ≡ record { value = pos (decimal (c ∷ ds)); erange = false; unit = u }
unfolding strtoll
strtoll_lem c ds u d h small =
    let e = digits_of_lem 0 (c ∷ ds) u d h ∙ ap (λ x. (x, u)) (omega arith) in
    scan_spaces-digit (c ∷ ds ++ u) c (ds ++ u) d.0
    ∙ (ap (λ x. clamp false x.0 x.1) e ∙ clamp_small (decimal (c ∷ ds)) u small)

-- A string is not one of its proper ends.
same_bytes-longer : (l u : List ℕ) → length u < length l → same_bytes u l ≡ false
unfolding same_bytes
same_bytes-longer [] u h = absurd (omega (arith, h))
same_bytes-longer (c ∷ l) [] h = refl
same_bytes-longer (c ∷ l) (x ∷ u) h = ground (arith, same_bytes-longer l u (omega (arith, h)))

str2num_at :
    (str : List ℕ) (n mult : ℕ) (unit : List ℕ)
    → strtoll str ≡ record { value = pos n; erange = false; unit = unit }
    → same_bytes unit str ≡ false
    → get_mult_bytes unit ≡ some mult
    → str2num false str ≡ some (mul64 (pos n) mult)
unfolding str2num finish_num
str2num_at str n mult unit e f m = ground (arith, e, f, m)

le_factor : (n m : ℕ) → 1 ≤ m → n * m ≤ int64_max → n ≤ int64_max
le_factor n m h small = omega (arith, small, le-mul_of_pos_right n h)

-- priskv_str2num reads decimal digits and one of the units as the number times the power of 1024,
-- where that is at most INT64_MAX and `errno` was not ERANGE before.
pub str2num_lem :
    (c : ℕ) (ds u : List ℕ) (i power : ℕ)
    → Digits (c ∷ ds)
    → get_elem? units i ≡ some (u, power)
    → decimal (c ∷ ds) * 1024 ^ power ≤ int64_max
    → str2num false (c ∷ ds ++ u) ≡ some (pos (decimal (c ∷ ds) * 1024 ^ power))
str2num_lem c ds u i power d at small =
    let (ends, mult) = Reads-at units i u power units-Reads at in
    let fits : decimal (c ∷ ds) ≤ int64_max =
      le_factor (decimal (c ∷ ds)) (1024 ^ power) (one-le-pow power 1024 (omega arith)) small in
    str2num_at (c ∷ ds ++ u) (decimal (c ∷ ds)) (1024 ^ power) u (strtoll_lem c ds u d ends fits)
      (same_bytes-longer (c ∷ ds ++ u) u (omega (arith, length-append ds u))) mult
    ∙ ap some (mul64_small (decimal (c ∷ ds)) (1024 ^ power) small)
