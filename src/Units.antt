-- ===== src/Units.antt =====
-- include/priskv-utils.h on strings of the command line: priskv_str2num with its units, and
-- priskv_string_shorten. A string is the list of its bytes before the 0.
pub mod Parse
pub mod Shorten
mod Tests
use pris_kv.Base.{
  ℕ, zero, suc, ◌+◌, ◌-◌, ◌*◌, ◌/◌, ◌%◌, ◌^◌, Option, none, some, Bool, true, false, List, [], ◌∷◌,
  ◌++◌, ltb, leb, ◌==◌, if◌then◌else◌, length, take, ◌&&◌, ◌||◌,
}
use pris_kv.Base.Word.{u64, u64_mod}
use pris_kv.Base.Time.{ℤ, pos, negsuc}
use pris_kv.Kv.Find.{same_bytes}

-- `INT64_MAX` and the number of negative values of an `int64_t`
abbrev pub int64_max : ℕ
int64_max = 9223372036854775807

abbrev pub int64_min : ℕ
int64_min = 9223372036854775808

-- The `int64_t` with the 64 bits of a number.
abbrev pub int64 : ℕ → ℤ
int64 n = if leb (u64 n) int64_max then pos (u64 n) else negsuc (u64_mod - 1 - u64 n)

-- `a * b`, as the machine multiplies.
abbrev pub mul64 : ℤ → ℕ → ℤ
mul64 (pos n) b = int64 (n * b)
mul64 (negsuc n) b = int64 (u64_mod * b - (n + 1) * b)

abbrev pub is_space : ℕ → Bool
is_space c = (c == 32) || (leb 9 c && leb c 13)

abbrev pub is_digit : ℕ → Bool
is_digit c = leb 48 c && leb c 57

-- The digits at the front of a string, as a number that goes on from `n`, and what follows them.
unfoldable pub digits_of : ℕ → List ℕ → ℕ × List ℕ
digits_of n [] = (n, [])
digits_of n (c ∷ l) =
    let (m, rest) = digits_of (n * 10 + (c - 48)) l in if is_digit c then (m, rest) else (n, c ∷ l)

-- What `strtoll` returns, whether it sets `errno` to ERANGE, and where `unit` points.
pub record Scanned : Type 0 where
  pub value : ℤ
  pub erange : Bool
  pub unit : List ℕ

-- The number with its sign: `negative` of the digits read, or the nearest `int64_t`.
unfoldable pub clamp : Bool → ℕ → List ℕ → Scanned
clamp false n rest =
    if leb n int64_max
    then record { value = pos n; erange = false; unit = rest }
    else record { value = pos int64_max; erange = true; unit = rest }
clamp true n rest =
    if leb n int64_min
    then record { value = if n == 0 then pos 0 else negsuc (n - 1); erange = false; unit = rest }
    else record { value = negsuc int64_max; erange = true; unit = rest }

-- After spaces and a sign: without a digit nothing is read, and `unit` is the whole string.
unfoldable pub scan_digits : List ℕ → Bool → List ℕ → Scanned
scan_digits str negative [] = record { value = pos 0; erange = false; unit = str }
scan_digits str negative (c ∷ l) =
    if is_digit c
    then clamp negative (digits_of 0 (c ∷ l)).0 (digits_of 0 (c ∷ l)).1
    else record { value = pos 0; erange = false; unit = str }

unfoldable pub scan_sign : List ℕ → List ℕ → Scanned
scan_sign str [] = scan_digits str false []
scan_sign str (c ∷ l) =
    if c == b'-'
    then scan_digits str true l
    else if c == b'+'
    then scan_digits str false l
    else scan_digits str false (c ∷ l)

unfoldable pub scan_spaces : List ℕ → List ℕ → Scanned
scan_spaces str [] = scan_sign str []
scan_spaces str (c ∷ l) =
    let rest = scan_spaces str l in if is_space c then rest else scan_sign str (c ∷ l)

-- `strtoll(str, &unit, 10)`
unfoldable pub strtoll : List ℕ → Scanned
strtoll str = scan_spaces str str

abbrev pub to_lower : ℕ → ℕ
to_lower c = if leb 65 c && leb c 90 then c + 32 else c

-- The unit without its spaces and in small letters.
unfoldable pub squeeze : List ℕ → List ℕ
squeeze [] = []
squeeze (c ∷ l) = if c == 32 then squeeze l else to_lower c ∷ squeeze l

-- `c` is the letter alone, or with "b" or "ib".
abbrev pub is_unit : ℕ → List ℕ → Bool
is_unit letter c =
    same_bytes c (letter ∷ [])
    || (same_bytes c (letter ∷ b'b' ∷ []) || same_bytes c (letter ∷ b'i' ∷ b'b' ∷ []))

unfoldable pub unit_power : List ℕ → Option ℕ
unit_power c =
    if is_unit b'p' c
    then some 5
    else if is_unit b't' c
    then some 4
    else if is_unit b'g' c
    then some 3
    else if is_unit b'm' c
    then some 2
    else if is_unit b'k' c
    then some 1
    else none

-- `__priskv_get_mult_bytes`: the multiplier, or nothing for -1.
unfoldable pub get_mult_bytes : List ℕ → Option ℕ
get_mult_bytes [] = some 1
get_mult_bytes (c ∷ l) = elim (unit_power (squeeze (c ∷ l))) [
  | none ↦ none
  | some power ↦ some (1024 ^ power)
]

-- The end of `priskv_str2num`. `stale` says that `errno` was ERANGE before the call.
unfoldable pub finish_num : Bool → List ℕ → Scanned → Option ℤ
finish_num stale str s =
    if s.erange || stale
    then none
    else elim (get_mult_bytes s.unit) [ none ↦ none | some mult ↦ some (mul64 s.value mult) ]

abbrev pub is_zero : ℤ → Bool
is_zero (pos n) = n == 0
is_zero (negsuc n) = false

-- `priskv_str2num`: what it writes through `result`, or nothing for -1.
unfoldable pub str2num : Bool → List ℕ → Option ℤ
str2num stale str =
    let s = strtoll str in
    if is_zero s.value && same_bytes s.unit str then none else finish_num stale str s

-- `priskv_string_shorten`: the string in `dst`, where `src` has `src_len` bytes and `dst` room for
-- `dst_len`, at least one.
unfoldable pub string_shorten : List ℕ → ℕ → List ℕ
string_shorten src dst_len =
    if leb dst_len (length src)
    then (if ltb 6 dst_len
        then take (dst_len - 4) src ++ (b'.' ∷ b'.' ∷ b'.' ∷ [])
        else take (dst_len - 1) src)
    else src
