-- ===== src/Units/Tests.antt =====
-- priskv-utils.h on a few strings, and its theorems at some.
use pris_kv.Base.{ℕ, ◌≡◌, arith, none, some, false, List, [], ◌∷◌, refl}
use pris_kv.Base.Time.{pos, negsuc}
use pris_kv.Kv.Find.{same_bytes}
use pris_kv.Units.{
  digits_of, clamp, scan_digits, scan_sign, scan_spaces, strtoll, squeeze, unit_power,
  get_mult_bytes, finish_num, str2num, string_shorten,
}
use pris_kv.Units.Parse.{str2num_lem}

program : Unit {0}
unfolding digits_of clamp scan_digits scan_sign scan_spaces strtoll squeeze unit_power
    get_mult_bytes finish_num str2num same_bytes string_shorten
program = tt

-- " -12 kB", with a sign and spaces
str2num-negative :
    str2num false (b' ' ∷ b'-' ∷ b'1' ∷ b'2' ∷ b' ' ∷ b'k' ∷ b'B' ∷ []) ≡ some (negsuc 12287)
unfolding program
str2num-negative = refl

str2num-unit_only : str2num false (b'k' ∷ []) ≡ none
unfolding program
str2num-unit_only = refl

-- The product is not checked: 2^53 kB wrap to the least number.
str2num-wraps :
    str2num false (
      b'9' ∷ b'0' ∷ b'0' ∷ b'7' ∷ b'1' ∷ b'9' ∷ b'9' ∷ b'2' ∷ b'5' ∷ b'4' ∷ b'7' ∷ b'4' ∷ b'0'
      ∷ b'9' ∷ b'9' ∷ b'2' ∷ b'k' ∷ [])
    ≡ some (negsuc 9223372036854775807)
unfolding program
str2num-wraps = refl

-- "16MB"
str2num_lem_example : str2num false (b'1' ∷ b'6' ∷ b'M' ∷ b'B' ∷ []) ≡ some (pos 16777216)
str2num_lem_example =
    str2num_lem b'1' (b'6' ∷ []) (b'M' ∷ b'B' ∷ []) 5 2 (refl, (refl, tt)) refl (omega arith)

abbrev long_name : List ℕ
long_name = 97 ∷ 98 ∷ 99 ∷ 100 ∷ 101 ∷ 102 ∷ 103 ∷ 104 ∷ 105 ∷ []
