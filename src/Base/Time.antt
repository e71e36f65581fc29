-- ===== src/Base/Time.antt =====
-- priskv-utils.h on `struct timeval`. A `long` is a number without bound here, which is what the
-- code computes as long as the times in milliseconds are below 2^63; from there on the product in
-- priskv_time_elapsed_ms overflows in the code, and not here.
use pris_kv.Base.Tests.{ltb, leb, if◌then◌else◌}
use Prim.Native.Nat.{ℕ, ◌+◌, ◌-◌, ◌*◌, ◌/◌, ◌%◌, ◌≤◌, ◌<◌}
use mathlib.Core.Bool.{Bool, true, false}
use mathlib.Core.Path.{◌≡◌}
use native.Mathlib.Omega.{arith}

pub record Timeval : Type 0 where
  pub sec : ℕ
  pub usec : ℕ

-- `negsuc n` is -(n + 1).
pub data ℤ : Type 0 where
  pos : ℕ → ℤ
  negsuc : ℕ → ℤ

-- a - b
abbrev pub sub_ℕ : ℕ → ℕ → ℤ
sub_ℕ a b = if leb b a then pos (a - b) else negsuc (b - a - 1)

-- `priskv_time_elapsed_ms`. C divides towards 0, and of the two differences one is 0.
unfoldable pub elapsed_ms : Timeval → Timeval → ℤ
elapsed_ms start end =
    sub_ℕ (end.sec * 1000 + (end.usec - start.usec) / 1000)
      (start.sec * 1000 + (start.usec - end.usec) / 1000)

-- `priskv_time_add_ms`
unfoldable pub add_ms : Timeval → ℕ → Timeval
add_ms t milliseconds =
    let usec : ℕ = t.usec + milliseconds % 1000 * 1000 in
    record { sec = t.sec + (milliseconds / 1000 + usec / 1000000); usec = usec % 1000000 }

abbrev pub is_positive : ℤ → Bool
is_positive (pos n) = ltb 0 n
is_positive (negsuc n) = false

-- Microseconds since the epoch.
abbrev pub micros : Timeval → ℕ
micros t = t.sec * 1000000 + t.usec

-- To add milliseconds moves a time forward by as many, and keeps its microseconds below a second.
pub add_ms_lem :
    (t : Timeval) (ms : ℕ)
    → t.usec < 1000000
    → (micros (add_ms t ms) ≡ micros t + ms * 1000) × ((add_ms t ms).usec < 1000000)
unfolding add_ms
add_ms_lem t ms h = omega arith

-- Between times whose microseconds are below a second, the elapsed milliseconds are positive only
-- if the end is later than the start, and are so if it is later by a millisecond.
pub elapsed_ms_pos :
    (start end : Timeval)
    → start.usec < 1000000
    → end.usec < 1000000
    → (is_positive (elapsed_ms start end) ≡ true → micros start < micros end)
      × (micros start + 1000 ≤ micros end → is_positive (elapsed_ms start end) ≡ true)
unfolding elapsed_ms
elapsed_ms_pos start end h k = (λ e. ground arith, λ e. ground arith)
