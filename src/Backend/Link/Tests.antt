-- ===== src/Backend/Link/Tests.antt =====
-- The theorems on the addresses and the opening of devices at a driver that counts what is open.
use mathlib.Core.Option.{some-injective}
use pris_kv.Base.{
  ℕ, suc, ◌+◌, ◌-◌, ◌≡◌, none, some, true, List, [], ◌∷◌, refl, subst, arith, inl, inr, Bool-cases,
}
use pris_kv.Kv.Find.{same_bytes}
use pris_kv.Backend.{Device, leaf, tier}
use pris_kv.Backend.Link.{
  Link, Plug, Closing, strchr, advance, address_part, make_link, is_empty, is_complete, parse_link,
  find_driver, backend_close, clear_cache, with_child, open_from, backend_open,
}
use pris_kv.Backend.Link.Address.{written, parse_link-written}
use pris_kv.Backend.Link.Opening.{Balanced, opened, backend_open-backend_close}

abbrev fs : List ℕ
fs = b'f' ∷ b's' ∷ []

-- "fs:a;fs:b" as one link with the address of its child
abbrev link_a : Link
link_a = record {
  protocol = fs;
  address = b'a' ∷ [];
  childaddr = some (b'f' ∷ b's' ∷ b':' ∷ b'b' ∷ []);
}

-- "fs:a;x:b", whose child has no driver
abbrev link_x : Link
link_x = record link_a { childaddr = some (b'x' ∷ b':' ∷ b'b' ∷ []) }

-- "a;b:c", where ';' is before ':'
abbrev mixed : List ℕ
mixed = b'a' ∷ b';' ∷ b'b' ∷ b':' ∷ b'c' ∷ []

parse_mixed :
    parse_link (some mixed)
    ≡ some (record {
      protocol = b'a' ∷ b';' ∷ b'b' ∷ [];
      address = b'c' ∷ [];
      childaddr = some (b'b' ∷ b':' ∷ b'c' ∷ []);
    })
unfolding parse_link strchr advance address_part make_link is_empty is_complete
parse_mixed = refl

parse_link-written_example : parse_link (some (written link_a)) ≡ some link_a
unfolding is_complete is_empty strchr written
parse_link-written_example = parse_link-written link_a refl refl refl refl (omega arith)

abbrev counter : Plug ℕ ℕ
counter = record { name = fs; open_device = λ e link. (suc e, some 0) }

abbrev counter_ends : Closing ℕ ℕ
counter_ends = record { close_device = λ e s. (e - 1, true); clearup = λ e s. (e, s, true) }

counter_found :
    (name : List ℕ) {p : Plug ℕ ℕ} → find_driver (counter ∷ []) name ≡ some p → counter ≡ p
unfolding find_driver
counter_found name {p} h = elim (Bool-cases (same_bytes fs name)) [
  | inl e ↦ some-injective _ _ (cc (e, h))
  | inr e ↦ absurd (cc (e, h))
]

counter-Balanced : Balanced (counter ∷ []) counter_ends (λ e. e)
counter-Balanced = record {
  opens = λ name h e link s q.
      subst (λ (p : Plug ℕ ℕ). (p.open_device e link).0 ≡ suc e) (counter_found name h) refl;
  fails = λ name h e link q. absurd (
      cc (
        subst (λ (p : Plug ℕ ℕ). (p.open_device e link).1 ≡ some 0) (counter_found name h) refl,
        q,
      ));
  closes = λ e s h. (omega arith, refl);
  clears = λ e s. refl;
}

-- A chain of two devices is opened; where the child has no driver, the first device is closed again.
open_two :
    backend_open counter_ends (counter ∷ []) 0 (some (written link_a)) ≡ (2, some (tier 0 (leaf 0)))
unfolding backend_open open_from with_child clear_cache parse_link strchr advance address_part
    make_link is_empty is_complete find_driver same_bytes written
open_two = refl

open_fails : backend_open counter_ends (counter ∷ []) 0 (some (written link_x)) ≡ (0, none)
unfolding backend_open open_from with_child clear_cache parse_link strchr advance address_part
    make_link is_empty is_complete find_driver same_bytes written
open_fails = refl

backend_open-backend_close_example :
    ((backend_open counter_ends (counter ∷ []) 0 (some (written link_a))).0
      ≡ 0 + opened (backend_open counter_ends (counter ∷ []) 0 (some (written link_a))).1)
    × ((dev : Device ℕ)
        → (backend_open counter_ends (counter ∷ []) 0 (some (written link_a))).1 ≡ some dev
        → ((backend_close counter_ends
              (backend_open counter_ends (counter ∷ []) 0 (some (written link_a))).0
              dev).0
            ≡ 0)
          × ((backend_close counter_ends
                (backend_open counter_ends (counter ∷ []) 0 (some (written link_a))).0
                dev).1
              ≡ true))
backend_open-backend_close_example =
    backend_open-backend_close counter-Balanced 0 (some (written link_a))
