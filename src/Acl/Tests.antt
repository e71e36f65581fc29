-- ===== src/Acl/Tests.antt =====
-- server/acl.c on a few rules, and its theorem at one.
use pris_kv.Base.{ℕ, ◌≡◌, some, true, false, List, [], ◌∷◌, refl, arith}
use pris_kv.Base.Time.{pos}
use pris_kv.Acl.{
  inet, Acl, Resolved, resolved, eacces, same_nocase, read_digits, atoi, split_slash, split_rule,
  same_prefix, same_masked, verify_bytes, verify_addr, check_mask, insert_checked, add_resolved,
  acl_add, acl_del, acl_verify,
}
use pris_kv.Acl.Verify.{acl_add-acl_verify}

program : Unit {0}
unfolding same_nocase read_digits atoi split_slash split_rule same_prefix same_masked verify_bytes
    verify_addr check_mask insert_checked add_resolved acl_add acl_del acl_verify
program = tt

-- A lookup that gives every name the address 10.0.0.1.
abbrev lookup : List ℕ → Resolved
lookup name = resolved (inet (10 ∷ 0 ∷ 0 ∷ 1 ∷ []))

-- "h/24"
abbrev net : List ℕ
net = b'h' ∷ b'/' ∷ b'2' ∷ b'4' ∷ []

abbrev allowed : List Acl
allowed = (acl_add lookup [] net).0

verify-allowed : acl_verify allowed (inet (10 ∷ 0 ∷ 0 ∷ 99 ∷ [])) ≡ some (pos 0)
unfolding program
verify-allowed = refl

verify-allowed_not : acl_verify allowed (inet (10 ∷ 0 ∷ 1 ∷ 1 ∷ [])) ≡ some eacces
unfolding program
verify-allowed_not = refl

-- Of a byte with a mask of one bit the first bit is left out, and the other seven are compared.
verify-one_bit : verify_bytes (0 ∷ 0 ∷ 0 ∷ 0 ∷ []) (1 ∷ 0 ∷ 0 ∷ 0 ∷ []) (pos 1) ≡ some true
unfolding program
verify-one_bit = refl

verify-one_bit_not : verify_bytes (0 ∷ 0 ∷ 0 ∷ 0 ∷ []) (2 ∷ 0 ∷ 0 ∷ 0 ∷ []) (pos 1) ≡ some false
unfolding program
verify-one_bit_not = refl

acl_add-acl_verify_example :
    acl_verify (acl_add lookup allowed (b'h' ∷ [])).0 (inet (10 ∷ 0 ∷ 0 ∷ 1 ∷ [])) ≡ some (pos 0)
unfolding program
acl_add-acl_verify_example =
    acl_add-acl_verify lookup allowed (b'h' ∷ []) (inet (10 ∷ 0 ∷ 0 ∷ 1 ∷ [])) 0 refl refl refl refl
      (λ e. absurd (ground (arith, e))) refl
