-- ===== src/Acl.antt =====
-- server/acl.c: which clients may connect. A rule is "any" or an address with an optional mask; the
-- name lookup of priskv_acl_addr (`rdma_getaddrinfo`) is an argument. A string is the list of its
-- bytes before the 0. The lock is held over each step.
pub mod Verify
mod Tests
use pris_kv.Base.{
  ℕ, zero, suc, ◌+◌, ◌-◌, ◌*◌, ◌/◌, ◌%◌, ◌^◌, Option, none, some, Bool, true, false, List, [], ◌∷◌,
  ◌++◌, ltb, leb, ◌==◌, if◌then◌else◌, get_elem?, map, bit_and, ◌&&◌,
}
use pris_kv.Base.Time.{ℤ, pos, negsuc}

-- `struct sockaddr` by its family, with the bytes of the address.
pub data SockAddr : Type 0 where
  inet : List ℕ → SockAddr
  inet6 : List ℕ → SockAddr
  unspec : SockAddr

-- `priskv_acl`
pub record Acl : Type 0 where
  pub rule : List ℕ
  pub addr : SockAddr
  pub mask_bits : ℤ

-- What `priskv_acl_addr` returns and writes through `saddr`.
pub data Resolved : Type 0 where
  failed : ℤ → Resolved
  resolved : SockAddr → Resolved

abbrev pub einval : ℤ
einval = negsuc 21

abbrev pub enoent : ℤ
enoent = negsuc 1

abbrev pub eacces : ℤ
eacces = negsuc 12

abbrev pub acl_any : List ℕ
acl_any = b'a' ∷ b'n' ∷ b'y' ∷ []

abbrev pub to_lower : ℕ → ℕ
to_lower c = if leb 65 c && leb c 90 then c + 32 else c

-- `!strcasecmp(a, b)`
unfoldable pub same_nocase : List ℕ → List ℕ → Bool
same_nocase [] [] = true
same_nocase [] (b ∷ bs) = false
same_nocase (a ∷ as') [] = false
same_nocase (a ∷ as') (b ∷ bs) = if to_lower a == to_lower b then same_nocase as' bs else false

-- The digits that `atoi` reads, and its sign. A number that no `int` holds is not cut off here.
unfoldable pub read_digits : ℕ → List ℕ → ℕ
read_digits n [] = n
read_digits n (c ∷ l) =
    let rest = read_digits (n * 10 + (c - 48)) l in if leb 48 c && leb c 57 then rest else n

unfoldable pub atoi : List ℕ → ℤ
atoi [] = pos 0
atoi (c ∷ l) =
    let rest = atoi l in
    if (c == 32)
    then rest
    else if (leb 9 c && leb c 13)
    then rest
    else if (c == b'-')
    then (if read_digits 0 l == 0 then pos 0 else negsuc (read_digits 0 l - 1))
    else if (c == b'+')
    then pos (read_digits 0 l)
    else pos (read_digits 0 (c ∷ l))

-- `strchr(rule, '/')`: what stands before and after the first slash.
unfoldable pub split_slash : List ℕ → Option (List ℕ × List ℕ)
split_slash [] = none
split_slash (c ∷ l) =
    let rest = split_slash l in
    if c == b'/' then some ([], l) else elim rest [ none ↦ none | some (a, m) ↦ some (c ∷ a, m) ]

-- The address of a rule, and its mask or 0.
unfoldable pub split_rule : List ℕ → List ℕ × ℤ
split_rule rule = elim (split_slash rule) [ none ↦ (rule, pos 0) | some (a, m) ↦ (a, atoi m) ]

-- The first loop of `__priskv_acl_verify_addr`
unfoldable pub same_prefix : ℕ → List ℕ → List ℕ → Bool
same_prefix zero s d = true
same_prefix (suc n) [] d = true
same_prefix (suc n) (a ∷ s) [] = true
same_prefix (suc n) (a ∷ s) (b ∷ d) = if a == b then same_prefix n s d else false

-- `(saddr[bytes] & m) == (daddr[bytes] & m)`; `none` is a read behind the address.
unfoldable pub same_masked : List ℕ → List ℕ → ℕ → ℕ → Option Bool
same_masked s d bytes m = elim (get_elem? s bytes) [
  | none ↦ none
  | some a ↦ elim (get_elem? d bytes) [ none ↦ none | some b ↦ some (bit_and a m == bit_and b m) ]
]

-- `__priskv_acl_verify_addr`. C divides towards 0: the loops do nothing at a negative number.
unfoldable pub verify_bytes : List ℕ → List ℕ → ℤ → Option Bool
verify_bytes s d (pos n) =
    if same_prefix (n / 8) s d
    then (if n % 8 == 0 then some true else same_masked s d (n / 8) (255 - (2 ^ (n % 8) - 1)))
    else some false
verify_bytes s d (negsuc n) =
    if (n + 1) % 8 == 0 then some true else if (n + 1) / 8 == 0 then same_masked s d 0 255 else none

-- `priskv_acl_verify_addr`
unfoldable pub verify_addr : SockAddr → SockAddr → ℤ → Option Bool
verify_addr (inet s) (inet d) mask_bits = verify_bytes s d mask_bits
verify_addr (inet s) (inet6 d) mask_bits = some false
verify_addr (inet s) unspec mask_bits = some false
verify_addr (inet6 s) (inet d) mask_bits = some false
verify_addr (inet6 s) (inet6 d) mask_bits = verify_bytes s d mask_bits
verify_addr (inet6 s) unspec mask_bits = some false
verify_addr unspec d mask_bits = some false

-- The test of a mask, where `limit` is the width of the address; `none` is -EINVAL.
unfoldable pub check_mask : ℕ → ℤ → Option ℤ
check_mask limit (pos n) =
    if n == 0 then some (pos limit) else if ltb limit n then none else some (pos n)
check_mask limit (negsuc n) = some (negsuc n)

abbrev pub insert : List Acl → Acl → List Acl × ℤ
insert acls acl = (acls ++ (acl ∷ []), pos 0)

unfoldable pub insert_checked : List Acl → List ℕ → SockAddr → Option ℤ → List Acl × ℤ
insert_checked acls rule addr none = (acls, einval)
insert_checked acls rule addr (some mask_bits) =
    insert acls (record { rule = rule; addr = addr; mask_bits = mask_bits })

-- Another family leaves `ret` 0.
unfoldable pub add_resolved : List Acl → List ℕ → ℤ → Resolved → List Acl × ℤ
add_resolved acls rule mask_bits (failed ret) = (acls, ret)
add_resolved acls rule mask_bits (resolved (inet a)) =
    insert_checked acls rule (inet a) (check_mask 32 mask_bits)
add_resolved acls rule mask_bits (resolved (inet6 a)) =
    insert_checked acls rule (inet6 a) (check_mask 128 mask_bits)
add_resolved acls rule mask_bits (resolved unspec) = (acls, pos 0)

-- `priskv_acl_add`: the list and what is returned.
unfoldable pub acl_add : (List ℕ → Resolved) → List Acl → List ℕ → List Acl × ℤ
acl_add acl_addr acls rule =
    if same_nocase rule acl_any
    then insert acls (record { rule = rule; addr = unspec; mask_bits = pos 0 })
    else add_resolved acls rule (split_rule rule).1 (acl_addr (split_rule rule).0)

-- `priskv_acl_del`
unfoldable pub acl_del : List Acl → List ℕ → List Acl × ℤ
acl_del [] rule = ([], enoent)
acl_del (acl ∷ acls) rule =
    let (rest, ret) = acl_del acls rule in
    if same_nocase acl.rule rule then (acls, pos 0) else (acl ∷ rest, ret)

-- `priskv_acl_verify`; `none` is a read outside the address.
unfoldable pub acl_verify : List Acl → SockAddr → Option ℤ
acl_verify [] addr = some eacces
acl_verify (acl ∷ acls) addr =
    let rest = acl_verify acls addr in
    if same_nocase acl.rule acl_any
    then some (pos 0)
    else elim (verify_addr acl.addr addr acl.mask_bits) [
      | none ↦ none
      | some ok ↦ if ok then some (pos 0) else rest
    ]

-- `priskv_acl_get_rules`
abbrev pub acl_get_rules : List Acl → List (List ℕ)
acl_get_rules acls = map (λ acl. acl.rule) acls
