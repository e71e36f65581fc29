-- ===== src/Acl/Verify.antt =====
-- An address that priskv_acl_add (server/acl.c) has allowed is one that priskv_acl_verify accepts.
use pris_kv.Base.{
  ℕ, zero, suc, ◌-◌, ◌*◌, ◌/◌, ◌%◌, ◌^◌, ◌≤◌, ◌<◌, ◌≡◌, ◌≢◌, inl, inr, arith, refl, sym, ap, subst,
  ◌∙◌, Option, none, some, true, false, List, [], ◌∷◌, ◌++◌, ltb, ◌==◌, get_elem?, length,
  Bool-cases, Option-cases,
}
use pris_kv.Base.Time.{ℤ, pos}
use pris_kv.Acl.{
  SockAddr, inet, inet6, unspec, Acl, Resolved, resolved, acl_any, same_nocase, split_rule,
  same_prefix, same_masked, verify_bytes, verify_addr, check_mask, insert_checked, add_resolved,
  acl_add, acl_verify,
}

-- An IPv4 or IPv6 address with all its bytes.
abbrev pub IsIp : SockAddr → Type 0
IsIp (inet a) = length a ≡ 4
IsIp (inet6 a) = length a ≡ 16
IsIp unspec = ⊥

same_prefix-same : (n : ℕ) (s : List ℕ) → same_prefix n s s ≡ true
unfolding same_prefix
same_prefix-same zero s = refl
same_prefix-same (suc n) [] = refl
same_prefix-same (suc n) (a ∷ s) = ground (arith, same_prefix-same n s)

get_elem?-below : (s : List ℕ) (i : ℕ) → i < length s → (a : ℕ) × (get_elem? s i ≡ some a)
get_elem?-below [] i h = absurd (omega (arith, h))
get_elem?-below (a ∷ s) zero h = (a, refl)
get_elem?-below (a ∷ s) (suc i) h = get_elem?-below s i (omega (arith, h))

same_masked-same : (s : List ℕ) (i m : ℕ) → i < length s → same_masked s s i m ≡ some true
unfolding same_masked
same_masked-same s i m h = let (a, e) = get_elem?-below s i h in ground (arith, e)

verify_bytes-same : (s : List ℕ) (n : ℕ) → n ≤ length s * 8 → verify_bytes s s (pos n) ≡ some true
unfolding verify_bytes
verify_bytes-same s n h = elim (Bool-cases (n % 8 == 0)) [
  | inl t ↦ ground (arith, t, same_prefix-same (n / 8) s)
  | inr f ↦
      let nz : n % 8 ≢ 0 = ground (arith, f) in
      let m = same_masked-same s (n / 8) (255 - (2 ^ (n % 8) - 1)) (omega (arith, nz, h)) in
      ground (arith, f, m, same_prefix-same (n / 8) s)
]

check_mask_lem :
    (limit n : ℕ) {m : ℤ} → check_mask limit (pos n) ≡ some m → (k : ℕ) × (m ≡ pos k) × (k ≤ limit)
unfolding check_mask
check_mask_lem limit n h = elim (Bool-cases (n == 0)) [
  | inl t ↦ (limit, ground (arith, h, t), omega arith)
  | inr f ↦ elim (Bool-cases (ltb limit n)) [
    | inl t ↦ absurd (ground (arith, h, f, t))
    | inr g ↦ (n, ground (arith, h, f, g), ground (arith, g))
  ]
]

skip :
    (x : Acl) (acls : List Acl) (addr : SockAddr)
    → same_nocase x.rule acl_any ≡ false
    → verify_addr x.addr addr x.mask_bits ≡ some false
    → acl_verify (x ∷ acls) addr ≡ acl_verify acls addr
unfolding acl_verify
skip x acls addr f e = ground (arith, f, e)

insert_checked_inv :
    (acls : List Acl) (rule : List ℕ) (addr : SockAddr) (o : Option ℤ) {acls' : List Acl}
    → insert_checked acls rule addr o ≡ (acls', pos 0)
    → (m : ℤ) × (o ≡ some m)
      × (acls' ≡ acls ++ (record { rule = rule; addr = addr; mask_bits = m } ∷ []))
unfolding insert_checked
insert_checked_inv acls rule addr none h = absurd (ground (arith, h))
insert_checked_inv acls rule addr (some m) h = (m, refl, ground (arith, h))

verify_last :
    (acls : List Acl) (acl : Acl) (addr : SockAddr)
    → acl_verify acls addr ≢ none
    → verify_addr acl.addr addr acl.mask_bits ≡ some true
    → acl_verify (acls ++ (acl ∷ [])) addr ≡ some (pos 0)
unfolding acl_verify
verify_last [] acl addr h v = ground (arith, v)
verify_last (x ∷ acls) acl addr h v = elim (Bool-cases (same_nocase x.rule acl_any)) [
  | inl t ↦ ground (arith, t)
  | inr f ↦ elim (Option-cases (verify_addr x.addr addr x.mask_bits)) [
    | inl n ↦ absurd (h (ground (arith, f, n)))
    | inr (b, e) ↦ elim (Bool-cases b) [
      | inl t ↦ ground (arith, f, e, t)
      | inr g ↦
          let rest =
            verify_last acls acl addr (subst (λ r. r ≢ none) (skip x acls addr f (e ∙ ap some g)) h)
              v in
          skip x (acls ++ (acl ∷ [])) addr f (e ∙ ap some g) ∙ rest
    ]
  ]
]

-- The rule that was added last.
abbrev pub added : List ℕ → SockAddr → ℤ → Acl
added rule addr mask_bits = record { rule = rule; addr = addr; mask_bits = mask_bits }

verify_addr-same :
    (addr : SockAddr) (n : ℕ) {acls' : List Acl} (acls : List Acl) (rule : List ℕ)
    → IsIp addr
    → add_resolved acls rule (pos n) (resolved addr) ≡ (acls', pos 0)
    → (m : ℤ) × (acls' ≡ acls ++ (added rule addr m ∷ [])) × (verify_addr addr addr m ≡ some true)
unfolding add_resolved verify_addr
verify_addr-same (inet a) n acls rule ip h =
    let (m, em, e) = insert_checked_inv acls rule (inet a) (check_mask 32 (pos n)) h in
    let (k, ek, le) = check_mask_lem 32 n em in
    (
      m,
      e,
      subst (λ x. verify_bytes a a x ≡ some true) (sym ek)
          (verify_bytes-same a k (omega (arith, ip, le))),
    )
verify_addr-same (inet6 a) n acls rule ip h =
    let (m, em, e) = insert_checked_inv acls rule (inet6 a) (check_mask 128 (pos n)) h in
    let (k, ek, le) = check_mask_lem 128 n em in
    (
      m,
      e,
      subst (λ x. verify_bytes a a x ≡ some true) (sym ek)
          (verify_bytes-same a k (omega (arith, ip, le))),
    )
verify_addr-same unspec n acls rule ip h = absurd ip

add_named :
    (acl_addr : List ℕ → Resolved) (acls : List Acl) (rule : List ℕ)
    → same_nocase rule acl_any ≡ false
    → acl_add acl_addr acls rule
      ≡ add_resolved acls rule (split_rule rule).1 (acl_addr (split_rule rule).0)
unfolding acl_add
add_named acl_addr acls rule f = ground (arith, f)

-- Where priskv_acl_add takes a rule with success, whose address is found and whose mask is not
-- negative, priskv_acl_verify accepts that address, provided that it read no byte outside an
-- address on the rules before.
pub acl_add-acl_verify :
    (acl_addr : List ℕ → Resolved) (acls : List Acl) (rule : List ℕ) (addr : SockAddr) (n : ℕ)
    {acls' : List Acl}
    → IsIp addr
    → same_nocase rule acl_any ≡ false
    → acl_addr (split_rule rule).0 ≡ resolved addr
    → (split_rule rule).1 ≡ pos n
    → acl_verify acls addr ≢ none
    → acl_add acl_addr acls rule ≡ (acls', pos 0)
    → acl_verify acls' addr ≡ some (pos 0)
acl_add-acl_verify acl_addr acls rule addr n {acls'} ip f r m h e =
    let at = sym (add_named acl_addr acls rule f) ∙ e in
    let at' : add_resolved acls rule (pos n) (resolved addr) ≡ (acls', pos 0) =
      subst (λ x. add_resolved acls rule (pos n) x ≡ (acls', pos 0)) r
        (subst (λ x. add_resolved acls rule x (acl_addr (split_rule rule).0) ≡ (acls', pos 0)) m
          at) in
    let (mask_bits, ea, v) = verify_addr-same addr n acls rule ip at' in
    subst (λ l. acl_verify l addr ≡ some (pos 0)) (sym ea)
      (verify_last acls (added rule addr mask_bits) addr h v)
