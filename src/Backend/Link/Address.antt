-- ===== src/Backend/Link/Address.antt =====
-- parse_link of server/backend/backend.c against the way an address is written:
-- "protocol:address;childaddr".
use mathlib.Core.List.{append_assoc, append-nil}
use pris_kv.Base.{
  ℕ, suc, ◌+◌, ◌-◌, ◌%◌, ◌<◌, ◌≡◌, ◌∙◌, Option, none, some, true, false, List, [], ◌∷◌, ◌++◌, ◌==◌,
  take, length, refl, sym, ap, ap₂, arith, inl, inr, Bool-cases, length-append, Option-cases,
}
use pris_kv.Base.Word.{u64_mod}
use pris_kv.Backend.Link.{
  Link, strchr, advance, address_part, make_link, is_empty, is_complete, parse_link,
}

-- How a link is written.
unfoldable pub written : Link → List ℕ
written link =
    link.protocol
    ++ b':' ∷ (link.address ++ elim link.childaddr [ none ↦ [] | some child ↦ b';' ∷ child ])

strchr-first : (p t : List ℕ) (c : ℕ) → strchr p c ≡ none → strchr (p ++ c ∷ t) c ≡ some (length p)
unfolding strchr
strchr-first [] t c h = ground arith
strchr-first (x ∷ p) t c h = elim (Bool-cases (x == c)) [
  | inl e ↦ absurd (ground (arith, e, h))
  | inr e ↦ elim (Option-cases (strchr p c)) [
    | inl f ↦ rw (e, strchr-first p t c f)
    | inr (i, f) ↦ absurd (ground (arith, e, f, h))
  ]
]

strchr-absent :
    (p s : List ℕ) (c : ℕ) → strchr p c ≡ none → strchr s c ≡ none → strchr (p ++ s) c ≡ none
unfolding strchr
strchr-absent [] s c h k = k
strchr-absent (x ∷ p) s c h k = elim (Bool-cases (x == c)) [
  | inl e ↦ absurd (ground (arith, e, h))
  | inr e ↦ elim (Option-cases (strchr p c)) [
    | inl f ↦ rw (e, strchr-absent p s c f k)
    | inr (i, f) ↦ absurd (ground (arith, e, f, h))
  ]
]

take-append : (p t : List ℕ) → take (length p) (p ++ t) ≡ p
take-append [] t = refl
take-append (x ∷ p) t = ap (◌∷◌ x) (take-append p t)

advance-append : (p t : List ℕ) → advance (length p) (p ++ t) ≡ t
unfolding advance
advance-append [] t = refl
advance-append (x ∷ p) t = advance-append p t

advance-append_suc : (p t : List ℕ) (c : ℕ) → advance (suc (length p)) (p ++ c ∷ t) ≡ t
unfolding advance
advance-append_suc [] t c = refl
advance-append_suc (x ∷ p) t c = advance-append_suc p t c

strchr_cons : (a : List ℕ) → strchr a b';' ≡ none → strchr (b':' ∷ a) b';' ≡ none
unfolding strchr
strchr_cons a h = rw h

-- The separator of the child is after the address.
strchr-address :
    (p a t : List ℕ)
    → strchr p b';' ≡ none
    → strchr a b';' ≡ none
    → strchr (p ++ b':' ∷ (a ++ b';' ∷ t)) b';' ≡ some (length p + suc (length a))
strchr-address p a t hp ha =
    ap (λ s. strchr s b';') (sym (append_assoc p (b':' ∷ a) (b';' ∷ t)))
    ∙ (strchr-first (p ++ b':' ∷ a) t b';' (strchr-absent p (b':' ∷ a) b';' hp (strchr_cons a ha))
        ∙ ap some (length-append p (b':' ∷ a)))

-- The unsigned difference of two places that are in order.
part_length : (x y : ℕ) → x + suc y < u64_mod → (x + suc y + u64_mod - x - 1) % u64_mod ≡ y
part_length x y h = omega arith

parse_link_parts :
    (s : List ℕ) (delim : ℕ) (o : Option ℕ) (link : Link)
    → is_empty s ≡ false
    → strchr s b':' ≡ some delim
    → strchr s b';' ≡ o
    → make_link s delim o ≡ link
    → is_complete link ≡ true
    → parse_link (some s) ≡ some link
unfolding parse_link
parse_link_parts s delim o link ne c e m h = rw (ne, c, e, m, h)

is_empty-append : (p s : List ℕ) (c : ℕ) → is_empty (p ++ c ∷ s) ≡ false
unfolding is_empty
is_empty-append [] s c = refl
is_empty-append (x ∷ p) s c = refl

last_lem :
    (p a : List ℕ)
    → strchr p b':' ≡ none
    → strchr p b';' ≡ none
    → strchr a b';' ≡ none
    → is_complete (record { protocol = p; address = a; childaddr = none }) ≡ true
    → parse_link (some (p ++ b':' ∷ a))
      ≡ some (record { protocol = p; address = a; childaddr = none })
unfolding make_link
last_lem p a colon semicolon separator h =
    parse_link_parts (p ++ b':' ∷ a) (length p) none _ (is_empty-append p a b':')
      (strchr-first p a b':' colon)
      (strchr-absent p (b':' ∷ a) b';' semicolon (strchr_cons a separator))
      (rw (take-append p (b':' ∷ a), advance-append_suc p a b':')) h

inner_lem :
    (p a t : List ℕ)
    → strchr p b':' ≡ none
    → strchr p b';' ≡ none
    → strchr a b';' ≡ none
    → length p + suc (length a) < u64_mod
    → is_complete (record { protocol = p; address = a; childaddr = some t }) ≡ true
    → parse_link (some (p ++ b':' ∷ (a ++ b';' ∷ t)))
      ≡ some (record { protocol = p; address = a; childaddr = some t })
unfolding make_link address_part
inner_lem p a t colon semicolon separator fits h =
    let s = p ++ b':' ∷ (a ++ b';' ∷ t) in
    let rest : advance (suc (length p + suc (length a))) s ≡ t =
      ap₂ (λ n l. advance (suc n) l) (sym (length-append p (b':' ∷ a)))
        (sym (append_assoc p (b':' ∷ a) (b';' ∷ t)))
      ∙ advance-append_suc (p ++ b':' ∷ a) t b';' in
    parse_link_parts s (length p) (some (length p + suc (length a))) _
      (is_empty-append p (a ++ b';' ∷ t) b':') (strchr-first p (a ++ b';' ∷ t) b':' colon)
      (strchr-address p a t semicolon separator)
      (rw (
        part_length (length p) (length a) fits,
        take-append p (b':' ∷ (a ++ b';' ∷ t)),
        advance-append_suc p (a ++ b';' ∷ t) b':',
        take-append a (b';' ∷ t),
        rest,
      ))
      h

written_lem :
    (p a : List ℕ) (o : Option (List ℕ))
    → is_complete (record { protocol = p; address = a; childaddr = o }) ≡ true
    → strchr p b':' ≡ none
    → strchr p b';' ≡ none
    → strchr a b';' ≡ none
    → length (written (record { protocol = p; address = a; childaddr = o })) < u64_mod
    → parse_link (some (written (record { protocol = p; address = a; childaddr = o })))
      ≡ some (record { protocol = p; address = a; childaddr = o })
unfolding written
written_lem p a none h colon semicolon separator fits =
    ap (λ s. parse_link (some (p ++ b':' ∷ s))) (append-nil a)
    ∙ last_lem p a colon semicolon separator h
written_lem p a (some t) h colon semicolon separator fits =
    inner_lem p a t colon semicolon separator
      (omega (arith, fits, length-append p (b':' ∷ (a ++ b';' ∷ t)), length-append a (b';' ∷ t))) h

-- Where ':' and ';' separate the parts of a link, the address is read as it was written: both the
-- last link of a chain and a link with a child. It is asked that no part is empty, that the
-- protocol has neither separator and the address no ';', and that the string fits the memory.
pub parse_link-written :
    (link : Link)
    → is_complete link ≡ true
    → strchr link.protocol b':' ≡ none
    → strchr link.protocol b';' ≡ none
    → strchr link.address b';' ≡ none
    → length (written link) < u64_mod
    → parse_link (some (written link)) ≡ some link
parse_link-written link = written_lem link.protocol link.address link.childaddr
