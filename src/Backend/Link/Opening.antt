-- ===== src/Backend/Link/Opening.antt =====
-- priskv_backend_open and priskv_backend_close of server/backend/backend.c: the devices that stay
-- open, and the end of the recursion over the address.
use mathlib.Core.Option.{some-injective}
use pris_kv.Base.{
  ℕ, zero, suc, ◌+◌, ◌<◌, ◌≤◌, ◌≡◌, ◌∙◌, Option, none, some, true, false, List, [], ◌∷◌, length,
  refl, ap, arith, inl, inr, Bool-cases, Option-cases,
}
use pris_kv.Backend.{Device, leaf, tier}
use pris_kv.Backend.Link.{
  Link, Plug, Closing, strchr, advance, make_link, is_empty, parse_link, find_driver, backend_close,
  clear_cache, with_child, open_from, backend_open,
}

-- How many devices a chain has, and the result of an open.
unfoldable pub depth : {S : Type 0} → Device S → ℕ
depth (leaf s) = 1
depth (tier s child) = suc (depth child)

unfoldable pub opened : {S : Type 0} → Option (Device S) → ℕ
opened none = 0
opened (some dev) = depth dev

-- What the devices that are open in the world outside, `held`, have to do with the calls: an open
-- adds one where it succeeds and none where it fails, closing an open device succeeds and takes one
-- away, and a clearup leaves them.
pub record Balanced {E S : Type 0} (drivers : List (Plug E S)) (ends : Closing E S) (held : E → ℕ)
    : Type 0 where
  pub opens :
      (name : List ℕ) {p : Plug E S}
      → find_driver drivers name ≡ some p
      → (e : E) (link : Link) (s : S) → (p.open_device e link).1 ≡ some s
      → held (p.open_device e link).0 ≡ suc (held e)
  pub fails :
      (name : List ℕ) {p : Plug E S}
      → find_driver drivers name ≡ some p
      → (e : E) (link : Link) → (p.open_device e link).1 ≡ none
      → held (p.open_device e link).0 ≡ held e
  pub closes :
      (e : E) (s : S)
      → 0 < held e
      → (suc (held (ends.close_device e s).0) ≡ held e) × ((ends.close_device e s).1 ≡ true)
  pub clears : (e : E) (s : S) → held (ends.clearup e s).0 ≡ held e

module _ {E S : Type 0} {drivers : List (Plug E S)} {ends : Closing E S} {held : E → ℕ}
    (law : Balanced drivers ends held) where
  backend_close_lem :
      (dev : Device S) (e : E)
      → depth dev ≤ held e
      → (held (backend_close ends e dev).0 + depth dev ≡ held e)
        × ((backend_close ends e dev).1 ≡ true)
  unfolding backend_close depth
  backend_close_lem (leaf s) e h = let (a, b) = law.closes e s (omega arith) in (omega arith, b)
  backend_close_lem (tier s child) e h =
      let (a, b) = backend_close_lem child e (omega arith) in
      let (x, y) = law.closes (backend_close ends e child).0 s (omega arith) in
      rw b (omega arith, y)

  with_child_lem :
      (s : S) (n : ℕ) (r : E × Option (Device S))
      → held r.0 ≡ suc n + opened r.1
      → held (with_child ends s r).0 ≡ n + opened (with_child ends s r).1
  unfolding with_child clear_cache opened depth
  with_child_lem s n (e, none) h = let (a, b) = law.closes e s (omega arith) in omega arith
  with_child_lem s n (e, some child) h = elim (Bool-cases (ends.clearup e s).2) [
    | inl f ↦ rw f (omega (arith, law.clears e s))
    | inr f ↦
        let (a, b) =
          backend_close_lem (tier (ends.clearup e s).1 child) (ends.clearup e s).0
            (omega (arith, law.clears e s)) in
        rw f (omega (arith, law.clears e s))
  ]

  held-open_from :
      (fuel : ℕ) (e : E) (a : Option (List ℕ))
      → held (open_from ends drivers fuel e a).0
        ≡ held e + opened (open_from ends drivers fuel e a).1
  unfolding open_from opened depth
  held-open_from zero e a = omega arith
  held-open_from (suc fuel) e a = elim (Option-cases (parse_link a)) [
    | inl f ↦ rw (f, open_from) (omega arith)
    | inr (link, f) ↦ elim (Option-cases (find_driver drivers link.protocol)) [
      | inl g ↦ rw (f, g, open_from) (omega arith)
      | inr (p, g) ↦ elim (Option-cases (p.open_device e link).1) [
        | inl h ↦ rw (f, g, h, open_from) (omega (arith, law.fails link.protocol g e link h))
        | inr (s, h) ↦ elim (Option-cases link.childaddr) [
          | inl c ↦ rw (f, g, h, c, open_from) (omega (arith, law.opens link.protocol g e link s h))
          | inr (child, c) ↦
              let e' = (p.open_device e link).0 in
              rw (f, g, h, c, open_from)
                (with_child_lem s (held e) (open_from ends drivers fuel e' (some child)) (
                  omega (
                    arith,
                    held-open_from fuel e' (some child),
                    law.opens link.protocol g e link s h,
                  )))
        ]
      ]
    ]
  ]

  held-backend_open :
      (e : E) (a : Option (List ℕ))
      → held (backend_open ends drivers e a).0 ≡ held e + opened (backend_open ends drivers e a).1
  unfolding backend_open
  held-backend_open e none = held-open_from 1 e none
  held-backend_open e (some s) = held-open_from (suc (length s)) e (some s)

  -- Opening a chain of devices holds open the devices of the chain that it returns, and none when
  -- it fails, at whichever link and step that happens; closing a chain that was opened succeeds and
  -- gives back all of them. It is asked that the calls of the drivers are balanced.
  pub backend_open-backend_close :
      (e : E) (a : Option (List ℕ))
      → (held (backend_open ends drivers e a).0 ≡ held e + opened (backend_open ends drivers e a).1)
        × ((dev : Device S)
            → (backend_open ends drivers e a).1 ≡ some dev
            → (held (backend_close ends (backend_open ends drivers e a).0 dev).0 ≡ held e)
              × ((backend_close ends (backend_open ends drivers e a).0 dev).1 ≡ true))
  unfolding opened
  backend_open-backend_close e a =
      let q = held-backend_open e a in
      (
        q,
        λ dev h.
            let n : opened (backend_open ends drivers e a).1 ≡ depth dev = ap opened h in
            let (x, y) =
              backend_close_lem dev (backend_open ends drivers e a).0 (omega (arith, q, n)) in
            (omega (arith, q, n, x), y),
      )

length-advance : (n : ℕ) (s : List ℕ) → length (advance n s) ≤ length s
unfolding advance
length-advance zero s = omega arith
length-advance (suc n) [] = omega arith
length-advance (suc n) (x ∷ s) = omega (arith, length-advance n s)

make_link-child :
    (s : List ℕ) (delim : ℕ) (o : Option ℕ) (child : List ℕ)
    → is_empty s ≡ false
    → (make_link s delim o).childaddr ≡ some child
    → length child < length s
unfolding make_link is_empty advance
make_link-child [] delim o child ne h = absurd (cc ne)
make_link-child (x ∷ s) delim none child ne h = absurd (cc h)
make_link-child (x ∷ s) delim (some end) child ne h =
    omega (arith, length-advance end s, ap length (some-injective _ _ h))

-- The address of a child is shorter than the one it is part of.
parse_link-child :
    (s : List ℕ) {link : Link} {child : List ℕ}
    → parse_link (some s) ≡ some link
    → link.childaddr ≡ some child
    → length child < length s
unfolding parse_link
parse_link-child s {link} {child} h c = elim (Bool-cases (is_empty s)) [
  | inl e ↦ absurd (ground (arith, e, h))
  | inr e ↦ elim (Option-cases (strchr s b':')) [
    | inl f ↦ absurd (ground (arith, e, f, h))
    | inr (delim, f) ↦
        let made : make_link s delim (strchr s b';') ≡ link = ground (arith, e, f, h) in
        make_link-child s delim (strchr s b';') child e (ap (λ (l : Link). l.childaddr) made ∙ c)
  ]
]

module _ {E S : Type 0} (drivers : List (Plug E S)) (ends : Closing E S) where
  open_from_same :
      (fuel fuel' : ℕ) (e : E) (s : List ℕ)
      → length s < fuel
      → length s < fuel'
      → open_from ends drivers fuel e (some s) ≡ open_from ends drivers fuel' e (some s)
  unfolding open_from
  open_from_same zero fuel' e s h h' = absurd (omega arith)
  open_from_same (suc fuel) zero e s h h' = absurd (omega arith)
  open_from_same (suc fuel) (suc fuel') e s h h' = elim (Option-cases (parse_link (some s))) [
    | inl f ↦ rw (f, open_from) refl
    | inr (link, f) ↦ elim (Option-cases (find_driver drivers link.protocol)) [
      | inl g ↦ rw (f, g, open_from) refl
      | inr (p, g) ↦ elim (Option-cases (p.open_device e link).1) [
        | inl o ↦ rw (f, g, o, open_from) refl
        | inr (d, o) ↦ elim (Option-cases link.childaddr) [
          | inl c ↦ rw (f, g, o, c, open_from) refl
          | inr (child, c) ↦
              let e' = (p.open_device e link).0 in
              let less = parse_link-child s f c in
              rw (f, g, o, c, open_from)
                (ap (with_child ends d)
                  (open_from_same fuel fuel' e' child (omega arith) (omega arith)))
        ]
      ]
    ]
  ]

  -- The recursion over an address ends: any fuel above the length of the address gives the same
  -- result, that of `backend_open`.
  pub open_from_enough :
      (fuel : ℕ) (e : E) (s : List ℕ)
      → length s < fuel
      → open_from ends drivers fuel e (some s) ≡ backend_open ends drivers e (some s)
  unfolding backend_open
  open_from_enough fuel e s h = open_from_same fuel (suc (length s)) e s h (omega arith)
