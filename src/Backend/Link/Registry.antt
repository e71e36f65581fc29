-- ===== src/Backend/Link/Registry.antt =====
-- The list of drivers of server/backend/backend.c: priskv_backend_register and
-- priskv_backend_find_driver.
use pris_kv.Base.{ℕ, ◌≡◌, none, some, List, [], ◌∷◌, ◌++◌, refl, arith, inl, inr, Bool-cases}
use pris_kv.Kv.Find.{same_bytes, same_bytes_refl}
use pris_kv.Backend.Link.{Plug, find_driver, backend_register}

module _ {E S : Type 0} where
  -- A driver at the end of the list is found where no other has its name.
  find_driver-append :
      (list : List (Plug E S)) (p : Plug E S)
      → find_driver list p.name ≡ none
      → find_driver (list ++ p ∷ []) p.name ≡ some p
  unfolding find_driver
  find_driver-append [] p h = rw (same_bytes_refl p.name) refl
  find_driver-append (q ∷ list) p h = elim (Bool-cases (same_bytes q.name p.name)) [
    | inl e ↦ absurd (ground (arith, e, h))
    | inr e ↦ rw e (find_driver-append list p (ground (arith, e, h)))
  ]

  find_driver-append_old :
      (list : List (Plug E S)) (p : Plug E S) (name : List ℕ) {q : Plug E S}
      → find_driver list name ≡ some q
      → find_driver (list ++ p ∷ []) name ≡ some q
  unfolding find_driver
  find_driver-append_old [] p name h = absurd (cc h)
  find_driver-append_old (x ∷ list) p name h = elim (Bool-cases (same_bytes x.name name)) [
    | inl e ↦ rw e (ground (arith, e, h))
    | inr e ↦ rw e (find_driver-append_old list p name (ground (arith, e, h)))
  ]

  -- Registering a driver succeeds where no driver has its name; then the driver is found by its
  -- name and every other one as before, and registering its name once more fails the assertion.
  pub backend_register-find_driver :
      (list : List (Plug E S)) (p : Plug E S)
      → find_driver list p.name ≡ none
      → (list' : List (Plug E S)) × (backend_register list p ≡ some list')
        × (find_driver list' p.name ≡ some p)
        × ((name : List ℕ) (q : Plug E S)
            → find_driver list name ≡ some q
            → find_driver list' name ≡ some q)
        × (backend_register list' p ≡ none)
  unfolding backend_register
  backend_register-find_driver list p h =
      let found = find_driver-append list p h in
      (
        list ++ p ∷ [],
        rw (h, backend_register) refl,
        found,
        λ name q. find_driver-append_old list p name,
        rw (found, backend_register) refl,
      )
