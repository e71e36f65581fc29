-- ===== src/Backend/Link.antt =====
-- server/backend/backend.c and policy.c: the address of a device and of its children, the lists of
-- drivers and policies, and how a chain of devices is opened and closed. A C string is the list of
-- its bytes before the 0, `none` the null pointer.
pub mod Address
pub mod Registry
pub mod Opening
mod Tests
use pris_kv.Base.{
  ℕ, zero, suc, ◌+◌, ◌-◌, ◌%◌, Option, none, some, Bool, true, false, List, [], ◌∷◌, ◌++◌, ◌==◌,
  take, length, not, ◌&&◌, if◌then◌else◌,
}
use pris_kv.Base.Word.{u64_mod}
use pris_kv.Kv.Find.{same_bytes}
use pris_kv.Backend.{Device, leaf, tier}

-- `priskv_backend_link`
pub record Link : Type 0 where
  pub protocol : List ℕ
  pub address : List ℕ
  pub childaddr : Option (List ℕ)

-- `strchr`, as the distance from the start
unfoldable pub strchr : List ℕ → ℕ → Option ℕ
strchr [] c = none
strchr (x ∷ s) c =
    let rest = strchr s c in
    if x == c then some 0 else elim rest [ none ↦ none | some i ↦ some (suc i) ]

-- `s + n`
unfoldable pub advance : ℕ → List ℕ → List ℕ
advance zero s = s
advance (suc n) [] = []
advance (suc n) (x ∷ s) = advance n s

-- `strndup(delim + 1, end - delim - 1)`, where the difference is taken as an unsigned number.
unfoldable pub address_part : List ℕ → ℕ → ℕ → List ℕ
address_part s delim end = take ((end + u64_mod - delim - 1) % u64_mod) (advance (suc delim) s)

unfoldable pub make_link : List ℕ → ℕ → Option ℕ → Link
make_link s delim none = record {
  protocol = take delim s;
  address = advance (suc delim) s;
  childaddr = none;
}
make_link s delim (some end) = record {
  protocol = take delim s;
  address = address_part s delim end;
  childaddr = some (advance (suc end) s);
}

unfoldable pub is_empty : List ℕ → Bool
is_empty [] = true
is_empty (x ∷ s) = false

unfoldable pub is_complete : Link → Bool
is_complete link =
    not (is_empty link.protocol)
    && (not (is_empty link.address)
        && elim link.childaddr [ none ↦ true | some s ↦ not (is_empty s) ])

-- `parse_link`; `none` is -EINVAL.
unfoldable pub parse_link : Option (List ℕ) → Option Link
parse_link none = none
parse_link (some s) = if is_empty s then none else elim (strchr s b':') [
  | none ↦ none
  | some delim ↦
      let link = make_link s delim (strchr s b';') in if is_complete link then some link else none
]

-- `open` of a driver, with its name. `E` is the world outside: the files and the connections.
pub record Plug (E S : Type 0) : Type 0 where
  pub name : List ℕ
  pub open_device : E → Link → E × Option S

-- `close` and `clearup` of an open device, which return whether they have succeeded.
pub record Closing (E S : Type 0) : Type 0 where
  pub close_device : E → S → E × Bool
  pub clearup : E → S → E × S × Bool

module _ {E S : Type 0} where
  -- `priskv_backend_find_driver`
  unfoldable pub find_driver : List (Plug E S) → List ℕ → Option (Plug E S)
  find_driver [] name = none
  find_driver (p ∷ list) name = if same_bytes p.name name then some p else find_driver list name

  -- `priskv_backend_register`; `none` is a failed assertion.
  unfoldable pub backend_register : List (Plug E S) → Plug E S → Option (List (Plug E S))
  backend_register list p = elim (find_driver list p.name) [
    | none ↦ some (list ++ p ∷ [])
    | some other ↦ none
  ]

  module _ (ends : Closing E S) where
    -- `priskv_backend_close`
    unfoldable pub backend_close : E → Device S → E × Bool
    backend_close e (leaf s) = ends.close_device e s
    backend_close e (tier s child) =
        let (e', done) = backend_close e child in
        if done then ends.close_device e' s else (e', false)

    -- The rest of `priskv_backend_open`, when the child is open.
    unfoldable pub clear_cache : E → S → Device S → E × Option (Device S)
    clear_cache e s child =
        let (e', s', done) = ends.clearup e s in
        if done then (e', some (tier s' child)) else ((backend_close e' (tier s' child)).0, none)

    -- The rest of `priskv_backend_open`, when the child was tried.
    unfoldable pub with_child : S → E × Option (Device S) → E × Option (Device S)
    with_child s (e, none) = ((ends.close_device e s).0, none)
    with_child s (e, some child) = clear_cache e s child

    module _ (drivers : List (Plug E S)) where
      -- `priskv_backend_open`, which calls itself on the rest of the address.
      unfoldable pub open_from : ℕ → E → Option (List ℕ) → E × Option (Device S)
      open_from zero e address = (e, none)
      open_from (suc fuel) e address = elim (parse_link address) [
        | none ↦ (e, none)
        | some link ↦ elim (find_driver drivers link.protocol) [
          | none ↦ (e, none)
          | some p ↦
              let (e', opened) = p.open_device e link in
              elim opened [
                | none ↦ (e', none)
                | some s ↦ elim link.childaddr [
                  | none ↦ (e', some (leaf s))
                  | some child ↦ with_child s (open_from fuel e' (some child))
                ]
              ]
        ]
      ]

      unfoldable pub backend_open : E → Option (List ℕ) → E × Option (Device S)
      backend_open e none = open_from 1 e none
      backend_open e (some s) = open_from (suc (length s)) e (some s)
