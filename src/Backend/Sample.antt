-- ===== src/Backend/Sample.antt =====
-- A driver of a tiering device in memory, for the tests: it stands for none of the drivers of
-- server/backend.
use pris_kv.Base.{ℕ, Option, none, some, List, [], ◌∷◌, ◌++◌, length, ltb, leb, if◌then◌else◌}
use pris_kv.Kv.Find.{same_bytes}
use pris_kv.Backend.{
  Answer, Got, Driver, status_ok, status_not_found, status_no_space, status_value_too_big,
}
use pris_kv.Backend.Link.{advance}

abbrev pub Entries : Type 0
Entries = List (List ℕ × List ℕ)

unfoldable pub lookup : Entries → List ℕ → Option (List ℕ)
lookup [] k = none
lookup ((key, v) ∷ s) k = if same_bytes key k then some v else lookup s k

unfoldable pub without : Entries → List ℕ → Entries
without [] k = []
without ((key, v) ∷ s) k = if same_bytes key k then without s k else (key, v) ∷ without s k

unfoldable pub fetch : List ℕ → Option (List ℕ) → Got
fetch val none = record { status = status_not_found; length = 0; val = val }
fetch val (some v) =
    if leb (length v) (length val)
    then record { status = status_ok; length = length v; val = v ++ advance (length v) val }
    else record { status = status_value_too_big; length = length v; val = val }

unfoldable pub probe : Option (List ℕ) → Answer
probe none = record { status = status_not_found; length = 0 }
probe (some v) = record { status = status_ok; length = length v }

unfoldable pub forget_all : Entries → Entries × Answer
forget_all [] = ([], record { status = status_no_space; length = 0 })
forget_all (x ∷ s) = ([], record { status = status_ok; length = 0 })

-- Two places, and an eviction that empties both.
unfoldable pub memory : Driver Entries
memory = record {
  is_cacheable = λ s n. ltb (length s) 2;
  get = λ s key val. (s, fetch val (lookup s key));
  set = λ s key val t.
      if ltb (length (without s key)) 2
      then ((key, val) ∷ without s key, record { status = status_ok; length = length val })
      else (s, record { status = status_no_space; length = 0 });
  del = λ s key. (without s key, record { status = status_ok; length = 0 });
  test = λ s key. (s, probe (lookup s key));
  evict = forget_all;
  entries = length;
}
