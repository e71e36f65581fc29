-- ===== src/Backend/Through.antt =====
-- SET and DEL through the chain of devices of server/backend/backend.c, whatever the drivers do: the
-- last device is asked, and then the devices above it forget the key.
use pris_kv.Base.{ℕ, ◌≡◌, true, false, List, [], ◌∷◌, map, refl, ap, inl, inr, Bool-cases}
use pris_kv.Backend.{
  Answer, Driver, Device, leaf, tier, is_ok, child_set_cb, backend_set, backend_del,
}

-- The last device of a chain, and those above it.
unfoldable pub last : {S : Type 0} → Device S → S
last (leaf s) = s
last (tier s child) = last child

unfoldable pub caches : {S : Type 0} → Device S → List S
caches (leaf s) = []
caches (tier s child) = s ∷ caches child

module _ {S : Type 0} (d : Driver S) (key : List ℕ) where
  -- Each of the devices answers with OK when it is to delete the key.
  unfoldable pub Deleted : List S → Type 0
  Deleted [] = Unit {0}
  Deleted (s ∷ l) = (is_ok (d.del s key).1.status ≡ true) × Deleted l

  -- From `dev` to `dev'` and the answer `a`, where `b` is what the last device makes of the request:
  -- it is asked once. When it refuses, no device above it is asked, and the answer is its own. When
  -- the answer is a success, it has succeeded, and so has each device above it in deleting the key.
  pub record Through (b : S × Answer) (dev dev' : Device S) (a : Answer) : Type 0 where
    pub asked : last dev' ≡ b.0
    pub refused : is_ok b.1.status ≡ false → (caches dev' ≡ caches dev) × (a ≡ b.1)
    pub done :
        is_ok a.status ≡ true
        → (is_ok b.1.status ≡ true)
          × (caches dev' ≡ map (λ s. (d.del s key).0) (caches dev))
          × Deleted (caches dev)

  Through-leaf : (s : S) (b : S × Answer) → Through b (leaf s) (leaf b.0) b.1
  unfolding last caches Deleted
  Through-leaf s b = record { asked = refl; refused = λ e. (refl, refl); done = λ e. (e, refl, tt) }

  -- One more device, with `priskv_backend_child_set_cb`.
  Through-tier :
      (s : S) (b : S × Answer) (dev dev' : Device S) (a : Answer)
      → Through b dev dev' a
      → let r = child_set_cb d s key (dev', a) in Through b (tier s dev) r.0 r.1
  unfolding child_set_cb last caches Deleted
  Through-tier s b dev dev' a q = elim (Bool-cases (is_ok a.status)) [
    | inl e ↦
        let (fine, all, each) = q.done e in
        rw e (record {
          asked = q.asked;
          refused = λ f. absurd (cc (f, fine));
          done = λ f. (fine, ap (λ l. (d.del s key).0 ∷ l) all, (f, each));
        })
    | inr e ↦ rw e (record {
      asked = q.asked;
      refused = λ f. (ap (λ l. s ∷ l) (q.refused f).0, (q.refused f).1);
      done = λ f. absurd (cc (e, f));
    })
  ]

  -- A SET goes to the last device of the chain, which is asked once with the value, whatever it
  -- answers; when it refuses, the devices above are not asked and the answer is its own; when the SET
  -- is answered with OK, the last device has said OK, and each device above has been told to delete
  -- the key and has said OK.
  pub backend_set_lem :
      (dev : Device S) (val : List ℕ) (timeout : ℕ)
      → let r = backend_set d dev key val timeout in
        Through (d.set (last dev) key val timeout) dev r.0 r.1
  unfolding backend_set last
  backend_set_lem (leaf s) val timeout = Through-leaf s (d.set s key val timeout)
  backend_set_lem (tier s child) val timeout =
      let r = backend_set d child key val timeout in
      Through-tier s (d.set (last child) key val timeout) child r.0 r.1
        (backend_set_lem child val timeout)

  pub backend_del_lem :
      (dev : Device S) → let r = backend_del d dev key in Through (d.del (last dev) key) dev r.0 r.1
  unfolding backend_del last
  backend_del_lem (leaf s) = Through-leaf s (d.del s key)
  backend_del_lem (tier s child) =
      let r = backend_del d child key in
      Through-tier s (d.del (last child) key) child r.0 r.1 (backend_del_lem child)
