-- ===== src/Buddy/RoundTrip.antt =====
-- `priskv_buddy_free` after `priskv_buddy_alloc`.
use pris_kv.Base.{ℕ, ◌≤◌, ◌<◌, ◌≡◌, ◌≢◌, inl, inr, arith, some, subst, refl, ap, ◌∙◌}
use pris_kv.Base.Word.{u32_mod}
use pris_kv.Base.Pow.{pow2_pos, pow2_mono}
use pris_kv.Buddy.{Buddy, alloc, free}
use pris_kv.Buddy.Node.{Node, level-le}
use pris_kv.Buddy.Inv.{Used, Handed-zero}
use pris_kv.Buddy.Valid.{IsValid, address, Shape-unique}
use pris_kv.Buddy.Alloc.{alloc_lem, HandedOut}
use pris_kv.Buddy.Free.{free_lem, TakenBack}

-- To take a block back undoes handing it out.
undo :
    {n i j : ℕ} {b b' b'' : Buddy}
    → IsValid n b
    → b.inuse < u32_mod
    → HandedOut n b b' i j
    → TakenBack n b' b'' i j
    → ((x k : ℕ) → Node n x k → b''.meta x ≡ b.meta x) × (b''.inuse ≡ b.inuse)
undo {n} {i} {j} {b} {b'} {b''} v small h t = (
  λ x k d. Shape-unique t.valid.shape v.shape back forth k x d,
  omega (arith, h.inuse, t.inuse, pow2_mono j n (level-le h.node), v.small),
)
  where
    other : (x k : ℕ) → Used n b.meta x k → x ≢ i
    other x k u e =
        omega (arith, h.was_free, ap b.meta e, Handed-zero b.meta x k u.handed, pow2_pos j)

    back : (x k : ℕ) → Used n b''.meta x k → Used n b.meta x k
    back x k u = elim (h.only x k (t.only x k u).0) [
      | inl w ↦ w
      | inr e ↦ absurd ((t.only x k u).1 e)
    ]

    forth : (x k : ℕ) → Used n b.meta x k → Used n b''.meta x k
    forth x k u = t.kept x k (h.kept x k u) (other x k u)

same_address : {n i j : ℕ} {b b' : Buddy} → HandedOut n b b' i j → address b' i j ≡ address b i j
same_address {i = i} {j = j} h = rw (h.place.0, h.place.1, h.place.2) refl

-- On a well-formed allocator, whatever address `priskv_buddy_alloc` returns for a request of 1 byte
-- to 2^31, `priskv_buddy_free` of it fails no assertion, and gives back `inuse` and the value that
-- each node of the tree had before.
pub alloc-free :
    {n : ℕ} {b b' : Buddy} {a : ℕ} (size : ℕ)
    → IsValid n b
    → b.inuse < u32_mod
    → 0 < size
    → size ≤ 2147483648
    → alloc b size ≡ some (b', some a)
    → (b'' : Buddy) × (free b' a ≡ some b'')
      × IsValid n b''
      × ((x k : ℕ) → Node n x k → b''.meta x ≡ b.meta x)
      × (b''.inuse ≡ b.inuse)
alloc-free {n} {b} {b'} {a} size v word p small e =
    let (j, fits, r) = alloc_lem size v p small in
    elim r [
      | inl (null, full) ↦ absurd (cc (null, e))
      | inr (i, c, done, h) ↦
          let state : c ≡ b' = cc (done, e) in
          let place : address c i j ≡ a = same_address h ∙ cc (done, e) in
          let (b'', freed, t) = free_lem h.valid h.new in
          let (metas, count) = undo v word h t in
          (
            b'',
            subst (λ z. free z a ≡ some b'') state (subst (λ z. free c z ≡ some b'') place freed),
            t.valid,
            metas,
            count,
          )
    ]
