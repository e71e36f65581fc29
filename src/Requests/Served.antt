-- ===== src/Requests/Served.antt =====
-- The server of server/rdma.c over the whole run of a connection: requests come, and the pieces of
-- their transfers are done, in any order.
use mathlib.Core.Option.{some-injective}
use pris_kv.Base.{
  ℕ, zero, suc, ◌+◌, ◌%◌, ◌≤◌, ◌<◌, ◌≡◌, ◌∙◌, inl, inr, arith, refl, sym, ap, subst, fun_ext,
  Option, none, some, Bool, true, List, [], ◌∷◌, ltb, leb, length, get_elem?, set, Bool-cases,
  ℕ_discrete, Option-cases,
}
use pris_kv.Base.Word.{u32_mod}
use pris_kv.Base.Time.{Timeval}
use pris_kv.Transfer.{Work, handle_rw}
use pris_kv.Kv.Good.{Good}
use pris_kv.Kv.Good.Refs.{more, less, more_self, Good-held}
use pris_kv.Kv.Good.Ops.{Good-get_key_end, Good-set_key_end}
use pris_kv.Requests.{
  Received, ConnCap, Callback, end_get, end_set, end_keys, Inflight, Server, recv, run_callback,
  drop_at, done_piece,
}
use pris_kv.Requests.Recv.{held_with, held_after, Running, Began, mr_with, mr_after, mr_count}
use pris_kv.Requests.Switch.{WellSent, handle_recv-Kept}

-- The references that the transfers in flight hold.
unfoldable pub references : List Inflight → ℕ → ℕ
references [] a = 0
references (w ∷ l) a = held_with w.cb (references l) a

held_with_le : (c : Callback) (held : ℕ → ℕ) (a : ℕ) → held_with c held a ≤ suc (held a)
unfolding held_with
held_with_le (end_get b) held a = ground arith
held_with_le (end_set b) held a = omega arith
held_with_le (end_keys b) held a = omega arith

references_few : (l : List Inflight) (a : ℕ) → references l a ≤ length l
unfolding references
references_few [] a = omega arith
references_few (w ∷ l) a = omega (arith, held_with_le w.cb (references l) a, references_few l a)

-- Each transfer is running.
unfoldable pub AllRunning : List Inflight → Type 0
AllRunning [] = Unit {0}
AllRunning (w ∷ l) = Running w × AllRunning l

AllRunning-get :
    (l : List Inflight) (i : ℕ) {w : Inflight} → AllRunning l → get_elem? l i ≡ some w → Running w
unfolding AllRunning
AllRunning-get [] i q e = absurd (cc e)
AllRunning-get (w ∷ l) zero (r, q) e = subst Running (some-injective _ _ e) r
AllRunning-get (w ∷ l) (suc i) (r, q) e = AllRunning-get l i q e

AllRunning-set :
    (l : List Inflight) (i : ℕ) (w : Inflight) → AllRunning l → Running w → AllRunning (set l i w)
unfolding AllRunning
AllRunning-set [] i w q r = tt
AllRunning-set (v ∷ l) zero w (_, q) r = (r, q)
AllRunning-set (v ∷ l) (suc i) w (p, q) r = (p, AllRunning-set l i w q r)

AllRunning-drop_at : (l : List Inflight) (i : ℕ) → AllRunning l → AllRunning (drop_at l i)
unfolding AllRunning drop_at
AllRunning-drop_at [] i q = tt
AllRunning-drop_at (v ∷ l) zero (_, q) = q
AllRunning-drop_at (v ∷ l) (suc i) (p, q) = (p, AllRunning-drop_at l i q)

held_with_swap :
    (c d : Callback) (held : ℕ → ℕ) (a : ℕ)
    → held_with c (held_with d held) a ≡ held_with d (held_with c held) a
unfolding held_with
held_with_swap (end_get x) (end_get y) held a = ground arith
held_with_swap (end_get x) (end_set y) held a = refl
held_with_swap (end_get x) (end_keys y) held a = refl
held_with_swap (end_set x) d held a = refl
held_with_swap (end_keys x) d held a = refl

-- The references without the transfer that is done, and with it.
references-drop_at :
    (l : List Inflight) (i : ℕ) {w : Inflight}
    → get_elem? l i ≡ some w
    → (a : ℕ) → references l a ≡ held_with w.cb (references (drop_at l i)) a
unfolding references drop_at
references-drop_at [] i e a = absurd (cc e)
references-drop_at (v ∷ l) zero {w} e a =
    ap (λ (x : Inflight). held_with x.cb (references l) a) (some-injective _ _ e)
references-drop_at (v ∷ l) (suc i) {w} e a =
    ap (λ f. held_with v.cb f a) (fun_ext (references-drop_at l i e))
    ∙ held_with_swap v.cb w.cb (references (drop_at l i)) a

references-set :
    (l : List Inflight) (i : ℕ) {w : Inflight} (w' : Inflight)
    → get_elem? l i ≡ some w
    → w'.cb ≡ w.cb
    → (a : ℕ) → references (set l i w') a ≡ references l a
unfolding references
references-set [] i w' e c a = refl
references-set (v ∷ l) zero {w} w' e c a =
    ap (λ x. held_with x (references l) a)
      (c ∙ ap (λ (x : Inflight). x.cb) (sym (some-injective _ _ e)))
references-set (v ∷ l) (suc i) w' e c a =
    ap (λ f. held_with v.cb f a) (fun_ext (references-set l i w' e c))

-- How often a memory is that of a KEYS reply in flight.
unfoldable pub mrs : List Inflight → ℕ → ℕ
mrs [] m = 0
mrs (w ∷ l) m = mr_with w.cb (mrs l) m

mr_with_swap :
    (c d : Callback) (used : ℕ → ℕ) (m : ℕ)
    → mr_with c (mr_with d used) m ≡ mr_with d (mr_with c used) m
unfolding mr_with
mr_with_swap (end_keys x) (end_keys y) used m = ground arith
mr_with_swap (end_keys x) (end_set y) used m = refl
mr_with_swap (end_keys x) (end_get y) used m = refl
mr_with_swap (end_set x) d used m = refl
mr_with_swap (end_get x) d used m = refl

mrs-drop_at :
    (l : List Inflight) (i : ℕ) {w : Inflight}
    → get_elem? l i ≡ some w
    → (m : ℕ) → mrs l m ≡ mr_with w.cb (mrs (drop_at l i)) m
unfolding mrs drop_at
mrs-drop_at [] i e m = absurd (cc e)
mrs-drop_at (v ∷ l) zero {w} e m =
    ap (λ (x : Inflight). mr_with x.cb (mrs l) m) (some-injective _ _ e)
mrs-drop_at (v ∷ l) (suc i) {w} e m =
    ap (λ f. mr_with v.cb f m) (fun_ext (mrs-drop_at l i e))
    ∙ mr_with_swap v.cb w.cb (mrs (drop_at l i)) m

mrs-set :
    (l : List Inflight) (i : ℕ) {w : Inflight} (w' : Inflight)
    → get_elem? l i ≡ some w
    → w'.cb ≡ w.cb
    → (m : ℕ) → mrs (set l i w') m ≡ mrs l m
unfolding mrs
mrs-set [] i w' e c m = refl
mrs-set (v ∷ l) zero {w} w' e c m =
    ap (λ x. mr_with x (mrs l) m) (c ∙ ap (λ (x : Inflight). x.cb) (sym (some-injective _ _ e)))
mrs-set (v ∷ l) (suc i) w' e c m = ap (λ f. mr_with v.cb f m) (fun_ext (mrs-set l i w' e c))

mr_count-none : (m : ℕ) → mr_count none m ≡ 0
unfolding mr_count
mr_count-none m = refl

-- The memory of a reply that is done is that of the server.
mr_count-done :
    (o : Option ℕ) (a : ℕ) (used : ℕ → ℕ)
    → ((m : ℕ) → more used a m ≡ mr_count o m)
    → (o ≡ some a) × ((m : ℕ) → used m ≡ 0)
unfolding mr_count
mr_count-done none a used h = absurd (omega (arith, more_self used a, h a))
mr_count-done (some b) a used h = elim (ℕ_discrete b a) [
  | yes e ↦ (ap some e, λ m. ground (arith, h m, e))
  | no ne ↦ absurd (ground (arith, h a, ne))
]

less-held_with : (held : ℕ → ℕ) (a x : ℕ) → less (held_with (end_get a) held) a x ≡ held x
unfolding held_with
less-held_with held a x = ground arith

-- The invariant of the server.
pub record Fine (hash : List ℕ → ℕ) (klen n : ℕ) (s : Server) : Type 0 where
  pub store : Good hash klen n (references s.works) none none s.kv
  pub running : AllRunning s.works
  pub keys : (m : ℕ) → mrs s.works m ≡ mr_count s.keys_mr m

module _ {hash : List ℕ → ℕ} {klen n : ℕ} where
  pub recv-Fine :
      (regcomp : List ℕ → Option (List ℕ → Bool)) (cap : ConnCap) (buf : Option ℕ) (now : Timeval)
      (r : Received) (s : Server)
      → WellSent r
      → cap.max_key_length ≤ klen
      → length s.works + 2 < u32_mod
      → Fine hash klen n s
      → (s' : Server) × (recv hash regcomp cap (record { accepted = true; buf = buf }) now r s
          ≡ some s')
        × Fine hash klen n s'
  unfolding recv references held_after Began AllRunning mrs mr_after
  recv-Fine regcomp cap buf now r s sent within room f =
      let (h, e, k) =
        handle_recv-Kept regcomp cap buf now s.kv s.keys_mr r sent within
          (λ a. omega (arith, references_few s.works a, room)) f.store in
      elim (Option-cases h.started) [
        | inl gone ↦
            let s' : Server = record { kv = h.kv; keys_mr = h.keys_mr; works = s.works } in
            (
              s',
              ground (arith, e, gone),
              record {
                store =
                    subst (λ o. Good hash klen n (held_after o (references s.works)) none none h.kv)
                      gone k.store;
                running = f.running;
                keys = λ m.
                    f.keys m
                    ∙ subst (λ o. mr_after o (mr_count s.keys_mr) m ≡ mr_count h.keys_mr m) gone
                        (k.keys m);
              },
            )
        | inr (w, begun) ↦
            let s' : Server = record { kv = h.kv; keys_mr = h.keys_mr; works = w ∷ s.works } in
            (
              s',
              ground (arith, e, begun),
              record {
                store =
                    Good-held (references (w ∷ s.works)) (λ a. refl)
                      (subst
                        (λ o. Good hash klen n (held_after o (references s.works)) none none h.kv)
                        begun k.store);
                running = (subst Began begun k.work, f.running);
                keys = λ m.
                    ap (λ u. mr_with w.cb u m) (fun_ext f.keys)
                    ∙ subst (λ o. mr_after o (mr_count s.keys_mr) m ≡ mr_count h.keys_mr m) begun
                        (k.keys m);
              },
            )
      ]

  run_callback-Fine :
      (c : Callback) (s : Server)
      → Good hash klen n (held_with c (references s.works)) none none s.kv
      → AllRunning s.works
      → ((m : ℕ) → mr_with c (mrs s.works) m ≡ mr_count s.keys_mr m)
      → (s' : Server) × (run_callback c s ≡ some s') × Fine hash klen n s'
  unfolding run_callback held_with mr_with
  run_callback-Fine (end_get a) s g q k =
      let (kv, e, g') = Good-get_key_end a (omega (arith, more_self (references s.works) a)) g in
      (
        record s { kv = kv },
        ground (arith, e),
        record {
          store = Good-held (references s.works) (less-held_with (references s.works) a) g';
          running = q;
          keys = k;
        },
      )
  run_callback-Fine (end_set a) s g q k =
      (_, refl, record { store = Good-set_key_end (some a) g; running = q; keys = k })
  run_callback-Fine (end_keys mr) s g q k =
      let (own, gone) = mr_count-done s.keys_mr mr (mrs s.works) k in
      (
        record s { keys_mr = none },
        ground (arith, own),
        record { store = g; running = q; keys = λ m. gone m ∙ sym (mr_count-none m) },
      )

  pub done_piece-Fine :
      (i : ℕ) (s : Server)
      → ((w : Inflight) → get_elem? s.works i ≡ some w → w.work.completed < w.work.nsgl)
      → Fine hash klen n s
      → (s' : Server) × (done_piece i s ≡ some s') × Fine hash klen n s'
  unfolding done_piece handle_rw
  done_piece-Fine i s left f = elim (Option-cases (get_elem? s.works i)) [
    | inl gone ↦ (s, ground (arith, gone), f)
    | inr (w, at) ↦
        let r = AllRunning-get s.works i f.running at in
        let lt = left w at in
        let next : (w.work.completed + 1) % 65536 ≡ w.work.completed + 1 =
          omega (arith, lt, r.few) in
        let fits : leb ((w.work.completed + 1) % 65536) w.work.nsgl ≡ true =
          ground (arith, next, lt) in
        let work : Work = record w.work { completed = (w.work.completed + 1) % 65536 } in
        elim (Bool-cases (ltb ((w.work.completed + 1) % 65536) w.work.nsgl)) [
          | inl more_left ↦
              let w' : Inflight = record w { work = work } in
              let s' : Server = record s { works = set s.works i w' } in
              (
                s',
                ground (arith, at, fits, more_left),
                record {
                  store =
                      Good-held (references (set s.works i w'))
                        (λ a. sym (references-set s.works i w' at refl a)) f.store;
                  running =
                      AllRunning-set s.works i w' f.running
                        (record { completed = omega (arith, next, lt); few = r.few });
                  keys = λ m. mrs-set s.works i w' at refl m ∙ f.keys m;
                },
              )
          | inr last ↦
              let s₁ : Server = record s { works = drop_at s.works i } in
              let (s', e, q) =
                run_callback-Fine w.cb s₁
                  (Good-held (held_with w.cb (references (drop_at s.works i)))
                    (references-drop_at s.works i at) f.store)
                  (AllRunning-drop_at s.works i f.running)
                  (λ m. sym (mrs-drop_at s.works i at m) ∙ f.keys m) in
              elim (Bool-cases w.work.defer_resp) [
                | inl d ↦ (s', ground (arith, at, fits, last, d, e), q)
                | inr d ↦ (s', ground (arith, at, fits, last, d, e), q)
              ]
        ]
  ]
