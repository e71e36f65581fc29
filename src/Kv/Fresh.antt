-- ===== src/Kv/Fresh.antt =====
-- The node that `priskv_set_key` (server/kv.c) fills: where its value lies and when it expires.
use pris_kv.Base.{
  ℕ, ◌+◌, ◌-◌, ◌*◌, ◌≡◌, ◌≤◌, ◌<◌, ltb, inl, inr, arith, sym, ap, some, false, List, Bool-cases,
  subst,
}
use pris_kv.Base.Time.{Timeval, add_ms, elapsed_ms, is_positive, micros, add_ms_lem, elapsed_ms_pos}
use pris_kv.Kv.State.{KeyNode, Kv, pointer_to_value}
use pris_kv.Kv.Find.{key_timeout, key_max_timeout}
use pris_kv.Kv.Ops.{set_key_end}
use pris_kv.Kv.Evict.{fresh_node}

-- The fresh node after the end of SET.
abbrev pub fresh_done : Kv → Timeval → List ℕ → ℕ → ℕ → ℕ → KeyNode
fresh_done kv now key v valuelen timeout = record (fresh_node kv now key v valuelen timeout) {
  refcnt = 1;
  inprocess = false;
}

pub fresh_node-base :
    (kv kv' : Kv) (now : Timeval) (key : List ℕ) (v valuelen timeout : ℕ)
    → kv'.value_base ≡ kv.value_base
    → fresh_done kv' now key v valuelen timeout ≡ fresh_done kv now key v valuelen timeout
unfolding fresh_node pointer_to_value
fresh_node-base kv kv' now key v valuelen timeout e = ground (arith, e)

pub fresh_done_value :
    (kv kv' : Kv) (now : Timeval) (key : List ℕ) (a v valuelen timeout : ℕ)
    → kv'.value_base ≡ kv.value_base
    → kv.value_base ≤ v
    → let n = fresh_done kv now key v valuelen timeout in
      ◌≡◌ {A = ℕ × ℕ}
        ((set_key_end kv' (some a)).value_base + n.value_off, n.valuelen)
        (v, valuelen)
unfolding fresh_node pointer_to_value set_key_end
fresh_done_value kv kv' now key a v valuelen timeout e le =
    let sum : kv'.value_base + (v - kv.value_base) ≡ v = omega (arith, e, le) in
    ap (λ x. (x, valuelen)) sum

timeout_at :
    (start now : Timeval)
    → start.usec < 1000000
    → now.usec < 1000000
    → micros now ≤ micros start
    → is_positive (elapsed_ms start now) ≡ false
timeout_at start now u u' le = elim (Bool-cases (is_positive (elapsed_ms start now))) [
  | inl t ↦ let lt = (elapsed_ms_pos start now u u').0 t in absurd (omega (arith, lt, le))
  | inr f ↦ f
]

pub fresh_done-live :
    (kv : Kv) (now now' : Timeval) (key : List ℕ) (v valuelen timeout : ℕ)
    → now.usec < 1000000
    → now'.usec < 1000000
    → (timeout < key_max_timeout → micros now' ≤ micros now + timeout * 1000)
    → key_timeout (fresh_done kv now key v valuelen timeout) now' ≡ false
unfolding key_timeout fresh_node
fresh_done-live kv now now' key v valuelen timeout u u' live =
    elim (Bool-cases (ltb timeout key_max_timeout)) [
      | inl t ↦
          let (sum, us) = add_ms_lem now timeout u in
          let lt : timeout < key_max_timeout = ground (arith, t) in
          let le : micros now' ≤ micros (add_ms now timeout) =
            subst (λ x. micros now' ≤ x) (sym sum) (live lt) in
          ground (arith, t, timeout_at (add_ms now timeout) now' us u' le)
      | inr f ↦ ground (arith, f)
    ]
