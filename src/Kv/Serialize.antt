-- ===== src/Kv/Serialize.antt =====
-- The queue that serialises the requests of a bucket to the tiering backends: `has_inflight_req`
-- and `pending_reqs` of server/kv.c, priskv_key_serialize_enter and priskv_key_serialize_exit. A
-- request is named by a number; priskv_resume_tiering_req runs the request that leaves the queue.
use mathlib.Core.List.{append-nil, append_assoc}
use pris_kv.Base.{
  ℕ, ◌≡◌, ◌≢◌, ◌⊎◌, inl, inr, refl, sym, ap, ◌∙◌, Option, none, some, Bool, true, false, List, [],
  ◌∷◌, ◌++◌, if◌then◌else◌, subst, arith,
}

-- `priskv_tiering_wait_head`
pub record WaitHead : Type 0 where
  pub pending_reqs : List ℕ
  pub has_inflight_req : Bool

-- `priskv_key_serialize_enter`, which says whether the request may run.
unfoldable pub key_serialize_enter : WaitHead → ℕ → WaitHead × Bool
key_serialize_enter w treq =
    if w.has_inflight_req
    then (record w { pending_reqs = w.pending_reqs ++ (treq ∷ []) }, false)
    else (record w { has_inflight_req = true }, true)

-- `priskv_key_serialize_exit`, with the request that it resumes.
unfoldable pub key_serialize_exit : WaitHead → WaitHead × Option ℕ
key_serialize_exit w = elim w.pending_reqs [
  | [] ↦ (record w { has_inflight_req = false }, none)
  | next_req ∷ rest ↦ (record w { pending_reqs = rest }, some next_req)
]

-- A bucket with its requests: those that run, all that have come and all that have run so far, in
-- this order.
pub record Bucket : Type 0 where
  pub head : WaitHead
  pub running : List ℕ
  pub arrived : List ℕ
  pub started : List ℕ

abbrev pub entered : Bucket → ℕ → Bucket
entered b treq =
    let (head, go) = key_serialize_enter b.head treq in
    record {
      head = head;
      running = if go then treq ∷ b.running else b.running;
      arrived = b.arrived ++ (treq ∷ []);
      started = if go then b.started ++ (treq ∷ []) else b.started;
    }

-- The running requests but for the one that completes are `rest`.
abbrev pub exited : Bucket → List ℕ → Bucket
exited b rest =
    let (head, next) = key_serialize_exit b.head in
    record {
      head = head;
      running = elim next [ none ↦ rest | some next_req ↦ next_req ∷ rest ];
      arrived = b.arrived;
      started = elim next [ none ↦ b.started | some next_req ↦ b.started ++ (next_req ∷ []) ];
    }

-- A request comes, or one that runs completes.
pub data Step : Bucket → Bucket → Type 0 where
  enter : (b : Bucket) (treq : ℕ) → Step b (entered b treq)
  exit :
      (b : Bucket) (before : List ℕ) (treq : ℕ) (after : List ℕ)
      → b.running ≡ before ++ (treq ∷ after)
      → Step b (exited b (before ++ after))

abbrev pub idle : Bucket
idle = record {
  head = record { pending_reqs = []; has_inflight_req = false };
  running = [];
  arrived = [];
  started = [];
}

pub data Reachable : Bucket → Type 0 where
  initial : Reachable idle
  next : (b b' : Bucket) → Reachable b → Step b b' → Reachable b'

-- The requests start in the order in which they come, and one at a time: where a request is in
-- flight exactly one runs, and else none runs and none waits.
pub record Serial (b : Bucket) : Type 0 where
  pub order : b.started ++ b.head.pending_reqs ≡ b.arrived
  pub single :
      ((b.head.has_inflight_req ≡ true) × ((treq : ℕ) × (b.running ≡ treq ∷ [])))
      ⊎ ((b.head.has_inflight_req ≡ false) × (b.running ≡ []) × (b.head.pending_reqs ≡ []))

entered_busy :
    (b : Bucket) (treq : ℕ)
    → b.head.has_inflight_req ≡ true
    → entered b treq ≡ record {
      head = record b.head { pending_reqs = b.head.pending_reqs ++ (treq ∷ []) };
      running = b.running;
      arrived = b.arrived ++ (treq ∷ []);
      started = b.started;
    }
unfolding key_serialize_enter
entered_busy b treq e = ground (arith, e)

entered_idle :
    (b : Bucket) (treq : ℕ)
    → b.head.has_inflight_req ≡ false
    → entered b treq ≡ record {
      head = record b.head { has_inflight_req = true };
      running = treq ∷ b.running;
      arrived = b.arrived ++ (treq ∷ []);
      started = b.started ++ (treq ∷ []);
    }
unfolding key_serialize_enter
entered_idle b treq e = ground (arith, e)

exited_last :
    (b : Bucket) (rest : List ℕ)
    → b.head.pending_reqs ≡ []
    → exited b rest ≡ record {
      head = record b.head { has_inflight_req = false };
      running = rest;
      arrived = b.arrived;
      started = b.started;
    }
unfolding key_serialize_exit
exited_last b rest e = ground (arith, e)

exited_next :
    (b : Bucket) (rest : List ℕ) (next_req : ℕ) (pending : List ℕ)
    → b.head.pending_reqs ≡ next_req ∷ pending
    → exited b rest ≡ record {
      head = record b.head { pending_reqs = pending };
      running = next_req ∷ rest;
      arrived = b.arrived;
      started = b.started ++ (next_req ∷ []);
    }
unfolding key_serialize_exit
exited_next b rest next_req pending e = ground (arith, e)

-- The one request that runs is the one that completes.
only_one :
    (before : List ℕ) (treq : ℕ) (after : List ℕ) (t : ℕ)
    → t ∷ [] ≡ before ++ (treq ∷ after)
    → before ++ after ≡ []
only_one [] treq after t e = ground (arith, e)
only_one (x ∷ []) treq after t e = absurd (ground (arith, e))
only_one (x ∷ y ∷ before) treq after t e = absurd (ground (arith, e))

nothing : (before : List ℕ) (treq : ℕ) (after : List ℕ) → [] ≢ before ++ (treq ∷ after)
nothing [] treq after e = absurd (ground (arith, e))
nothing (x ∷ before) treq after e = absurd (ground (arith, e))

waiting : (l : List ℕ) → (l ≡ []) ⊎ ((n : ℕ) × (rest : List ℕ) × (l ≡ n ∷ rest))
waiting [] = inl refl
waiting (n ∷ rest) = inr (n, rest, refl)

enter-Serial : (b : Bucket) (treq : ℕ) → Serial b → Serial (entered b treq)
enter-Serial b treq s = elim s.single [
  | inl (f, (t, r)) ↦
      subst (λ x. Serial x) (sym (entered_busy b treq f))
        (record {
          order =
              sym (append_assoc b.started b.head.pending_reqs (treq ∷ []))
              ∙ ap (λ l. l ++ (treq ∷ [])) s.order;
          single = inl (f, (t, r));
        })
  | inr (f, r, p) ↦
      let all : b.started ≡ b.arrived =
        sym (append-nil b.started) ∙ (ap (λ l. b.started ++ l) (sym p) ∙ s.order) in
      subst (λ x. Serial x) (sym (entered_idle b treq f))
        (record {
          order =
              ap (λ l. (b.started ++ (treq ∷ [])) ++ l) p
              ∙ (append-nil (b.started ++ (treq ∷ [])) ∙ ap (λ l. l ++ (treq ∷ [])) all);
          single = inl (refl, (treq, ap (λ l. treq ∷ l) r));
        })
]

exit-Serial :
    (b : Bucket) (before : List ℕ) (treq : ℕ) (after : List ℕ)
    → b.running ≡ before ++ (treq ∷ after)
    → Serial b
    → Serial (exited b (before ++ after))
exit-Serial b before treq after e s = elim s.single [
  | inr (f, r, p) ↦ absurd (nothing before treq after (sym r ∙ e))
  | inl (f, (t, r)) ↦
      let none_left = only_one before treq after t (sym r ∙ e) in
      elim (waiting b.head.pending_reqs) [
        | inl p ↦
            subst (λ x. Serial x) (sym (exited_last b (before ++ after) p))
              (record { order = s.order; single = inr (refl, none_left, p) })
        | inr (n, pending, p) ↦
            subst (λ x. Serial x) (sym (exited_next b (before ++ after) n pending p))
              (record {
                order =
                    append_assoc b.started (n ∷ []) pending
                    ∙ (ap (λ l. b.started ++ l) (sym p) ∙ s.order);
                single = inl (f, (n, ap (λ l. n ∷ l) none_left));
              })
      ]
]

Step-Serial : (b b' : Bucket) → Step b b' → Serial b → Serial b'
Step-Serial b b' (enter c treq) s = enter-Serial c treq s
Step-Serial b b' (exit c before treq after e) s = exit-Serial c before treq after e s

-- However requests of a bucket come and complete, they start in the order in which they come, none
-- is lost, at most one runs, and none waits where none runs.
pub Reachable-Serial : (b : Bucket) → Reachable b → Serial b
Reachable-Serial b initial = record { order = refl; single = inr (refl, refl, refl) }
Reachable-Serial b (next a c r step) = Step-Serial a c step (Reachable-Serial a r)
