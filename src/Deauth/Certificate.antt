-- ===== src/Deauth/Certificate.antt =====
-- What the answer "the ioctls returned" proves of the calls made.
use mathlib.Core.List.{Memᴰ}
use native.Mathlib.Decide.{ℕ_discrete}
use hisi_rf_ws.Common.{
  ℕ, zero, suc, ◌+◌, ◌-◌, ◌≤◌, ◌<◌, ◌≡◌, ◌≢◌, inl, inr, refl, sym, ap, ◌∙◌, subst, List, [], ◌∷◌,
  Option, none, some, Bool, true, false, arith, ℤ, pos, negsuc, Result, ok, err, Bool-cases,
  Option-cases, ==→eq, get_elem?, set, find_slot-some, is_zero, get_elem?-set_ne,
  get_elem?-set_self, lt_of_get_elem?, length-set, replicate,
}
use hisi_rf_ws.Deauth.Errors.{Error}
use hisi_rf_ws.Deauth.{
  Ticket, Request, Completion, Queue, Op, Poll, Receipt, Returned, new, health, poll, poll_tickets,
  has_id, complete, push, push_healthy, push_at, pop, pop_at, reject, begin_inline, begin_polled,
  claim_pushed, claim_popped, wake_failed, worker_unavailable, is_ticket, run, step, poll_idle,
}
use hisi_rf_ws.Deauth.Receipts.{found}

-- Every entry of the history satisfies `P`.
abbrev Kept : (Completion → Type 0) → List (Option Completion) → Type 0
Kept P xs = (i : ℕ) (c : Completion) → get_elem? xs i ≡ some (some c) → P c

Kept-set :
    (P : Completion → Type 0) (xs : List (Option Completion)) (i : ℕ) (c : Completion)
    → P c
    → Kept P xs
    → Kept P (set xs i (some c))
Kept-set P xs i c here kept j d at = elim (ℕ_discrete i j) [
  | yes same ↦
      let inside = lt_of_get_elem? (set xs i (some c)) j at in
      let e =
        get_elem?-set_self xs i (some c) (omega (arith, same, inside, length-set xs i (some c))) in
      subst P (cc (e, at, same)) here
  | no apart ↦ kept j d (sym (get_elem?-set_ne xs (some c) apart) ∙ at)
]

push-history : (q : Queue) (reason : ℕ) → (push q reason).0.history ≡ q.history
unfolding push push_healthy push_at reject
push-history q reason = ground arith

pop-history : (q : Queue) → (pop q).0.history ≡ q.history
unfolding pop pop_at
pop-history q = ground arith

claim_popped-history :
    (t : Ticket) (p : Queue × Option Request) → (claim_popped t p).0.history ≡ p.0.history
claim_popped-history t (q, none) = refl
claim_popped-history t (q, some r) = ground arith

claim_pushed-history : (p : Queue × Result Ticket Error) → (claim_pushed p).0.history ≡ p.0.history
unfolding claim_pushed
claim_pushed-history (q, err e) = refl
claim_pushed-history (q, ok t) = claim_popped-history t (pop q) ∙ pop-history q

begin_polled-history :
    (q : Queue) (reason : ℕ) (p : Result (Poll (Unit {0})) Error)
    → (begin_polled q reason p).0.history ≡ q.history
unfolding begin_polled reject
begin_polled-history q reason (err e) = refl
begin_polled-history q reason (ok Poll.pending) = ground arith
begin_polled-history q reason (ok (Poll.ready u)) =
    claim_pushed-history (push q reason) ∙ push-history q reason

complete-Kept :
    (P : Completion → Type 0) (q : Queue) (t : Ticket) (code : ℤ)
    → P (record { id = t; code = code })
    → Kept P q.history
    → Kept P ((complete q t code).0.history)
unfolding complete
complete-Kept P q t code here kept = elim (Bool-cases (is_ticket q.running t)) [
  | inl e ↦ rw e (Kept-set P q.history q.history_next (record { id = t; code = code }) here kept)
  | inr e ↦ rw e kept
]

-- What the operation must show of a completion it records.
abbrev Shows : (Completion → Type 0) → Op → Type 0
Shows P op =
    (t : Ticket) (code : ℤ) → op ≡ Op.complete_op t code → P (record { id = t; code = code })

step-Kept :
    (P : Completion → Type 0) (q : Queue) (op : Op)
    → Shows P op
    → Kept P q.history
    → Kept P ((step q op).history)
unfolding step begin_inline wake_failed worker_unavailable
step-Kept P q (Op.push_op reason) shows kept = subst (Kept P) (sym (push-history q reason)) kept
step-Kept P q Op.pop_op shows kept = subst (Kept P) (sym (pop-history q)) kept
step-Kept P q (Op.begin_op reason) shows kept =
    subst (Kept P) (sym (begin_polled-history q reason (poll_idle q))) kept
step-Kept P q (Op.complete_op t code) shows kept = complete-Kept P q t code (shows t code refl) kept
step-Kept P q Op.wake_failed_op shows kept = kept
step-Kept P q Op.worker_unavailable_op shows kept = kept

run-Kept :
    (P : Completion → Type 0) (q : Queue) (ops : List Op)
    → ((op : Op) → Memᴰ op ops → Shows P op)
    → Kept P q.history
    → Kept P ((run q ops).history)
unfolding run
run-Kept P q [] shows kept = kept
run-Kept P q (op ∷ ops) shows kept =
    run-Kept P (step q op) ops (λ o m. shows o (Memᴰ.tail m))
      (step-Kept P q op (shows op (Memᴰ.head refl)) kept)

is_zero-eq : (n : ℤ) → is_zero n ≡ true → n ≡ pos 0
is_zero-eq (pos n) h = ap pos (ground (arith, h))
is_zero-eq (negsuc n) h = absurd (ground arith)

-- One pending ticket makes the answer pending or an error.
pending_lasts : (q : Queue) (n s : ℕ) → poll_tickets q n s true ≢ ok (Poll.ready Returned.ioctls)
unfolding poll_tickets
pending_lasts q zero s = λ x. ground (arith, x)
pending_lasts q (suc n) s = λ x. ground (arith, x, pending_lasts q n (s + 1))

-- The completion that answers for one ticket of a finished receipt.
tickets_done :
    (q : Queue) (n s j : ℕ) (waiting : Bool)
    → poll_tickets q n s waiting ≡ ok (Poll.ready Returned.ioctls)
    → s ≤ j
    → j < s + n
    → (p : ℕ × Completion) × (found q j ≡ some p) × (is_zero (p.1.code) ≡ true)
unfolding poll_tickets
tickets_done q zero s j waiting h low high = absurd (omega arith)
tickets_done q (suc n) s j waiting h low high = elim (Option-cases (found q s)) [
  | inl e ↦ absurd (ground (arith, e, h, pending_lasts q n (s + 1)))
  | inr r ↦ elim (Bool-cases (is_zero (r.0.1.code))) [
    | inr e ↦ absurd (ground (arith, r, e, h))
    | inl e ↦ elim (ℕ_discrete s j) [
      | yes same ↦ (r.0, subst (λ k. found q k ≡ some (r.0)) same (r.1), e)
      | no apart ↦
          tickets_done q n (s + 1) j waiting (ground (arith, r, e, h)) (omega arith) (omega arith)
    ]
  ]
]

answer-tickets :
    (q : Queue) (r : Receipt) (j : ℕ)
    → poll q r ≡ ok (Poll.ready Returned.ioctls)
    → r.before < j
    → j ≤ r.through
    → (p : ℕ × Completion) × (found q j ≡ some p) × (is_zero (p.1.code) ≡ true)
unfolding poll health
answer-tickets q r j h low high = elim (Option-cases q.fault) [
  | inr f ↦ absurd (ground (arith, f, h))
  | inl f ↦
      tickets_done q (r.through - r.before) (r.before + 1) j false (ground (arith, f, h))
        (omega arith) (omega arith)
]

get_elem?-replicate-none {ℓ} :
    {A : Type ℓ} (n i : ℕ) (a : A) → get_elem? (replicate n none) i ≢ some (some a)
get_elem?-replicate-none zero i a = λ x. ground (arith, x)
get_elem?-replicate-none (suc n) zero a = λ x. ground (arith, x)
get_elem?-replicate-none (suc n) (suc i) a = get_elem?-replicate-none n i a

-- After any run of a new queue, if a receipt is answered with "the ioctls returned", then for each
-- of its tickets the run has a completion of that very ticket with native status 0.
pub ioctls_returned :
    (ops : List Op) (r : Receipt) (j : ℕ)
    → poll (run new ops) r ≡ ok (Poll.ready Returned.ioctls)
    → r.before < j
    → j ≤ r.through
    → Memᴰ (Op.complete_op j (pos 0)) ops
unfolding new
ioctls_returned ops r j h low high =
    let (p, e, z) = answer-tickets (run new ops) r j h low high in
    let (at, same) = find_slot-some (has_id j) ((run new ops).history) e in
    let P = λ (c : Completion). Memᴰ (Op.complete_op c.id c.code) ops in
    let kept =
      run-Kept P new ops (λ op m t code x. subst (λ o. Memᴰ o ops) x m)
        (λ i c x. absurd (get_elem?-replicate-none 8 i c x)) in
    let made = kept (p.0) (p.1) at in
    subst (λ c. Memᴰ (Op.complete_op j c) ops) (is_zero-eq (p.1.code) z)
      (subst (λ k. Memᴰ (Op.complete_op k (p.1.code)) ops) (==→eq (p.1.id) j same) made)
