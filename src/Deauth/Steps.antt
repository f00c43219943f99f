-- ===== src/Deauth/Steps.antt =====
-- What each operation on the queue does to a valid queue.
use hisi_rf_ws.Common.{
  ℕ, suc, ◌+◌, ◌-◌, ◌<◌, ◌≡◌, ◌⊎◌, inl, inr, refl, ap, ◌∙◌, List, [], ◌∷◌, Option, none, some, true,
  not, arith, is_none, get_or, ℤ, Result, ok, err, Bool-cases, Option-cases, ◌==◌, checked_inc64,
  set, ltb, u64_max, ==→eq, ==_self, get_or-set_same, lt→ltb, bit, ◌||◌,
}
use hisi_rf_ws.Deauth.Errors.{Error}
use hisi_rf_ws.Deauth.{
  Ticket, Request, Queue, Op, Poll, push_at, push_healthy, push, pop_at, pop, claim_popped,
  claim_pushed, begin_polled, begin_inline, complete, step, run, is_ticket, poll_idle, poll_faulty,
  poll_quiet, wake_failed, worker_unavailable,
}
use hisi_rf_ws.Deauth.Window.{
  IsValid, completed, busy, set_fault-IsValid, reject-IsValid, pushed, pushed-IsValid, popped,
  popped-IsValid, settled, settled-IsValid,
}

abbrev pub request : Queue → ℕ → Request
request q reason = record { ticket = q.issued + 1; reason = reason }

push_at-IsValid :
    (q : Queue) (reason : ℕ)
    → IsValid q
    → q.len < 4
    → IsValid ((push_at q reason (checked_inc64 q.issued)).0)
unfolding push_at
push_at-IsValid q reason v space = elim (Bool-cases (ltb q.issued u64_max)) [
  | inl e ↦ rw e (pushed-IsValid q (request q reason) v space refl)
  | inr e ↦ rw e (set_fault-IsValid q (some Error.exhausted) v)
]

push_healthy-IsValid :
    (q : Queue) (reason : ℕ) (f : Option Error) → IsValid q → IsValid ((push_healthy q reason f).0)
unfolding push_healthy
push_healthy-IsValid q reason (some e) v = v
push_healthy-IsValid q reason none v = elim (Bool-cases (q.len == 4)) [
  | inl e ↦ rw e (reject-IsValid q Error.full v)
  | inr e ↦ rw e (push_at-IsValid q reason v (ground (arith, v.len_fits, e)))
]

pub push-IsValid : (q : Queue) (reason : ℕ) → IsValid q → IsValid ((push q reason).0)
unfolding push
push-IsValid q reason v = push_healthy-IsValid q reason q.fault v

-- The entry that `pop` looks at.
abbrev first : Queue → Option Request
first q = get_or q.requests q.head none

first_waits :
    (q : Queue)
    → IsValid q
    → 0 < q.len
    → (r : Request) × (first q ≡ some r) × (r.ticket ≡ q.issued - q.len + 1)
first_waits q v some_wait =
    let (r, at, e) = v.waiting 0 some_wait in
    (r, ap (λ i. get_or q.requests i none) (omega (arith, v.head_fits)) ∙ at, e)

pop-some :
    (q : Queue) (r : Request)
    → q.fault ≡ none
    → q.running ≡ none
    → 0 < q.len
    → first q ≡ some r
    → pop q ≡ (popped q r, some r)
unfolding pop pop_at
pop-some q r fine idle some_wait at = ground (arith, fine, idle, at)

pop-none :
    (q : Queue)
    → (not (is_none q.running) || (q.len == 0) || not (is_none q.fault)) ≡ true
    → pop q ≡ (q, none)
unfolding pop
pop-none q e = rw e refl

-- A valid queue gives out a request exactly when no fault is recorded, no ticket runs and one
-- waits. It is the request of the ticket after all those that have completed, and it is then the
-- running one.
pub pop_in_order :
    (q : Queue)
    → IsValid q
    → ((q.fault ≡ none)
        × (q.running ≡ none)
        × (0 < q.len)
        × ((r : Request) × (pop q ≡ (popped q r, some r)) × (r.ticket ≡ suc (completed q))))
      ⊎ (pop q ≡ (q, none))
pop_in_order q v =
    elim (Bool-cases (not (is_none q.running) || (q.len == 0) || not (is_none q.fault))) [
      | inl e ↦ inr (pop-none q e)
      | inr e ↦
          let fine : q.fault ≡ none = ground (arith, e) in
          let idle : q.running ≡ none = ground (arith, e) in
          let some_wait : 0 < q.len = ground (arith, e) in
          let (r, at, stamp) = first_waits q v some_wait in
          let rest : busy q ≡ 0 = ap (λ o. bit (not (is_none o))) idle in
          inl (
            fine,
            idle,
            some_wait,
            (r, pop-some q r fine idle some_wait at, omega (arith, stamp, rest)),
          )
    ]

pub pop-IsValid : (q : Queue) → IsValid q → IsValid ((pop q).0)
pop-IsValid q v = elim (pop_in_order q v) [
  | inl h ↦
      let r = h.3.0 in
      let rest : busy q ≡ 0 = ap (λ o. bit (not (is_none o))) h.1 in
      rw (h.3.1) (popped-IsValid q r v h.1 h.2 (omega (arith, h.3.2, rest)))
  | inr e ↦ rw e v
]

claim_popped-IsValid :
    (ticket : Ticket) (p : Queue × Option Request)
    → IsValid (p.0)
    → IsValid ((claim_popped ticket p).0)
claim_popped-IsValid ticket (q, none) v = set_fault-IsValid q (some Error.invalid_completion) v
claim_popped-IsValid ticket (q, some r) v = elim (Bool-cases (r.ticket == ticket)) [
  | inl e ↦ rw e v
  | inr e ↦ rw e (set_fault-IsValid q (some Error.invalid_completion) v)
]

claim_pushed-IsValid :
    (p : Queue × Result Ticket Error) → IsValid (p.0) → IsValid ((claim_pushed p).0)
unfolding claim_pushed
claim_pushed-IsValid (q, err e) v = v
claim_pushed-IsValid (q, ok ticket) v = claim_popped-IsValid ticket (pop q) (pop-IsValid q v)

begin_polled-IsValid :
    (q : Queue) (reason : ℕ) (p : Result (Poll (Unit {0})) Error)
    → IsValid q
    → IsValid ((begin_polled q reason p).0)
unfolding begin_polled
begin_polled-IsValid q reason (err e) v = v
begin_polled-IsValid q reason (ok Poll.pending) v = reject-IsValid q Error.busy v
begin_polled-IsValid q reason (ok (Poll.ready u)) v =
    claim_pushed-IsValid (push q reason) (push-IsValid q reason v)

is_ticket-eq : (o : Option Ticket) (t : Ticket) → is_ticket o t ≡ true → o ≡ some t
is_ticket-eq none t e = ground arith
is_ticket-eq (some u) t e = ap some (==→eq u t e)

complete_current :
    (q : Queue) (code : ℤ)
    → q.running ≡ some (q.issued - q.len)
    → complete q (q.issued - q.len) code ≡ (settled q code, ok tt)
unfolding complete
complete_current q code on = rw on (ground (arith, ==_self (q.issued - q.len)))

complete-IsValid : (q : Queue) (t : Ticket) (code : ℤ) → IsValid q → IsValid ((complete q t code).0)
unfolding complete
complete-IsValid q t code v = elim (Bool-cases (is_ticket q.running t)) [
  | inr e ↦ rw e (set_fault-IsValid q (some Error.invalid_completion) v)
  | inl e ↦ elim (v.current) [
    | inl n ↦ absurd (ground (arith, n, e))
    | inr on ↦
        let same : t ≡ q.issued - q.len = ground (arith, is_ticket-eq q.running t e, on) in
        rw e (rw same (settled-IsValid q code v on))
  ]
]

step-IsValid : (q : Queue) (op : Op) → IsValid q → IsValid (step q op)
unfolding step begin_inline wake_failed worker_unavailable
step-IsValid q (Op.push_op reason) v = push-IsValid q reason v
step-IsValid q Op.pop_op v = pop-IsValid q v
step-IsValid q (Op.begin_op reason) v = begin_polled-IsValid q reason (poll_idle q) v
step-IsValid q (Op.complete_op t code) v = complete-IsValid q t code v
step-IsValid q Op.wake_failed_op v = set_fault-IsValid q (some Error.wake_failed) v
step-IsValid q Op.worker_unavailable_op v = set_fault-IsValid q (some Error.worker_unavailable) v

-- From a valid queue, whatever operations follow: the tickets are 1 to the number issued, those that
-- wait stand in the ring in order and follow the running one, if there is one, which follows the
-- completed ones, and the last eight completions stand in the history under their tickets.
pub run-IsValid : (q : Queue) (ops : List Op) → IsValid q → IsValid (run q ops)
unfolding run
run-IsValid q [] v = v
run-IsValid q (op ∷ ops) v = run-IsValid (step q op) ops (step-IsValid q op v)

quiet_state :
    (q : Queue)
    → poll_idle q ≡ ok (Poll.ready tt)
    → (q.fault ≡ none) × (q.running ≡ none) × (q.len ≡ 0)
unfolding poll_idle poll_faulty poll_quiet
quiet_state q e = elim (Option-cases q.fault) [
  | inr f ↦ absurd (ground (arith, f, e))
  | inl f ↦ elim (Option-cases q.native_failure) [
    | inr n ↦ absurd (ground (arith, f, n, e))
    | inl n ↦ (f, ground (arith, f, n, e), ground (arith, f, n, e))
  ]
]

push_some :
    (q : Queue) (reason : ℕ)
    → q.fault ≡ none
    → q.len ≡ 0
    → q.issued < u64_max
    → push q reason ≡ (pushed q (request q reason), ok (q.issued + 1))
unfolding push push_healthy push_at
push_some q reason fine empty room = ground (arith, fine, empty, lt→ltb q.issued u64_max room)

-- From a valid queue that is idle and healthy, with ticket numbers left, a synchronous call is
-- admitted: it owns the ticket after all those issued, which is the only outstanding one.
pub inline_admitted :
    (q : Queue) (reason : ℕ)
    → IsValid q
    → poll_idle q ≡ ok (Poll.ready tt)
    → q.issued < u64_max
    → let r = request q reason in
      (begin_inline q reason ≡ (popped (pushed q r) r, ok r)) × (r.ticket ≡ suc (completed q))
unfolding begin_inline begin_polled claim_pushed
inline_admitted q reason v quiet room =
    let (fine, idle, empty) = quiet_state q quiet in
    let r = request q reason in
    let rest : busy q ≡ 0 = ap (λ o. bit (not (is_none o))) idle in
    let at : first (pushed q r) ≡ some r =
      ap (λ i. get_or (set q.requests i (some r)) q.head none) (omega (arith, v.head_fits, empty))
      ∙ get_or-set_same q.requests q.head (some r) none (omega (arith, v.room, v.head_fits)) in
    let taken = pop-some (pushed q r) r fine idle (omega arith) at in
    (
      rw quiet (
          rw (push_some q reason fine empty room)
            (rw taken (ground (arith, ==_self (q.issued + 1))))),
      omega (arith, rest, empty),
    )
