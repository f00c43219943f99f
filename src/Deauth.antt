-- ===== src/Deauth.antt =====
-- src/upstream_supplicant/deauth.rs: the queue of deauthentication requests, with receipts for the
-- native calls. A method on `&mut self` returns the new queue, beside its result where it has one.
pub mod Errors
pub mod Window
pub mod Steps
pub mod Receipts
pub mod Certificate
mod Tests
use hisi_rf_ws.Common.{
  ℕ, zero, suc, ◌+◌, ◌-◌, ◌%◌, List, [], ◌∷◌, Option, none, some, Bool, true, false, not, ◌&&◌,
  ◌||◌, ◌==◌, ltb, leb, Result, ok, err, if◌then◌else◌, ℤ, is_zero, replicate, set, get_or,
  find_slot, any_slot, checked_inc64, is_none,
}
use hisi_rf_ws.Deauth.Errors.{Error}

abbrev pub capacity : ℕ
capacity = 4

abbrev pub history_size : ℕ
history_size = 8

-- `Ticket(u64)`
abbrev pub Ticket : Type 0
Ticket = ℕ

pub record Request : Type 0 where
  pub ticket : Ticket
  pub reason : ℕ  -- u16

pub record Checkpoint : Type 0 where
  pub issued : ℕ  -- u64
  pub rejected : ℕ  -- u64

pub record Receipt : Type 0 where
  pub before : ℕ  -- u64
  pub through : ℕ  -- u64

pub data Returned : Type 0 where
  no_request ioctls : Returned

-- `core::task::Poll`
pub data Poll (A : Type 0) : Type 0 where
  pending : Poll A
  ready : A → Poll A

-- A completed ticket with its native status.
pub record Completion : Type 0 where
  pub id : Ticket
  pub code : ℤ  -- i32

pub record Queue : Type 0 where
  pub requests : List (Option Request)
  pub head : ℕ
  pub len : ℕ
  pub running : Option Ticket
  pub issued : ℕ  -- u64
  pub rejected : ℕ  -- u64
  pub history : List (Option Completion)
  pub history_next : ℕ
  pub fault : Option Error
  pub native_failure : Option ℤ

unfoldable pub new : Queue
new = record {
  requests = replicate capacity none;
  head = 0;
  len = 0;
  running = none;
  issued = 0;
  rejected = 0;
  history = replicate history_size none;
  history_next = 0;
  fault = none;
  native_failure = none;
}

unfoldable pub checkpoint : Queue → Checkpoint
checkpoint q = record { issued = q.issued; rejected = q.rejected }

abbrev pub fault_result : Option Error → Result (Unit {0}) Error
fault_result none = ok tt
fault_result (some error) = err error

unfoldable pub health : Queue → Result (Unit {0}) Error
health q = fault_result q.fault

-- The end of `poll_idle`, without a fault.
unfoldable pub poll_quiet : Queue → Option ℤ → Result (Poll (Unit {0})) Error
poll_quiet q (some code) = err (Error.native code)
poll_quiet q none =
    if not (q.rejected == 0)
    then err Error.rejected
    else ok (if not (is_none q.running) || not (q.len == 0) then Poll.pending else Poll.ready tt)

unfoldable pub poll_faulty : Queue → Option Error → Result (Poll (Unit {0})) Error
unfolding poll_quiet
poll_faulty q (some error) = err error
poll_faulty q none = poll_quiet q q.native_failure

unfoldable pub poll_idle : Queue → Result (Poll (Unit {0})) Error
unfolding poll_faulty
poll_idle q = poll_faulty q q.fault

abbrev pub reject_with : Queue → Error → Option ℕ → Queue × Error
reject_with q error none = (record q { fault = some Error.exhausted }, Error.exhausted)
reject_with q error (some count) = (record q { rejected = count }, error)

unfoldable pub reject : Queue → Error → Queue × Error
reject q error = reject_with q error (checked_inc64 q.rejected)

-- `Err(self.reject(error))`
abbrev pub rejected_as : {A : Type 0} → Queue × Error → Queue × Result A Error
rejected_as (q, error) = (q, err error)

-- The end of `push`, with the checked sequence number.
unfoldable pub push_at : Queue → ℕ → Option ℕ → Queue × Result Ticket Error
push_at q reason none = (record q { fault = some Error.exhausted }, err Error.exhausted)
push_at q reason (some sequence) =
    let r : Request = record { ticket = sequence; reason = reason } in
    (
      record q {
        requests = set q.requests ((q.head + q.len) % capacity) (some r);
        len = q.len + 1;
        issued = sequence;
      },
      ok sequence,
    )

unfoldable pub push_healthy : Queue → ℕ → Option Error → Queue × Result Ticket Error
unfolding push_at reject
push_healthy q reason (some error) = (q, err error)
push_healthy q reason none =
    if q.len == capacity
    then rejected_as (reject q Error.full)
    else push_at q reason (checked_inc64 q.issued)

unfoldable pub push : Queue → ℕ → Queue × Result Ticket Error
unfolding push_healthy
push q reason = push_healthy q reason q.fault

unfoldable pub pop_at : Queue → Option Request → Queue × Option Request
pop_at q none = (q, none)
pop_at q (some r) = (
  record q {
    requests = set q.requests q.head none;
    head = (q.head + 1) % capacity;
    len = q.len - 1;
    running = some r.ticket;
  },
  some r,
)

unfoldable pub pop : Queue → Queue × Option Request
unfolding pop_at
pop q =
    if not (is_none q.running) || (q.len == 0) || not (is_none q.fault)
    then (q, none)
    else pop_at q (get_or q.requests q.head none)

abbrev pub claim_popped : Ticket → Queue × Option Request → Queue × Result Request Error
claim_popped ticket (q, none) =
    (record q { fault = some Error.invalid_completion }, err Error.invalid_completion)
claim_popped ticket (q, some r) =
    if r.ticket == ticket
    then (q, ok r)
    else (record q { fault = some Error.invalid_completion }, err Error.invalid_completion)

unfoldable pub claim_pushed : Queue × Result Ticket Error → Queue × Result Request Error
unfolding pop
claim_pushed (q, err error) = (q, err error)
claim_pushed (q, ok ticket) = claim_popped ticket (pop q)

unfoldable pub begin_polled :
    Queue → ℕ → Result (Poll (Unit {0})) Error → Queue × Result Request Error
unfolding claim_pushed push reject
begin_polled q reason (err error) = (q, err error)
begin_polled q reason (ok Poll.pending) = rejected_as (reject q Error.busy)
begin_polled q reason (ok (Poll.ready done)) = claim_pushed (push q reason)

unfoldable pub begin_inline : Queue → ℕ → Queue × Result Request Error
unfolding begin_polled poll_idle
begin_inline q reason = begin_polled q reason (poll_idle q)

abbrev pub is_ticket : Option Ticket → Ticket → Bool
is_ticket none ticket = false
is_ticket (some other) ticket = other == ticket

abbrev pub keep_failure : Option ℤ → ℤ → Option ℤ
keep_failure (some first) code = some first
keep_failure none code = if is_zero code then none else some code

unfoldable pub complete : Queue → Ticket → ℤ → Queue × Result (Unit {0}) Error
complete q ticket code =
    if is_ticket q.running ticket
    then (
      record q {
        history = set q.history q.history_next (some (record { id = ticket; code = code }));
        history_next = (q.history_next + 1) % history_size;
        running = none;
        native_failure = keep_failure q.native_failure code;
      },
      ok tt,
    )
    else (record q { fault = some Error.invalid_completion }, err Error.invalid_completion)

unfoldable pub wake_failed : Queue → Queue
wake_failed q = record q { fault = some Error.wake_failed }

unfoldable pub worker_unavailable : Queue → Queue
worker_unavailable q = record q { fault = some Error.worker_unavailable }

unfoldable pub receipt_since : Queue → Checkpoint → Result Receipt Error
unfolding health
receipt_since q since = elim (health q) [
  | err error ↦ err error
  | ok done ↦
      if not (since.rejected == q.rejected)
      then err Error.rejected
      else if ltb q.issued since.issued || ltb history_size (q.issued - since.issued)
      then err Error.evidence_lost
      else ok (record { before = since.issued; through = q.issued })
]

abbrev pub has_id : Ticket → Completion → Bool
has_id ticket c = c.id == ticket

abbrev pub has_ticket : Ticket → Request → Bool
has_ticket ticket r = r.ticket == ticket

-- What is known of one ticket: `none` if its evidence is lost.
abbrev pub ticket_state : Queue → Ticket → Option (ℕ × Completion) → Option (Poll ℤ)
ticket_state q ticket (some (index, c)) = some (Poll.ready c.code)
ticket_state q ticket none =
    if is_ticket q.running ticket || any_slot (has_ticket ticket) q.requests
    then some Poll.pending
    else none

-- The loop of `poll`: `n` tickets from `sequence` on.
unfoldable pub poll_tickets : Queue → ℕ → Ticket → Bool → Result (Poll Returned) Error
poll_tickets q zero sequence waiting =
    ok (if waiting then Poll.pending else Poll.ready Returned.ioctls)
poll_tickets q (suc n) sequence waiting =
    elim (ticket_state q sequence (find_slot (has_id sequence) q.history)) [
      | none ↦ err Error.evidence_lost
      | some Poll.pending ↦ poll_tickets q n (sequence + 1) true
      | some (Poll.ready code) ↦ elim (is_zero code) [
        | true ↦ poll_tickets q n (sequence + 1) waiting
        | false ↦ err (Error.native code)
      ]
    ]

unfoldable pub poll : Queue → Receipt → Result (Poll Returned) Error
unfolding health poll_tickets
poll q r = elim (health q) [
  | err error ↦ err error
  | ok done ↦
      if ltb q.issued r.through || ltb r.through r.before || ltb history_size (r.through - r.before)
      then err Error.evidence_lost
      else if r.before == r.through
      then ok (Poll.ready Returned.no_request)
      else poll_tickets q (r.through - r.before) (r.before + 1) false
]

-- One critical section on the queue.
pub data Op : Type 0 where
  push_op : ℕ → Op
  pop_op : Op
  begin_op : ℕ → Op
  complete_op : Ticket → ℤ → Op
  wake_failed_op : Op
  worker_unavailable_op : Op

unfoldable pub step : Queue → Op → Queue
step q (Op.push_op reason) = (push q reason).0
step q Op.pop_op = (pop q).0
step q (Op.begin_op reason) = (begin_inline q reason).0
step q (Op.complete_op ticket code) = (complete q ticket code).0
step q Op.wake_failed_op = wake_failed q
step q Op.worker_unavailable_op = worker_unavailable q

unfoldable pub run : Queue → List Op → Queue
unfolding step
run q [] = q
run q (op ∷ ops) = run (step q op) ops

-- `run_inline`: `during` is what other contexts do to the queue while the native call runs, `after`
-- between the completion and the wake, and `late` before the last look at the health.
unfoldable pub inline_begun :
    List Op
    → List Op
    → List Op
    → (ℕ → ℤ)
    → Bool
    → Queue × Result Request Error
    → Queue × Result ℤ Error
unfolding health run complete wake_failed
inline_begun during after late call woken (q, err error) = (q, err error)
inline_begun during after late call woken (q, ok request) =
    let code = call request.reason in
    let t = complete (run q during) request.ticket code in
    let u = run t.0 after in
    let v = run (if woken then u else wake_failed u) late in
    (
      v,
      elim (t.1) [
        | err error ↦ err error
        | ok done ↦ elim (health v) [ err error ↦ err error | ok fine ↦ ok code ]
      ],
    )

unfoldable pub run_inline :
    Queue → ℕ → List Op → List Op → List Op → (ℕ → ℤ) → Bool → Queue × Result ℤ Error
unfolding inline_begun begin_inline
run_inline q reason during after late call woken =
    inline_begun during after late call woken (begin_inline q reason)
