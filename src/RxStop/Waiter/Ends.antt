-- ===== src/RxStop/Waiter/Ends.antt =====
-- The loop of `stop_once` ends before its fuel, and its success certifies a stopped receiver.
use hisi_rf_ws.Common.{
  ℕ, zero, suc, ◌+◌, ◌≤◌, ◌<◌, ◌≡◌, refl, List, [], ◌∷◌, Option, none, some, Bool, true, false, not,
  arith, Result, ok, err, is_ok, is_zero, ℤ, ◌||◌, ◌==◌, inl, inr, Bool-cases, Option-cases,
}
use hisi_rf_ws.RxStop.Rebuild.{RxRebuildDiagnostics}
use hisi_rf_ws.RxStop.{
  Transaction, Op, Checkpoint, deadline_ms, is_idle, fail, request_at, check_deadline, observe,
  enter, enter_at, enter_checked, may_rebuild_at, post_returned, finish, finish_at, result_checked,
  is_settled, result_at, report, step, run,
}
use hisi_rf_ws.RxStop.Certificate.{
  IsValid, run-IsValid, request_at-IsValid, observe-IsValid, post_returned-IsValid,
  result_at-IsValid, fail-IsValid,
}
use hisi_rf_ws.RxStop.Waiter.{
  Round, Calls, Outcome, stop_loop, stop_requested, stop_started, stop_and_wait, record_failure,
  stop_once,
}

-- A begun stop keeps its start time.
record Kept (t u : Transaction) : Type 0 where
  begun : is_idle t.phase ≡ false → is_idle u.phase ≡ false
  started : is_idle t.phase ≡ false → u.started_ms ≡ t.started_ms

Kept-same : (t : Transaction) → Kept t t
Kept-same t = ground arith

Kept-trans : {t u w : Transaction} → Kept t u → Kept u w → Kept t w
Kept-trans a b = ground (arith, a, b)

Kept-observe :
    (t : Transaction) (checkpoint : Checkpoint) (now : Option ℕ) → Kept t (observe t checkpoint now)
unfolding observe
Kept-observe t checkpoint now = ground arith

Kept-check : (t : Transaction) (now : Option ℕ) → Kept t (check_deadline t now).0
unfolding check_deadline
Kept-check t now = ground arith

Kept-request : (t : Transaction) (started : ℕ) → Kept t (request_at t started).0
unfolding request_at
Kept-request t started = ground arith

Kept-enter : (t : Transaction) → Kept t (enter t).0
unfolding enter
Kept-enter t = ground arith

Kept-enter_checked : (r : Transaction × Result (Unit {0}) ℤ) → Kept r.0 (enter_checked r).0
Kept-enter_checked (t, ok done) = Kept-enter t
Kept-enter_checked (t, err status) = Kept-same t

Kept-finish :
    (t : Transaction) (before after empty : ℕ) (status : ℤ)
    → Kept t (finish t before after empty status)
unfolding finish
Kept-finish t before after empty status = ground arith

Kept-post_returned : (t : Transaction) (status : ℤ) → Kept t (post_returned t status)
unfolding post_returned
Kept-post_returned t status = ground arith

Kept-report : (t : Transaction) (r : RxRebuildDiagnostics) → Kept t (report t r)
unfolding report
Kept-report t r = ground arith

Kept-fail : (t : Transaction) (status : ℤ) → Kept t (fail t status)
unfolding fail
Kept-fail t status = ground arith

Kept-result_checked : (r : Transaction × Result (Unit {0}) ℤ) → Kept r.0 (result_checked r).0
Kept-result_checked (t, ok done) = Kept-same t
Kept-result_checked (t, err status) = Kept-same t

Kept-result_at : (t : Transaction) (now : Option ℕ) → Kept t (result_at t now).0
unfolding result_at
Kept-result_at t now =
    let r = check_deadline t now in
    let a = Kept-trans (Kept-check t now) (Kept-result_checked r) in
    elim (Bool-cases (is_settled (result_checked r).1)) [
      | inl e ↦ rw e (Kept-trans a (Kept-observe (result_checked r).0 Checkpoint.at_observed now))
      | inr e ↦ rw e a
    ]

Kept-step : (t : Transaction) (op : Op) → Kept t (step t op)
unfolding step enter_at may_rebuild_at finish_at
Kept-step t Op.install_op = ground arith
Kept-step t (Op.request_op started) = Kept-request t started
Kept-step t (Op.enter_op now) =
    let u = observe t Checkpoint.at_entered now in
    Kept-trans (Kept-observe t Checkpoint.at_entered now)
      (Kept-trans (Kept-check u now) (Kept-enter_checked (check_deadline u now)))
Kept-step t (Op.tasks_op expected current) = ground arith
Kept-step t (Op.check_op now) = Kept-check t now
Kept-step t (Op.rebuild_op now) = Kept-check t now
Kept-step t (Op.report_op r) = Kept-report t r
Kept-step t (Op.finish_op now before after empty status) =
    let u = observe t Checkpoint.at_finished now in
    Kept-trans (Kept-observe t Checkpoint.at_finished now) (
      Kept-trans (Kept-check u now)
        (Kept-finish (check_deadline u now).0 before after empty status))
Kept-step t (Op.observe_op checkpoint now) = Kept-observe t checkpoint now
Kept-step t (Op.posted_op status) = Kept-post_returned t status
Kept-step t (Op.result_op now) = Kept-result_at t now
Kept-step t (Op.fail_op status) = Kept-fail t status

Kept-run : (t : Transaction) (ops : List Op) → Kept t (run t ops)
unfolding run
Kept-run t [] = Kept-same t
Kept-run t (op ∷ ops) = Kept-trans (Kept-step t op) (Kept-run (step t op) ops)

-- A stopped receiver, as the transaction has recorded it.
pub record Stopped (t : Transaction) : Type 0 where
  pub quiet : is_zero t.diagnostic.fault ≡ true
  pub entered : t.diagnostic.entered ≡ true
  pub returned : t.diagnostic.returned ≡ true
  pub posted : t.diagnostic.post_returned ≡ true
  pub disabled : t.diagnostic.mac_after ≡ 0
  pub emptied : t.diagnostic.descriptors_empty ≡ 1
  pub succeeded : is_zero t.diagnostic.native_status ≡ true

result_at-Stopped :
    (t : Transaction) (now : Option ℕ)
    → IsValid t
    → (result_at t now).1 ≡ ok true
    → Stopped (result_at t now).0
unfolding result_at check_deadline observe
result_at-Stopped t now v h = ground (arith, v.entered_exact, v.returned_exact, v.stopped)

result_at-err :
    (t : Transaction) (now : Option ℕ) {status : ℤ}
    → (result_at t now).1 ≡ err status
    → is_zero status ≡ false
unfolding result_at check_deadline
result_at-err t now h = ground arith

result_at-pending :
    (t : Transaction) (now : Option ℕ)
    → (result_at t now).1 ≡ ok false
    → (n : ℕ) × (now ≡ some n) × (n < t.started_ms + deadline_ms)
unfolding result_at check_deadline
result_at-pending t now h = elim (Option-cases now) [
  | inl e ↦ absurd (ground (arith, e))
  | inr r ↦ (r.0, r.1, ground (arith, r.1))
]

-- The clock advances by at least one millisecond with each sleep.
abbrev pub Ticks : (ℕ → Round) → ℕ → Type 0
Ticks rounds started = (i now : ℕ) → (rounds i).now ≡ some now → started + i ≤ now

-- What the loop may return: it does return, a stopped receiver or a nonzero status.
abbrev Waited : Outcome → Type 0
Waited none = ⊥
Waited (some (u, ok done)) = IsValid u × Stopped u
Waited (some (u, err status)) = IsValid u × (is_zero status ≡ false)

stop_loop-Waited :
    (rounds : ℕ → Round) (fuel i : ℕ) {t : Transaction}
    → Ticks rounds t.started_ms
    → i ≤ deadline_ms
    → deadline_ms < fuel + i
    → is_idle t.phase ≡ false
    → IsValid t
    → Waited (stop_loop rounds fuel i t)
unfolding stop_loop
stop_loop-Waited rounds zero i ticks low enough begun v = absurd (omega arith)
stop_loop-Waited rounds (suc fuel) i {t} ticks low enough begun v =
    query (result_at s now).1 refl (λ e.
      let (n, at, early) = result_at-pending s now e in
      stop_loop-Waited rounds fuel (suc i) (λ j m f. rw (same) (ticks j m f))
        (ground (arith, ticks i n at, early, kept.started begun)) (omega arith)
        ((Kept-trans kept asked).begun begun) w)
  where
    s : Transaction
    s = run t (rounds i).others

    now : Option ℕ
    now = (rounds i).now

    u : Transaction
    u = (result_at s now).0

    kept : Kept t s
    kept = Kept-run t (rounds i).others

    asked : Kept s u
    asked = Kept-result_at s now

    same : u.started_ms ≡ t.started_ms
    same = (Kept-trans kept asked).started begun

    w : IsValid u
    w = result_at-IsValid now (run-IsValid (rounds i).others v)

    rest : Outcome
    rest = stop_loop rounds fuel (suc i) u

    next :
        (b : Bool)
        → (rounds i).slept ≡ b
        → (result_at s now).1 ≡ ok false
        → ((result_at s now).1 ≡ ok false → Waited rest)
        → Waited (stop_loop rounds (suc fuel) i t)
    next true e d ih = rw (d, e, stop_loop) (ih d)
    next false e d ih = rw (d, e, stop_loop) (w, refl)

    query :
        (q : Result Bool ℤ)
        → (result_at s now).1 ≡ q
        → ((result_at s now).1 ≡ ok false → Waited rest)
        → Waited (stop_loop rounds (suc fuel) i t)
    query (err status) d ih = rw (d, stop_loop) (w, result_at-err s now d)
    query (ok true) d ih =
        rw (d, stop_loop) (w, result_at-Stopped s now (run-IsValid (rounds i).others v) d)
    query (ok false) d ih = next (rounds i).slept refl d ih

request_at-ok :
    (t : Transaction) (started : ℕ)
    → is_ok (request_at t started).1 ≡ true
    → ((request_at t started).0.started_ms ≡ started)
      × (is_idle (request_at t started).0.phase ≡ false)
unfolding request_at
request_at-ok t started h = ground arith

request_at-err :
    (t : Transaction) (started : ℕ) {status : ℤ}
    → (request_at t started).1 ≡ err status
    → is_zero status ≡ false
unfolding request_at
request_at-err t started h = ground arith

stop_requested-Waited :
    (c : Calls) (started : ℕ) (r : Transaction × Result (Unit {0}) ℤ)
    → Ticks c.rounds started
    → IsValid r.0
    → (is_ok r.1 ≡ true → (r.0.started_ms ≡ started) × (is_idle r.0.phase ≡ false))
    → ((status : ℤ) → r.1 ≡ err status → is_zero status ≡ false)
    → Waited (stop_requested c 1001 r)
unfolding stop_requested
stop_requested-Waited c started (t, err status) ticks v good bad = (v, bad status refl)
stop_requested-Waited c started (t, ok done) ticks v good bad =
    let s = run t c.sending in
    let o = observe s Checkpoint.at_posted c.sent_at in
    let u = post_returned o c.sent in
    let k =
      Kept-trans (Kept-run t c.sending) (
        Kept-trans (Kept-observe s Checkpoint.at_posted c.sent_at) (Kept-post_returned o c.sent)) in
    let (from, begun) = good refl in
    stop_loop-Waited c.rounds 1001 0 {t = u} (λ i n e. rw (k.started begun, from) (ticks i n e))
      (omega arith) (omega arith) (k.begun begun)
      (post_returned-IsValid c.sent
        (observe-IsValid Checkpoint.at_posted c.sent_at (run-IsValid c.sending v)))

stop_started-Waited :
    (c : Calls) {t : Transaction} (started : Option ℕ)
    → ((s : ℕ) → started ≡ some s → Ticks c.rounds s)
    → IsValid t
    → Waited (stop_started c 1001 t started)
stop_started-Waited c none ticks v = (v, refl)
stop_started-Waited c {t} (some s) ticks v =
    let u = run t c.requesting in
    stop_requested-Waited c s (request_at u s) (ticks s refl)
      (request_at-IsValid s (run-IsValid c.requesting v)) (request_at-ok u s)
      (λ status e. request_at-err u s e)

stop_and_wait-Waited :
    (c : Calls) {t : Transaction}
    → ((s : ℕ) → c.started ≡ some s → Ticks c.rounds s)
    → IsValid t
    → Waited (stop_and_wait c 1001 t)
unfolding stop_and_wait
stop_and_wait-Waited c ticks v = elim (Bool-cases (c.rejected || not (c.thruput == 0))) [
  | inl e ↦ rw e (v, refl)
  | inr e ↦ rw e (stop_started-Waited c c.started ticks v)
]

-- What `stop_once` may return, with the failure recorded.
abbrev pub StopOutcome : Outcome → Type 0
StopOutcome none = ⊥
StopOutcome (some (u, ok done)) = IsValid u × Stopped u
StopOutcome (some (u, err status)) =
    IsValid u × (is_zero status ≡ false) × (is_zero u.diagnostic.fault ≡ false)

record_failure-StopOutcome : (o : Outcome) → Waited o → StopOutcome (record_failure o)
unfolding fail
record_failure-StopOutcome none w = w
record_failure-StopOutcome (some (u, ok done)) w = w
record_failure-StopOutcome (some (u, err status)) (v, nz) =
    (fail-IsValid status v, nz, ground arith)

-- Where each sleep lets the clock advance by a millisecond at least, 1001 rounds are enough for
-- `stop_once` on a valid transaction to return, whatever other contexts do meanwhile. If it
-- succeeds, there is no fault, the handler was entered and has returned with status 0, the post has
-- returned, the MAC was read as disabled and the descriptor lists as empty; if it fails, its status
-- is not zero and the transaction holds a fault. In both cases the transaction is valid.
pub stop_once_lem :
    (c : Calls) {t : Transaction}
    → ((s : ℕ) → c.started ≡ some s → Ticks c.rounds s)
    → IsValid t
    → StopOutcome (stop_once c 1001 t)
unfolding stop_once
stop_once_lem c {t} ticks v =
    record_failure-StopOutcome (stop_and_wait c 1001 t) (stop_and_wait-Waited c ticks v)
