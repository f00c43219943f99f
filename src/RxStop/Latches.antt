-- ===== src/RxStop/Latches.antt =====
-- The stop is requested once, entered once, and a fault stays.
use hisi_rf_ws.Common.{
  ℕ, ◌≡◌, List, [], ◌∷◌, Option, true, false, arith, Result, ok, err, is_ok, is_zero, ℤ, ◌||◌, inl,
  inr, Bool-cases,
}
use hisi_rf_ws.RxStop.Rebuild.{RxRebuildDiagnostics}
use hisi_rf_ws.RxStop.{
  Transaction, Op, Checkpoint, is_idle, is_requested, fail, request_at, check_deadline, observe,
  enter, enter_at, enter_checked, may_rebuild_at, post_returned, finish, finish_at, result_checked,
  is_settled, result_at, report, step, run,
}

-- What can only change in one direction.
record Onwards (t u : Transaction) : Type 0 where
  begun : is_idle t.phase ≡ false → is_idle u.phase ≡ false
  inside :
      is_idle t.phase || is_requested t.phase ≡ false
      → is_idle u.phase || is_requested u.phase ≡ false
  faulted : is_zero t.diagnostic.fault ≡ false → u.diagnostic.fault ≡ t.diagnostic.fault

same-Onwards : (t : Transaction) → Onwards t t
same-Onwards t = ground arith

trans-Onwards : {t u w : Transaction} → Onwards t u → Onwards u w → Onwards t w
trans-Onwards a b = ground (arith, a, b)

fail-Onwards : (t : Transaction) (status : ℤ) → Onwards t (fail t status)
unfolding fail
fail-Onwards t status = ground arith

observe-Onwards :
    (t : Transaction) (checkpoint : Checkpoint) (now : Option ℕ)
    → Onwards t (observe t checkpoint now)
unfolding observe
observe-Onwards t checkpoint now = ground arith

check_deadline-Onwards : (t : Transaction) (now : Option ℕ) → Onwards t (check_deadline t now).0
unfolding check_deadline
check_deadline-Onwards t now = ground arith

request_at-Onwards : (t : Transaction) (started : ℕ) → Onwards t (request_at t started).0
unfolding request_at
request_at-Onwards t started = ground arith

enter-Onwards : (t : Transaction) → Onwards t (enter t).0
unfolding enter
enter-Onwards t = ground arith

enter_checked-Onwards : (r : Transaction × Result (Unit {0}) ℤ) → Onwards r.0 (enter_checked r).0
enter_checked-Onwards (t, ok done) = enter-Onwards t
enter_checked-Onwards (t, err status) = same-Onwards t

finish-Onwards :
    (t : Transaction) (before after empty : ℕ) (status : ℤ)
    → Onwards t (finish t before after empty status)
unfolding finish
finish-Onwards t before after empty status = ground arith

post_returned-Onwards : (t : Transaction) (status : ℤ) → Onwards t (post_returned t status)
unfolding post_returned
post_returned-Onwards t status = ground arith

report-Onwards : (t : Transaction) (r : RxRebuildDiagnostics) → Onwards t (report t r)
unfolding report
report-Onwards t r = ground arith

result_checked-Onwards : (r : Transaction × Result (Unit {0}) ℤ) → Onwards r.0 (result_checked r).0
result_checked-Onwards (t, ok done) = same-Onwards t
result_checked-Onwards (t, err status) = same-Onwards t

result_at-Onwards : (t : Transaction) (now : Option ℕ) → Onwards t (result_at t now).0
unfolding result_at
result_at-Onwards t now =
    let r = check_deadline t now in
    let a = trans-Onwards (check_deadline-Onwards t now) (result_checked-Onwards r) in
    elim (Bool-cases (is_settled (result_checked r).1)) [
      | inl e ↦
          rw e (trans-Onwards a (observe-Onwards (result_checked r).0 Checkpoint.at_observed now))
      | inr e ↦ rw e a
    ]

step-Onwards : (t : Transaction) (op : Op) → Onwards t (step t op)
unfolding step enter_at may_rebuild_at finish_at
step-Onwards t Op.install_op = ground arith
step-Onwards t (Op.request_op started) = request_at-Onwards t started
step-Onwards t (Op.enter_op now) =
    let u = observe t Checkpoint.at_entered now in
    trans-Onwards (observe-Onwards t Checkpoint.at_entered now)
      (trans-Onwards (check_deadline-Onwards u now) (enter_checked-Onwards (check_deadline u now)))
step-Onwards t (Op.tasks_op expected current) = ground arith
step-Onwards t (Op.check_op now) = check_deadline-Onwards t now
step-Onwards t (Op.rebuild_op now) = check_deadline-Onwards t now
step-Onwards t (Op.report_op r) = report-Onwards t r
step-Onwards t (Op.finish_op now before after empty status) =
    let u = observe t Checkpoint.at_finished now in
    trans-Onwards (observe-Onwards t Checkpoint.at_finished now) (
      trans-Onwards (check_deadline-Onwards u now)
        (finish-Onwards (check_deadline u now).0 before after empty status))
step-Onwards t (Op.observe_op checkpoint now) = observe-Onwards t checkpoint now
step-Onwards t (Op.posted_op status) = post_returned-Onwards t status
step-Onwards t (Op.result_op now) = result_at-Onwards t now
step-Onwards t (Op.fail_op status) = fail-Onwards t status

run-Onwards : (t : Transaction) (ops : List Op) → Onwards t (run t ops)
unfolding run
run-Onwards t [] = same-Onwards t
run-Onwards t (op ∷ ops) = trans-Onwards (step-Onwards t op) (run-Onwards (step t op) ops)

request-refused :
    (t : Transaction) (started : ℕ)
    → is_idle t.phase ≡ false
    → is_ok (request_at t started).1 ≡ false
unfolding request_at
request-refused t started h = ground arith

request_begins :
    (t : Transaction) (started : ℕ)
    → is_ok (request_at t started).1 ≡ true
    → is_idle (request_at t started).0.phase ≡ false
unfolding request_at
request_begins t started h = ground arith

-- After a request that succeeded, whatever critical sections follow, every further request is
-- refused.
pub one_request :
    (t : Transaction) (first second : ℕ) (ops : List Op)
    → is_ok (request_at t first).1 ≡ true
    → is_ok (request_at (run (request_at t first).0 ops) second).1 ≡ false
one_request t first second ops h =
    let u = (request_at t first).0 in
    request-refused (run u ops) second ((run-Onwards u ops).begun (request_begins t first h))

-- Once a fault is recorded, whatever critical sections follow, the waiter's query returns that
-- fault, the handler is not entered and the descriptors are not rebuilt, at any time.
pub rx_stop_fault_latches :
    (t : Transaction) (ops : List Op) (now : Option ℕ)
    → is_zero t.diagnostic.fault ≡ false
    → let u = run t ops in
      ((result_at u now).1 ≡ err t.diagnostic.fault)
      × ((enter_at u now).1 ≡ err t.diagnostic.fault)
      × ((may_rebuild_at u now).1 ≡ false)
unfolding result_at enter_at may_rebuild_at check_deadline observe
rx_stop_fault_latches t ops now h =
    let same = (run-Onwards t ops).faulted h in
    (ground (arith, same), ground (arith, same), ground (arith, same))
