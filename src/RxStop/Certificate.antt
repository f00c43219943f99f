-- ===== src/RxStop/Certificate.antt =====
-- What a successful result of the RX stop certifies.
use hisi_rf_ws.Common.{
  ℕ, ◌+◌, ◌≤◌, ◌<◌, ◌≡◌, refl, List, [], ◌∷◌, Option, some, true, not, arith, Result, ok, err,
  is_zero, ℤ, ◌||◌, inl, inr, Bool-cases, Option-cases,
}
use hisi_rf_ws.RxStop.Rebuild.{RxRebuildDiagnostics}
use hisi_rf_ws.RxStop.{
  Transaction, Op, Checkpoint, enter_checked, result_checked, is_settled, request_at, deadline_ms,
  is_idle, is_executing, is_returned, new, fail, check_deadline, observe, enter, enter_at,
  may_rebuild_at, post_returned, finish, finish_at, result_at, report, step, run,
}

-- The flags follow the phase, and without a fault a returned stop has its observations.
pub record IsValid (t : Transaction) : Type 0 where
  pub requested_exact : t.diagnostic.requested ≡ not (is_idle t.phase)
  pub entered_exact : t.diagnostic.entered ≡ is_executing t.phase || is_returned t.phase
  pub returned_exact : t.diagnostic.returned ≡ is_returned t.phase
  pub stopped :
      is_zero t.diagnostic.fault ≡ true
      → t.diagnostic.returned ≡ true
      → (t.diagnostic.mac_after ≡ 0)
        × (t.diagnostic.descriptors_empty ≡ 1)
        × (is_zero t.diagnostic.native_status ≡ true)

pub new-IsValid : IsValid new
unfolding new
new-IsValid = ground arith

pub fail-IsValid : {t : Transaction} (status : ℤ) → IsValid t → IsValid (fail t status)
unfolding fail
fail-IsValid status v = ground arith

pub observe-IsValid :
    {t : Transaction} (checkpoint : Checkpoint) (now : Option ℕ)
    → IsValid t
    → IsValid (observe t checkpoint now)
unfolding observe
observe-IsValid checkpoint now v = ground arith

check_deadline-IsValid :
    {t : Transaction} (now : Option ℕ) → IsValid t → IsValid (check_deadline t now).0
unfolding check_deadline
check_deadline-IsValid now v = ground arith

pub request_at-IsValid :
    {t : Transaction} (started : ℕ) → IsValid t → IsValid (request_at t started).0
unfolding request_at
request_at-IsValid started v = ground arith

pub post_returned-IsValid :
    {t : Transaction} (status : ℤ) → IsValid t → IsValid (post_returned t status)
unfolding post_returned
post_returned-IsValid status v = ground arith

report-IsValid : {t : Transaction} (r : RxRebuildDiagnostics) → IsValid t → IsValid (report t r)
unfolding report
report-IsValid r v = ground arith

enter-IsValid : {t : Transaction} → IsValid t → IsValid (enter t).0
unfolding enter
enter-IsValid v = ground arith

enter_checked-IsValid :
    (r : Transaction × Result (Unit {0}) ℤ) → IsValid r.0 → IsValid (enter_checked r).0
enter_checked-IsValid (t, ok done) v = enter-IsValid v
enter_checked-IsValid (t, err status) v = v

finish-IsValid :
    {t : Transaction} (before after empty : ℕ) (status : ℤ)
    → IsValid t
    → IsValid (finish t before after empty status)
unfolding finish
finish-IsValid before after empty status v = ground arith

result_checked-same : (r : Transaction × Result (Unit {0}) ℤ) → (result_checked r).0 ≡ r.0
result_checked-same (t, ok done) = refl
result_checked-same (t, err status) = refl

pub result_at-IsValid : {t : Transaction} (now : Option ℕ) → IsValid t → IsValid (result_at t now).0
unfolding result_at
result_at-IsValid {t} now v =
    let r = check_deadline t now in
    let w : IsValid (result_checked r).0 =
      rw (result_checked-same r) (check_deadline-IsValid now v) in
    elim (Bool-cases (is_settled (result_checked r).1)) [
      | inl e ↦ rw e (observe-IsValid Checkpoint.at_observed now w)
      | inr e ↦ rw e w
    ]

step-IsValid : {t : Transaction} (op : Op) → IsValid t → IsValid (step t op)
unfolding step enter_at may_rebuild_at finish_at
step-IsValid Op.install_op v = ground arith
step-IsValid (Op.request_op started) v = request_at-IsValid started v
step-IsValid {t} (Op.enter_op now) v =
    enter_checked-IsValid (check_deadline (observe t Checkpoint.at_entered now) now)
      (check_deadline-IsValid now (observe-IsValid Checkpoint.at_entered now v))
step-IsValid (Op.tasks_op expected current) v = ground arith
step-IsValid (Op.check_op now) v = check_deadline-IsValid now v
step-IsValid (Op.rebuild_op now) v = check_deadline-IsValid now v
step-IsValid (Op.report_op r) v = report-IsValid r v
step-IsValid (Op.finish_op now before after empty status) v =
    finish-IsValid before after empty status
      (check_deadline-IsValid now (observe-IsValid Checkpoint.at_finished now v))
step-IsValid (Op.observe_op checkpoint now) v = observe-IsValid checkpoint now v
step-IsValid (Op.posted_op status) v = post_returned-IsValid status v
step-IsValid (Op.result_op now) v = result_at-IsValid now v
step-IsValid (Op.fail_op status) v = fail-IsValid status v

pub run-IsValid : {t : Transaction} (ops : List Op) → IsValid t → IsValid (run t ops)
unfolding run
run-IsValid [] v = v
run-IsValid {t = t} (op ∷ ops) v = run-IsValid {t = step t op} ops (step-IsValid op v)

-- From a new transaction, after any critical sections: the flags follow the phase, and a stop that
-- has returned without any fault left the MAC disabled, the descriptor lists empty and a native
-- status of 0.
pub rx_stop-IsValid : (ops : List Op) → IsValid (run new ops)
rx_stop-IsValid ops = run-IsValid ops new-IsValid

-- If, after any critical sections from a new transaction, the waiter's query answers that the stop
-- is done, then no fault is recorded, the stop was requested, entered and returned, its post has
-- returned, the MAC was read as disabled, the descriptor lists as empty and the native status as 0,
-- and the query's clock reading is less than 1000 ms after the request.
pub stop_certified :
    (ops : List Op) (now : Option ℕ)
    → (result_at (run new ops) now).1 ≡ ok true
    → let t = run new ops in
      let d = t.diagnostic in
      (is_zero d.fault ≡ true)
      × (d.requested ≡ true)
      × (d.entered ≡ true)
      × (d.returned ≡ true)
      × (d.post_returned ≡ true)
      × (d.mac_after ≡ 0)
      × (d.descriptors_empty ≡ 1)
      × (is_zero d.native_status ≡ true)
      × ((n : ℕ) × (now ≡ some n) × (t.started_ms ≤ n) × (n < t.started_ms + deadline_ms))
unfolding result_at check_deadline
stop_certified ops now h = elim (Option-cases now) [
  | inl e ↦ absurd (ground (arith, e))
  | inr r ↦ certify (rx_stop-IsValid ops) r.0 r.1
]
  where
    t : Transaction
    t = run new ops

    certify :
        IsValid t
        → (n : ℕ) → now ≡ some n
        → (is_zero t.diagnostic.fault ≡ true)
          × (t.diagnostic.requested ≡ true)
          × (t.diagnostic.entered ≡ true)
          × (t.diagnostic.returned ≡ true)
          × (t.diagnostic.post_returned ≡ true)
          × (t.diagnostic.mac_after ≡ 0)
          × (t.diagnostic.descriptors_empty ≡ 1)
          × (is_zero t.diagnostic.native_status ≡ true)
          × ((n : ℕ) × (now ≡ some n) × (t.started_ms ≤ n) × (n < t.started_ms + deadline_ms))
    certify v n e = (
      ground arith,
      ground arith,
      ground (arith, v.entered_exact),
      ground (arith, v.returned_exact),
      ground arith,
      ground (arith, v.stopped, v.returned_exact),
      ground (arith, v.stopped, v.returned_exact),
      ground (arith, v.stopped, v.returned_exact),
      (n, e, ground arith, ground arith),
    )
