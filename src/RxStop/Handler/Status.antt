-- ===== src/RxStop/Handler/Status.antt =====
-- What a zero status of the handler certifies.
use hisi_rf_ws.Common.{
  ℕ, ◌≡◌, ◌∙◌, refl, Option, true, false, ◌&&◌, ◌==◌, Result, ok, err, ℤ, is_zero, arith, inl, inr,
  Bool-cases,
}
use hisi_rf_ws.RxStop.{
  Transaction, Checkpoint, contract, queued_rx, same_worker, is_returned, fail, enter_at,
  check_deadline, observe, finish, finish_at, run,
}
use hisi_rf_ws.RxStop.Rebuild.{RxRebuildDiagnostics}
use hisi_rf_ws.RxStop.Certificate.{IsValid}
use hisi_rf_ws.RxStop.Handler.{
  StopMsg, is_command, Platform, World, call, critical, observe_now, fail_section, report_some,
  handler_finish, handler_rebuild, handler_measure, handler_destroy, handler_stop, handler_checked,
  handler_in_mode, handler_on_worker, or_max, set_tasks, handler_identify, handler_entered, handler,
}
use hisi_rf_ws.RxStop.Handler.Protocol.{Protocol-IsValid}
use hisi_rf_ws.RxStop.Handler.Refines.{handler_refines}

finish-returned :
    (t : Transaction) (before after empty : ℕ) (status : ℤ)
    → is_zero (finish t before after empty status).diagnostic.fault ≡ true
    → is_returned (finish t before after empty status).phase ≡ true
unfolding finish
finish-returned t before after empty status h = ground arith

finish_at-returned :
    (t : Transaction) (now : Option ℕ) (before after empty : ℕ) (status : ℤ)
    → is_zero (finish_at t now before after empty status).diagnostic.fault ≡ true
    → is_returned (finish_at t now before after empty status).phase ≡ true
unfolding finish_at
finish_at-returned t now before after empty status h =
    let u = (check_deadline (observe t Checkpoint.at_finished now) now).0 in
    finish-returned u before after empty status h

check_deadline-err :
    (t : Transaction) (now : Option ℕ) {status : ℤ}
    → (check_deadline t now).1 ≡ err status
    → is_zero status ≡ false
unfolding check_deadline
check_deadline-err t now h = ground arith

enter_at-err :
    (t : Transaction) (now : Option ℕ) {status : ℤ}
    → (enter_at t now).1 ≡ err status
    → is_zero status ≡ false
unfolding enter_at
enter_at-err t now h = ground arith

fail-nonzero :
    (t : Transaction) (status : ℤ)
    → is_zero status ≡ false
    → is_zero (fail t status).diagnostic.fault ≡ false
unfolding fail
fail-nonzero t status h = ground arith

module _ {S : Type 0} (p : Platform S) where
  -- A zero status comes with a returned stop and no fault.
  abbrev Certifies : World S × ℤ → Type 0
  Certifies r =
      is_zero r.1 ≡ true
      → (is_returned r.0.transaction.phase ≡ true)
        × (is_zero r.0.transaction.diagnostic.fault ≡ true)

  fail_section-Certifies :
      (w : World S) (status : ℤ) → is_zero status ≡ false → Certifies (fail_section p w status)
  unfolding fail_section
  fail_section-Certifies w status h z =
      absurd (ground (arith, fail-nonzero (run w.transaction (p.others w.native).1) status h))

  handler_finish-Certifies :
      (w : World S) (before after empty : ℕ) (status : ℤ) (r : Option RxRebuildDiagnostics)
      → Certifies (handler_finish p w before after empty status r)
  unfolding handler_finish
  handler_finish-Certifies w before after empty status r z =
      let (u, now) = call p p.clock w in
      let t = report_some p (run u.transaction (p.others u.native).1) r in
      (finish_at-returned t now before after empty status z, z)

  handler_measure-Certifies :
      (w : World S) (before after : ℕ) (status : ℤ)
      → Certifies (handler_measure p w before after status)
  unfolding handler_measure
  handler_measure-Certifies w before after status =
      let (u, empty) = call p p.queue_empty w in
      let (v, now) = call p p.clock u in
      let (x, rebuild) = handler_rebuild p v (is_zero status && (after == 0) && (empty == 1)) now in
      handler_finish-Certifies x before after empty status rebuild

  handler_stop-Certifies : (w : World S) → Certifies (handler_stop p w)
  unfolding handler_stop
  handler_stop-Certifies w =
      let (w1, before) = call p p.mac_enabled w in
      let w2 = observe_now p Checkpoint.at_disabled (record w1 { native = p.disable w1.native }) in
      let (w3, status) = handler_destroy p w2 in
      let (w5, after) = call p p.mac_enabled (observe_now p Checkpoint.at_destroyed w3) in
      let (w6, present) = call p p.has_device w5 in
      elim (Bool-cases present) [
        | inl e ↦ rw e (handler_measure-Certifies w6 before after status)
        | inr e ↦ rw e (fail_section-Certifies w6 contract refl)
      ]

  handler_checked-Certifies :
      (r : World S × Result (Unit {0}) ℤ)
      → ((status : ℤ) → r.1 ≡ err status → is_zero status ≡ false)
      → Certifies (handler_checked p r)
  handler_checked-Certifies (w, ok done) bad = handler_stop-Certifies w
  handler_checked-Certifies (w, err status) bad = λ z. absurd (ground (arith, bad status refl))

  handler_in_mode-Certifies : (w : World S) → Certifies (handler_in_mode p w)
  unfolding handler_in_mode
  handler_in_mode-Certifies w =
      let (u, now) = call p p.clock w in
      handler_checked-Certifies (critical p (λ t. check_deadline t now) u)
        (λ status e. check_deadline-err (run u.transaction (p.others u.native).1) now e)

  handler_on_worker-Certifies : (w : World S) → Certifies (handler_on_worker p w)
  unfolding handler_on_worker
  handler_on_worker-Certifies w =
      let (u, rejected) = call p p.rejected w in
      let (v, thruput) = call p p.thruput u in
      elim (Bool-cases rejected) [
        | inl e ↦ rw e (fail_section-Certifies u queued_rx refl)
        | inr e ↦ elim (Bool-cases (thruput == 0)) [
          | inl f ↦ rw (e, f) (handler_in_mode-Certifies v)
          | inr f ↦ rw (e, f) (fail_section-Certifies v queued_rx refl)
        ]
      ]

  handler_identify-Certifies : (w : World S) → Certifies (handler_identify p w)
  unfolding handler_identify
  handler_identify-Certifies w =
      let (w1, task) = call p p.worker w in
      let (w2, current) = call p p.current w1 in
      let f : Transaction → Transaction × Unit {0} =
        λ t. (set_tasks p task (or_max p current) t, tt) in
      let w3 = (critical p f w2).0 in
      elim (Bool-cases (same_worker task current)) [
        | inl e ↦ rw e (handler_on_worker-Certifies w3)
        | inr e ↦ rw e (fail_section-Certifies w3 contract refl)
      ]

  handler_entered-Certifies :
      (r : World S × Result (Unit {0}) ℤ)
      → ((status : ℤ) → r.1 ≡ err status → is_zero status ≡ false)
      → Certifies (handler_entered p r)
  handler_entered-Certifies (w, ok done) bad = handler_identify-Certifies w
  handler_entered-Certifies (w, err status) bad = λ z. absurd (ground (arith, bad status refl))

  handler-Certifies :
      (w : World S) (msg : Option StopMsg) → is_command msg ≡ true → Certifies (handler p w msg)
  unfolding handler
  handler-Certifies w msg e =
      let (u, now) = call p p.clock w in
      rw e (
        handler_entered-Certifies (critical p (λ t. enter_at t now) u)
          (λ status e. enter_at-err (run u.transaction (p.others u.native).1) now e))

  -- If the handler answers the stop command with status 0 on a valid transaction, then the
  -- transaction has no fault and has returned, with the MAC read as disabled, the descriptor lists
  -- as empty and a native status of 0.
  pub handler_lem :
      (w : World S) (msg : Option StopMsg)
      → IsValid w.transaction
      → is_command msg ≡ true
      → is_zero (handler p w msg).1 ≡ true
      → let d = (handler p w msg).0.transaction.diagnostic in
        (is_zero d.fault ≡ true)
        × (d.returned ≡ true)
        × (d.mac_after ≡ 0)
        × (d.descriptors_empty ≡ 1)
        × (is_zero d.native_status ≡ true)
  handler_lem w msg v e z =
      let valid = Protocol-IsValid p (handler_refines p w msg e) v in
      let (gone, quiet) = handler-Certifies w msg e z in
      let back = valid.returned_exact ∙ gone in
      let (off, emptied, clean) = valid.stopped quiet back in (quiet, back, off, emptied, clean)
