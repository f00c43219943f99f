-- ===== src/RxStop/Handler/Refines.antt =====
-- The handler follows its protocol.
use hisi_rf_ws.Common.{
  ℕ, ◌≡◌, refl, Option, true, ◌&&◌, ◌==◌, Result, ok, err, ℤ, is_zero, arith, inl, inr, Bool-cases,
}
use hisi_rf_ws.RxStop.{
  Transaction, Checkpoint, contract, queued_rx, same_worker, enter_at, check_deadline, step,
}
use hisi_rf_ws.RxStop.Handler.{
  StopMsg, is_command, Platform, World, call, critical, observe_now, handler_rebuild,
  handler_measure, handler_destroy, handler_stop, handler_checked, handler_in_mode,
  handler_on_worker, or_max, set_tasks, handler_identify, handler_entered, handler,
}
use hisi_rf_ws.RxStop.Handler.Protocol.{
  Stage, or_ended, Section, Reader, Call, Protocol, Protocol-trans,
}
use hisi_rf_ws.RxStop.Handler.Rebuilding.{
  Ends, asking, calling, critical-Protocol, observe_now-Protocol, fail_section-Ends,
  handler_finish-Ends, handler_rebuild-Readies,
}

module _ {S : Type 0} (p : Platform S) where
  handler_measure-Ends :
      (w : World S) (before after : ℕ) (status : ℤ)
      → Ends p Stage.measuring w (handler_measure p w before after status)
  unfolding handler_measure
  handler_measure-Ends w before after status =
      let (u, empty) = call p p.queue_empty w in
      let (v, now) = call p p.clock u in
      let clean = is_zero status && (after == 0) && (empty == 1) in
      let (x, r) = handler_rebuild p v clean now in
      let (b, path, ready) = handler_rebuild-Readies p v clean now in
      asking p Reader.queue_empty (
        asking p Reader.clock
          (Protocol-trans p path (handler_finish-Ends p b x before after empty status r ready)))

  handler_destroy-Protocol :
      (w : World S) → Protocol p Stage.destroying w Stage.destroying ((handler_destroy p w).0)
  unfolding handler_destroy
  handler_destroy-Protocol w = elim (Bool-cases ((p.mac_enabled w.native).1 == 0)) [
    | inl e ↦ rw e (
        calling p (Call.destroying_lists Stage.destroying w.native refl (ground (arith, e)))
          (Protocol.here Stage.destroying _))
    | inr e ↦ rw e (asking p Reader.mac_enabled (Protocol.here Stage.destroying _))
  ]

  handler_stop-Ends : (w : World S) → Ends p Stage.disabling w (handler_stop p w)
  unfolding handler_stop
  handler_stop-Ends w =
      let (w1, before) = call p p.mac_enabled w in
      let off : World S = record w1 { native = p.disable w1.native } in
      let w2 = observe_now p Checkpoint.at_disabled off in
      let (w3, status) = handler_destroy p w2 in
      let w4 = observe_now p Checkpoint.at_destroyed w3 in
      let (w5, after) = call p p.mac_enabled w4 in
      let (w6, present) = call p p.has_device w5 in
      let silenced =
        observe_now-Protocol p Stage.disabling Stage.destroying Checkpoint.at_disabled off
          Section.disabled in
      let emptied = Protocol-trans p (handler_destroy-Protocol w2) (
        observe_now-Protocol p Stage.destroying Stage.measuring Checkpoint.at_destroyed w3
          Section.destroyed) in
      let go : (r : World S × ℤ) → Ends p Stage.measuring w6 r → Ends p Stage.disabling w r =
        λ r rest. asking p Reader.mac_enabled (
          calling p (Call.disabling_mac Stage.disabling w1.native refl) (
            Protocol-trans p silenced (
              Protocol-trans p emptied
                (asking p Reader.mac_enabled (asking p Reader.has_device rest))))) in
      elim (Bool-cases present) [
        | inl e ↦ rw e (go _ (handler_measure-Ends w6 before after status))
        | inr e ↦ rw e (go _ (fail_section-Ends p Stage.measuring w6 contract Section.absent))
      ]

  handler_checked-Ends :
      (r : World S × Result (Unit {0}) ℤ)
      → Ends p (or_ended Stage.disabling r.1) r.0 (handler_checked p r)
  handler_checked-Ends (w, ok done) = handler_stop-Ends w
  handler_checked-Ends (w, err status) = Protocol.here (Stage.ended status) w

  handler_in_mode-Ends : (w : World S) → Ends p Stage.checking w (handler_in_mode p w)
  unfolding handler_in_mode
  handler_in_mode-Ends w =
      let (u, now) = call p p.clock w in
      let f = λ (t : Transaction). check_deadline t now in
      asking p Reader.clock (
        Protocol-trans p
          (critical-Protocol p Stage.checking (or_ended Stage.disabling) f u
            (λ t. Section.check t now))
          (handler_checked-Ends (critical p f u)))

  handler_on_worker-Ends : (w : World S) → Ends p Stage.checking w (handler_on_worker p w)
  unfolding handler_on_worker
  handler_on_worker-Ends w =
      let (u, rejected) = call p p.rejected w in
      let (v, thruput) = call p p.thruput u in
      elim (Bool-cases rejected) [
        | inl e ↦ rw e (
            asking p Reader.rejected
              (fail_section-Ends p Stage.checking u queued_rx Section.queued))
        | inr e ↦ elim (Bool-cases (thruput == 0)) [
          | inl f ↦
              rw (e, f)
                (asking p Reader.rejected (asking p Reader.thruput (handler_in_mode-Ends v)))
          | inr f ↦
              rw (e, f)
                (asking p Reader.rejected (
                  asking p Reader.thruput
                    (fail_section-Ends p Stage.checking v queued_rx Section.queued)))
        ]
      ]

  handler_identify-Ends : (w : World S) → Ends p Stage.identifying w (handler_identify p w)
  unfolding handler_identify step
  handler_identify-Ends w =
      let (w1, task) = call p p.worker w in
      let (w2, current) = call p p.current w1 in
      let f : Transaction → Transaction × Unit {0} =
        λ t. (set_tasks p task (or_max p current) t, tt) in
      let w3 = (critical p f w2).0 in
      let go : (r : World S × ℤ) → Ends p Stage.checking w3 r → Ends p Stage.identifying w r =
        λ r rest. asking p Reader.worker (
          asking p Reader.current (
            Protocol-trans p
              (critical-Protocol p Stage.identifying (λ done. Stage.checking) f w2
                (λ t. Section.identify t task (or_max p current)))
              rest)) in
      elim (Bool-cases (same_worker task current)) [
        | inl e ↦ rw e (go _ (handler_on_worker-Ends w3))
        | inr e ↦ rw e (go _ (fail_section-Ends p Stage.checking w3 contract Section.mismatched))
      ]

  handler_entered-Ends :
      (r : World S × Result (Unit {0}) ℤ)
      → Ends p (or_ended Stage.identifying r.1) r.0 (handler_entered p r)
  handler_entered-Ends (w, ok done) = handler_identify-Ends w
  handler_entered-Ends (w, err status) = Protocol.here (Stage.ended status) w

  pub handler_refines :
      (w : World S) (msg : Option StopMsg)
      → is_command msg ≡ true
      → let (u, status) = handler p w msg in Protocol p Stage.entering w (Stage.ended status) u
  unfolding handler
  handler_refines w msg e =
      let (u, now) = call p p.clock w in
      let f = λ (t : Transaction). enter_at t now in
      rw e (
        asking p Reader.clock (
          Protocol-trans p
            (critical-Protocol p Stage.entering (or_ended Stage.identifying) f u
              (λ t. Section.enter t now))
            (handler_entered-Ends (critical p f u))))
