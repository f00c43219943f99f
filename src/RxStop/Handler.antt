-- ===== src/RxStop/Handler.antt =====
-- `handler` of rx_stop.rs: the stop as the device worker runs it.
-- The native functions are a parameter, over a native state that every call may change. Before each
-- critical section of the handler other contexts may enter theirs.
pub mod Protocol
pub mod Rebuilding
pub mod Refines
pub mod Status
use hisi_rf_ws.Common.{
  ℕ, ◌≡◌, List, Option, none, some, Bool, true, false, not, ◌&&◌, ◌||◌, ◌==◌, Result, ok, err,
  if◌then◌else◌, ℤ, pos, is_zero, u32_max,
}
use hisi_rf_ws.RxStop.{
  Transaction, Op, Checkpoint, contract, queued_rx, same_worker, fail, enter_at, check_deadline,
  observe, may_rebuild_at, report, finish_at, run,
}
use hisi_rf_ws.RxStop.Rebuild.{DescriptorOps, Counts, RxRebuildDiagnostics, mac_is_enabled, probe}

-- A message: its length and the two words of its payload (`none` for a null pointer).
pub record StopMsg : Type 0 where
  pub data_len : ℕ
  pub words : Option (ℕ × ℕ)

abbrev pub is_ticket : Option (ℕ × ℕ) → Bool
is_ticket none = false
is_ticket (some (a, b)) = (a == 0x3058524e) && (b == 1)

abbrev pub is_command : Option StopMsg → Bool
is_command none = false
is_command (some m) = (m.data_len == 8) && is_ticket m.words

pub record Platform (S : Type 0) : Type 0 where
  pub others : S → S × List Op
  pub clock : S → S × Option ℕ
  pub worker : S → S × ℕ
  pub current : S → S × Option ℕ
  pub rejected : S → S × Bool
  pub thruput : S → S × ℕ
  pub mac_enabled : S → S × ℕ
  pub disable : S → S
  pub initialize : S → S × ℤ
  pub destroy : S → S × ℤ
  pub counts : S → S × Counts
  pub has_device : S → S × Bool
  pub queue_empty : S → S × ℕ

pub record World (S : Type 0) : Type 0 where
  pub native : S
  pub transaction : Transaction

module _ {S : Type 0} (p : Platform S) where
  -- A native call.
  abbrev pub call : {A : Type 0} → (S → S × A) → World S → World S × A
  call f w = let (s, a) = f w.native in (record w { native = s }, a)

  -- A critical section.
  unfoldable pub critical : {A : Type 0} → (Transaction → Transaction × A) → World S → World S × A
  critical f w =
      let (s, ops) = p.others w.native in
      let (t, a) = f (run w.transaction ops) in (record { native = s; transaction = t }, a)

  unfoldable pub observe_now : Checkpoint → World S → World S
  unfolding critical
  observe_now checkpoint w =
      let (u, now) = call p.clock w in
      (critical {A = Unit {0}} (λ t. (observe t checkpoint now, tt)) u).0

  -- `NativeDescriptors`
  unfoldable pub descriptors : DescriptorOps (World S)
  descriptors = record {
    counts = λ w. call p.counts w;
    mac_enabled = λ w. call p.mac_enabled w;
    initialize = λ w.
        let (u, status) = call p.initialize w in (observe_now Checkpoint.at_initialized u, status);
    disable = λ w. record w { native = p.disable w.native };
    destroy =
        λ w. let (u, status) = call p.destroy w in (observe_now Checkpoint.at_cleaned u, status);
  }

  -- `return critical_section::with(|cs| STATE.borrow_ref_mut(cs).fail(status))`
  unfoldable pub fail_section : World S → ℤ → World S × ℤ
  unfolding critical
  fail_section w status = critical (λ t. (fail t status, (fail t status).diagnostic.fault)) w

  abbrev pub report_some : Transaction → Option RxRebuildDiagnostics → Transaction
  report_some t none = t
  report_some t (some r) = report t r

  -- The last critical section.
  unfoldable pub handler_finish :
      World S → ℕ → ℕ → ℕ → ℤ → Option RxRebuildDiagnostics → World S × ℤ
  unfolding critical
  handler_finish w before after empty status rebuild =
      let (u, now) = call p.clock w in
      critical
        (λ t.
          let v = finish_at (report_some t rebuild) now before after empty status in
          (v, v.diagnostic.fault))
        u

  -- The rebuild probe, if the transaction still allows it.
  unfoldable pub handler_rebuild : World S → Bool → Option ℕ → World S × Option RxRebuildDiagnostics
  unfolding critical
  handler_rebuild w clean now =
      if clean
      then (let (u, allowed) = critical (λ t. may_rebuild_at t now) w in
          if allowed then (let (v, r) = probe descriptors u in (v, some r)) else (u, none))
      else (w, none)

  unfoldable pub handler_measure : World S → ℕ → ℕ → ℤ → World S × ℤ
  unfolding handler_rebuild handler_finish
  handler_measure w before after status =
      let (u, empty) = call p.queue_empty w in
      let (v, now) = call p.clock u in
      let (x, rebuild) = handler_rebuild v (is_zero status && (after == 0) && (empty == 1)) now in
      handler_finish x before after empty status rebuild

  -- The descriptors are destroyed only if the MAC reads as disabled.
  unfoldable pub handler_destroy : World S → World S × ℤ
  handler_destroy w =
      let (u, disabled) = call p.mac_enabled w in
      if disabled == 0 then call p.destroy u else (u, mac_is_enabled)

  unfoldable pub handler_stop : World S → World S × ℤ
  unfolding observe_now handler_destroy handler_measure fail_section
  handler_stop w =
      let (w1, before) = call p.mac_enabled w in
      let w2 = observe_now Checkpoint.at_disabled (record w1 { native = p.disable w1.native }) in
      let (w3, status) = handler_destroy w2 in
      let w4 = observe_now Checkpoint.at_destroyed w3 in
      let (w5, after) = call p.mac_enabled w4 in
      let (w6, present) = call p.has_device w5 in
      if present then handler_measure w6 before after status else fail_section w6 contract

  abbrev pub handler_checked : World S × Result (Unit {0}) ℤ → World S × ℤ
  handler_checked (w, ok done) = handler_stop w
  handler_checked (w, err status) = (w, status)

  -- The second look at the deadline.
  unfoldable pub handler_in_mode : World S → World S × ℤ
  unfolding handler_stop critical
  handler_in_mode w =
      let (u, now) = call p.clock w in handler_checked (critical (λ t. check_deadline t now) u)

  unfoldable pub handler_on_worker : World S → World S × ℤ
  unfolding handler_in_mode fail_section
  handler_on_worker w =
      let (u, rejected) = call p.rejected w in
      if rejected
      then fail_section u queued_rx
      else (let (v, thruput) = call p.thruput u in
          if thruput == 0 then handler_in_mode v else fail_section v queued_rx)

  abbrev pub or_max : Option ℕ → ℕ
  or_max none = u32_max
  or_max (some n) = n

  abbrev pub set_tasks : ℕ → ℕ → Transaction → Transaction
  set_tasks expected current t =
      let d = t.diagnostic in
      record t { diagnostic = record d { expected_task = expected; current_task = current } }

  unfoldable pub handler_identify : World S → World S × ℤ
  unfolding handler_on_worker fail_section critical
  handler_identify w =
      let (w1, task) = call p.worker w in
      let (w2, current) = call p.current w1 in
      let w3 = (critical {A = Unit {0}} (λ t. (set_tasks task (or_max current) t, tt)) w2).0 in
      if same_worker task current then handler_on_worker w3 else fail_section w3 contract

  abbrev pub handler_entered : World S × Result (Unit {0}) ℤ → World S × ℤ
  handler_entered (w, ok done) = handler_identify w
  handler_entered (w, err status) = (w, status)

  unfoldable pub handler : World S → Option StopMsg → World S × ℤ
  unfolding handler_identify critical
  handler w msg =
      if is_command msg
      then (let (u, now) = call p.clock w in handler_entered (critical (λ t. enter_at t now) u))
      else call p.destroy w
