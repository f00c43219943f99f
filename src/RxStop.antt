-- ===== src/RxStop.antt =====
-- src/netif_l2/rx_stop.rs: the transaction of the one-shot native RX stop.
-- A method on `&mut self` returns the new transaction, beside its result where it has one.
pub mod Rebuild
pub mod Certificate
pub mod Latches
pub mod Waiter
pub mod Handler
mod Tests
use hisi_rf_ws.Common.{
  ℕ, ◌-◌, List, [], ◌∷◌, Option, none, some, Bool, true, false, not, ◌&&◌, ◌||◌, ◌==◌, ltb, leb,
  Result, ok, err, is_ok, if◌then◌else◌, ℤ, pos, negsuc, is_zero, replicate, set, get_or, u32_max,
}
use hisi_rf_ws.RxStop.Rebuild.{RxRebuildDiagnostics, mac_is_enabled, no_counts}

-- -0x1020, -0x1021, -0x1023 and -0x1024; -0x1022 is `mac_is_enabled`
abbrev pub contract : ℤ
contract = negsuc 0x101f

abbrev pub timeout : ℤ
timeout = negsuc 0x1020

abbrev pub descriptors_remain : ℤ
descriptors_remain = negsuc 0x1022

abbrev pub queued_rx : ℤ
queued_rx = negsuc 0x1023

abbrev pub deadline_ms : ℕ
deadline_ms = 1000

pub data Checkpoint : Type 0 where
  at_entered at_disabled at_destroyed at_initialized at_cleaned at_finished at_posted at_observed :
      Checkpoint

-- `checkpoint as usize`
abbrev pub checkpoint_index : Checkpoint → ℕ
checkpoint_index Checkpoint.at_entered = 0
checkpoint_index Checkpoint.at_disabled = 1
checkpoint_index Checkpoint.at_destroyed = 2
checkpoint_index Checkpoint.at_initialized = 3
checkpoint_index Checkpoint.at_cleaned = 4
checkpoint_index Checkpoint.at_finished = 5
checkpoint_index Checkpoint.at_posted = 6
checkpoint_index Checkpoint.at_observed = 7

unfoldable pub same_worker : ℕ → Option ℕ → Bool
same_worker expected none = false
same_worker expected (some current) =
    not (expected == 0) && not (expected == u32_max) && (current == expected)

pub data Phase : Type 0 where
  idle requested executing returned : Phase

pub record RxStopDiagnostics : Type 0 where
  pub installed : Bool
  pub requested : Bool
  pub entered : Bool
  pub returned : Bool
  pub post_returned : Bool
  pub mac_before : ℕ  -- u8
  pub mac_after : ℕ  -- u8
  pub descriptors_empty : ℕ  -- u8
  pub native_status : ℤ  -- i32
  pub fault : ℤ  -- i32
  pub expected_task : ℕ  -- u32
  pub current_task : ℕ  -- u32
  pub rebuild : RxRebuildDiagnostics
  pub timings : List ℕ  -- [u32; 8]

pub record Transaction : Type 0 where
  pub phase : Phase
  pub diagnostic : RxStopDiagnostics
  pub started_ms : ℕ  -- u64

abbrev pub is_idle : Phase → Bool
is_idle Phase.idle = true
is_idle _ = false

abbrev pub is_requested : Phase → Bool
is_requested Phase.requested = true
is_requested _ = false

abbrev pub is_executing : Phase → Bool
is_executing Phase.executing = true
is_executing _ = false

abbrev pub is_returned : Phase → Bool
is_returned Phase.returned = true
is_returned _ = false

unfoldable pub new : Transaction
new = record {
  phase = Phase.idle;
  started_ms = 0;
  diagnostic = record {
    installed = false;
    requested = false;
    entered = false;
    returned = false;
    post_returned = false;
    mac_before = 0xff;
    mac_after = 0xff;
    descriptors_empty = 0xff;
    native_status = pos 0;
    fault = pos 0;
    expected_task = 0;
    current_task = 0;
    rebuild = record {
      expected = no_counts;
      actual = no_counts;
      cleaned = no_counts;
      mac_after_init = 0xff;
      mac_after_cleanup = 0xff;
      attempted = false;
      cleanup_attempted = false;
      init_status = pos 0;
      cleanup_status = pos 0;
      fault = pos 0;
    };
    timings = replicate 8 u32_max;
  };
}

-- `fail` returns the fault that is then recorded.
unfoldable pub fail : Transaction → ℤ → Transaction
fail t status =
    let d = t.diagnostic in
    record t { diagnostic = record d { fault = if is_zero d.fault then status else d.fault } }

-- `Err(self.fail(status))`
abbrev pub fail_with {ℓ} : {A : Type ℓ} → Transaction → ℤ → Transaction × Result A ℤ
fail_with t status = (fail t status, err (fail t status).diagnostic.fault)

unfoldable pub request : Transaction → Transaction × Result (Unit {0}) ℤ
unfolding fail
request t =
    let d = t.diagnostic in
    if not d.installed || not (is_idle t.phase) || not (is_zero d.fault)
    then fail_with t contract
    else (record t { phase = Phase.requested; diagnostic = record d { requested = true } }, ok tt)

abbrev pub start_at : ℕ → Transaction × Result (Unit {0}) ℤ → Transaction × Result (Unit {0}) ℤ
start_at started_ms (t, ok done) = (record t { started_ms = started_ms }, ok done)
start_at started_ms (t, err status) = (t, err status)

unfoldable pub request_at : Transaction → ℕ → Transaction × Result (Unit {0}) ℤ
unfolding request
request_at t started_ms = start_at started_ms (request t)

-- `now.checked_sub(self.started_ms)` is less than the deadline.
abbrev pub in_time : ℕ → ℕ → Bool
in_time started now = leb started now && ltb (now - started) deadline_ms

-- The end of `check_deadline`, by the clock reading.
unfoldable pub check_time : Transaction → Option ℕ → Transaction × Result (Unit {0}) ℤ
unfolding fail
check_time t none = fail_with t contract
check_time t (some now) = if in_time t.started_ms now then (t, ok tt) else fail_with t timeout

unfoldable pub check_deadline : Transaction → Option ℕ → Transaction × Result (Unit {0}) ℤ
unfolding fail check_time
check_deadline t now =
    let d = t.diagnostic in
    if not (is_zero d.fault)
    then (t, err d.fault)
    else if not d.requested
    then fail_with t contract
    else check_time t now

-- Milliseconds since the request; `u32::MAX` where they are unknown or do not fit.
abbrev pub elapsed_since : ℕ → Option ℕ → ℕ
elapsed_since started none = u32_max
elapsed_since started (some now) =
    if leb started now && leb (now - started) u32_max then now - started else u32_max

unfoldable pub observe : Transaction → Checkpoint → Option ℕ → Transaction
observe t checkpoint now =
    let d = t.diagnostic in
    let i = checkpoint_index checkpoint in
    if d.requested && (get_or d.timings i 0 == u32_max)
    then record t {
      diagnostic = record d { timings = set d.timings i (elapsed_since t.started_ms now) };
    }
    else t

unfoldable pub enter : Transaction → Transaction × Result (Unit {0}) ℤ
unfolding fail
enter t =
    let d = t.diagnostic in
    if not (is_requested t.phase) || not (is_zero d.fault)
    then fail_with t contract
    else (record t { phase = Phase.executing; diagnostic = record d { entered = true } }, ok tt)

abbrev pub enter_checked : Transaction × Result (Unit {0}) ℤ → Transaction × Result (Unit {0}) ℤ
enter_checked (t, ok done) = enter t
enter_checked (t, err status) = (t, err status)

unfoldable pub enter_at : Transaction → Option ℕ → Transaction × Result (Unit {0}) ℤ
unfolding observe check_deadline enter
enter_at t now = enter_checked (check_deadline (observe t Checkpoint.at_entered now) now)

unfoldable pub may_rebuild : Transaction → Bool
may_rebuild t = is_executing t.phase && is_zero t.diagnostic.fault

unfoldable pub may_rebuild_at : Transaction → Option ℕ → Transaction × Bool
unfolding check_deadline may_rebuild
may_rebuild_at t now =
    let (u, checked) = check_deadline t now in (u, is_ok checked && may_rebuild u)

unfoldable pub post_returned : Transaction → ℤ → Transaction
unfolding fail
post_returned t status =
    let d = t.diagnostic in
    let u = if d.post_returned || not d.requested then fail t contract else t in
    let e = u.diagnostic in
    let v : Transaction = record u { diagnostic = record e { post_returned = true } } in
    if is_zero status then v else fail v status

-- The status of a finished stop.
abbrev pub finish_status : ℕ → ℕ → ℤ → ℤ
finish_status after empty status =
    if not (is_zero status)
    then status
    else if not (after == 0)
    then mac_is_enabled
    else if not (empty == 1)
    then descriptors_remain
    else pos 0

unfoldable pub finish : Transaction → ℕ → ℕ → ℕ → ℤ → Transaction
unfolding fail
finish t before after empty status =
    let d = t.diagnostic in
    let u : Transaction = record t {
      phase = Phase.returned;
      diagnostic = record d {
        returned = true;
        mac_before = before;
        mac_after = after;
        descriptors_empty = empty;
        native_status = status;
      };
    } in
    if not (is_executing t.phase)
    then fail t contract
    else if is_zero (finish_status after empty status)
    then u
    else fail u (finish_status after empty status)

unfoldable pub finish_at : Transaction → Option ℕ → ℕ → ℕ → ℕ → ℤ → Transaction
unfolding observe check_deadline finish
finish_at t now before after empty status =
    finish (check_deadline (observe t Checkpoint.at_finished now) now).0 before after empty status

unfoldable pub result : Transaction → Result Bool ℤ
result t =
    let d = t.diagnostic in
    if not (is_zero d.fault) then err d.fault else ok (is_returned t.phase && d.post_returned)

abbrev pub result_checked : Transaction × Result (Unit {0}) ℤ → Transaction × Result Bool ℤ
result_checked (t, ok done) = (t, result t)
result_checked (t, err status) = (t, err status)

-- `result != Ok(false)`
abbrev pub is_settled : Result Bool ℤ → Bool
is_settled (ok false) = false
is_settled _ = true

unfoldable pub result_at : Transaction → Option ℕ → Transaction × Result Bool ℤ
unfolding check_deadline result observe
result_at t now =
    let (u, outcome) = result_checked (check_deadline t now) in
    (if is_settled outcome then observe u Checkpoint.at_observed now else u, outcome)

-- One critical section on the transaction, as `install`, `stop_and_wait` and the handler enter
-- them.
pub data Op : Type 0 where
  install_op : Op
  request_op : ℕ → Op
  enter_op : Option ℕ → Op
  tasks_op : ℕ → ℕ → Op
  check_op : Option ℕ → Op
  rebuild_op : Option ℕ → Op
  report_op : RxRebuildDiagnostics → Op
  finish_op : Option ℕ → ℕ → ℕ → ℕ → ℤ → Op
  observe_op : Checkpoint → Option ℕ → Op
  posted_op : ℤ → Op
  result_op : Option ℕ → Op
  fail_op : ℤ → Op

-- The handler stores the report of the rebuild probe, and its fault if it has one.
unfoldable pub report : Transaction → RxRebuildDiagnostics → Transaction
unfolding fail
report t r =
    let d = t.diagnostic in
    let u : Transaction = record t { diagnostic = record d { rebuild = r } } in
    if is_zero r.fault then u else fail u r.fault

unfoldable pub step : Transaction → Op → Transaction
step t Op.install_op =
    let d = t.diagnostic in record t { diagnostic = record d { installed = true } }
step t (Op.request_op started) = (request_at t started).0
step t (Op.enter_op now) = (enter_at t now).0
step t (Op.tasks_op expected current) =
    let d = t.diagnostic in
    record t { diagnostic = record d { expected_task = expected; current_task = current } }
step t (Op.check_op now) = (check_deadline t now).0
step t (Op.rebuild_op now) = (may_rebuild_at t now).0
step t (Op.report_op r) = report t r
step t (Op.finish_op now before after empty status) = finish_at t now before after empty status
step t (Op.observe_op checkpoint now) = observe t checkpoint now
step t (Op.posted_op status) = post_returned t status
step t (Op.result_op now) = (result_at t now).0
step t (Op.fail_op status) = fail t status

unfoldable pub run : Transaction → List Op → Transaction
unfolding step
run t [] = t
run t (op ∷ ops) = run (step t op) ops
