-- ===== src/HostTx.antt =====
-- src/netif_l2/host_tx.rs: the tracker of frames handed to the native host queue 4.
-- A method on `&mut self` returns the new tracker, beside its result where it has one.
pub mod Table
pub mod Updates
pub mod Admission
pub mod Invariant
pub mod Drain
pub mod Tickets
pub mod Stale
pub mod Native
pub mod Wait
mod Tests
use hisi_rf_ws.Common.{
  ℕ, ◌+◌, List, Option, none, some, Bool, true, false, not, ◌&&◌, ◌||◌, Result, ok, err, ◌==◌,
  if◌then◌else◌, ℤ, negsuc, is_zero, replicate, set, max, find_slot, any_slot, free_slot, is_none,
  checked_inc64, saturating_inc64, inc64, inc32, dec32,
}

abbrev pub capacity : ℕ
capacity = 32

-- -0x1002 and -0x1003
abbrev pub contract_error : ℤ
contract_error = negsuc 0x1001

abbrev pub drain_timeout : ℤ
drain_timeout = negsuc 0x1002

-- `Ticket(u64)`
abbrev pub Ticket : Type 0
Ticket = ℕ

pub data Stage : Type 0 where
  queued executing executed freeing freed : Stage

pub record Active : Type 0 where
  pub ticket : Ticket
  pub pointer : ℕ
  pub stage : Stage
  pub post_returned : Bool

pub record HostTxDiagnostics : Type 0 where
  pub accepted : ℕ  -- u64
  pub processed : ℕ  -- u64
  pub dropped : ℕ  -- u64
  pub pending : ℕ  -- u32
  pub peak : ℕ  -- u32
  pub rejected : ℕ  -- u64
  pub callback_errors : ℕ  -- u64
  pub closed : Bool
  pub fault : ℤ  -- i32

pub record Tracker : Type 0 where
  pub slots : List (Option Active)
  pub diagnostic : HostTxDiagnostics
  pub terminal : Bool

pub data Rejection : Type 0 where
  release duplicate : Rejection

-- The result of `begin`; `panicked` stands for an `expect` that fails.
pub data Begun : Type 0 where
  admitted : Ticket → Begun
  refused : Rejection → Begun
  panicked : Begun

abbrev pub is_queued : Stage → Bool
is_queued Stage.queued = true
is_queued _ = false

abbrev pub is_executing : Stage → Bool
is_executing Stage.executing = true
is_executing _ = false

abbrev pub is_freeing : Stage → Bool
is_freeing Stage.freeing = true
is_freeing _ = false

abbrev pub is_executed : Stage → Bool
is_executed Stage.executed = true
is_executed _ = false

-- `matches!(a.stage, Stage::Executed | Stage::Freed)`
abbrev pub is_settled : Stage → Bool
is_settled Stage.executed = true
is_settled Stage.freed = true
is_settled _ = false

abbrev pub queued_at : ℕ → Active → Bool
queued_at pointer a = (a.pointer == pointer) && is_queued a.stage

abbrev pub has_ticket : Ticket → Active → Bool
has_ticket ticket a = a.ticket == ticket

unfoldable pub new : Tracker
new = record {
  slots = replicate capacity none;
  terminal = false;
  diagnostic = record {
    accepted = 0;
    processed = 0;
    dropped = 0;
    pending = 0;
    peak = 0;
    rejected = 0;
    callback_errors = 0;
    closed = false;
    fault = ℤ.pos 0;
  };
}

unfoldable pub fail : Tracker → ℤ → Tracker
fail t status =
    let d = t.diagnostic in
    record t {
      diagnostic = record d { fault = if is_zero d.fault then status else d.fault; closed = true };
    }

unfoldable pub reject : Tracker → Tracker
reject t =
    let d = t.diagnostic in
    record t { diagnostic = record d { rejected = saturating_inc64 d.rejected } }

-- The end of `begin`, with the searched slot and the checked sequence number.
unfoldable pub place : Tracker → ℕ → Option ℕ → Option ℕ → Tracker × Begun
place t pointer (some slot) (some sequence) =
    let d = t.diagnostic in
    let a : Active = record {
      ticket = sequence;
      pointer = pointer;
      stage = Stage.queued;
      post_returned = false;
    } in
    (
      record t {
        slots = set t.slots slot (some a);
        diagnostic = record d {
          accepted = sequence;
          pending = inc32 d.pending;
          peak = max d.peak (inc32 d.pending);
        };
      },
      Begun.admitted sequence,
    )
place t pointer _ _ = (t, Begun.panicked)

-- `begin` after the search for a duplicate.
unfoldable pub admit : Tracker → ℕ → Option ℕ → Option ℕ → Tracker × Begun
unfolding fail reject place
admit t pointer slot sequence =
    let u =
      if (pointer == 0) || is_none slot || is_none sequence then fail t contract_error else t in
    if u.diagnostic.closed then (reject u, Begun.refused release) else place u pointer slot sequence

unfoldable pub begin : Tracker → ℕ → Tracker × Begun
unfolding admit
begin t pointer =
    if any_slot (queued_at pointer) t.slots
    then (reject (fail t contract_error), Begun.refused duplicate)
    else admit t pointer (free_slot t.slots) (checked_inc64 t.diagnostic.accepted)

-- The end of `retire`: the slot that holds the ticket, if any.
unfoldable pub retire_at : Tracker → Option (ℕ × Active) → Tracker
retire_at t none = t
retire_at t (some (index, a)) =
    let d = t.diagnostic in
    if not a.post_returned || not (is_settled a.stage) then t else record t {
      slots = set t.slots index none;
      diagnostic = record d {
        pending = dec32 d.pending;
        processed = if is_executed a.stage then inc64 d.processed else d.processed;
        dropped = if is_executed a.stage then d.dropped else inc64 d.dropped;
      };
    }

unfoldable pub retire : Tracker → Ticket → Tracker
unfolding retire_at
retire t ticket = retire_at t (find_slot (has_ticket ticket) t.slots)

-- A write through the `&mut Active` that a search returned.
unfoldable pub put_at : Tracker → ℕ → Active → Tracker
put_at t index a = record t { slots = set t.slots index (some a) }

unfoldable pub fail_unless_zero : Tracker → ℤ → Tracker
unfolding fail
fail_unless_zero t status = if is_zero status then t else fail t status

unfoldable pub post_returned_at : Tracker → Ticket → ℤ → Option (ℕ × Active) → Tracker
unfolding fail fail_unless_zero put_at retire
post_returned_at t ticket status none = fail t contract_error
post_returned_at t ticket status (some (index, a)) =
    if a.post_returned
    then fail t contract_error
    else retire (fail_unless_zero (put_at t index (record a { post_returned = true })) status)
        ticket

unfoldable pub post_returned : Tracker → Ticket → ℤ → Tracker
unfolding post_returned_at
post_returned t ticket status =
    post_returned_at t ticket status (find_slot (has_ticket ticket) t.slots)

unfoldable pub dispatch_at : Tracker → Option (ℕ × Active) → Tracker × Option Ticket
unfolding fail put_at
dispatch_at t none = (fail t contract_error, none)
dispatch_at t (some (index, a)) =
    (put_at t index (record a { stage = Stage.executing }), some a.ticket)

unfoldable pub dispatch : Tracker → ℕ → Tracker × Option Ticket
unfolding dispatch_at
dispatch t pointer = dispatch_at t (find_slot (queued_at pointer) t.slots)

unfoldable pub before_free_at : Tracker → Option (ℕ × Active) → Tracker × Option Ticket
unfolding put_at
before_free_at t none = (t, none)
before_free_at t (some (index, a)) =
    (put_at t index (record a { stage = Stage.freeing }), some a.ticket)

unfoldable pub before_free : Tracker → ℕ → Tracker × Option Ticket
unfolding before_free_at
before_free t pointer = before_free_at t (find_slot (queued_at pointer) t.slots)

-- `callback_errors` counts a failed execution, which also faults.
unfoldable pub callback_failed : Tracker → ℤ → Tracker
unfolding fail
callback_failed t status =
    let d = t.diagnostic in
    fail
      (record t { diagnostic = record d { callback_errors = saturating_inc64 d.callback_errors } })
      status

unfoldable pub complete_at : Tracker → Ticket → Bool → ℤ → Option (ℕ × Active) → Tracker
unfolding fail put_at callback_failed retire
complete_at t ticket for_free status none = fail t contract_error
complete_at t ticket true status (some (index, a)) =
    if is_freeing a.stage
    then if is_zero status
      then retire (put_at t index (record a { stage = Stage.freed })) ticket
      else fail t status
    else fail t contract_error
complete_at t ticket false status (some (index, a)) =
    let u = put_at t index (record a { stage = Stage.executed }) in
    if is_executing a.stage
    then retire (if is_zero status then u else callback_failed u status) ticket
    else fail t contract_error

unfoldable pub complete : Tracker → Ticket → Bool → ℤ → Tracker
unfolding complete_at
complete t ticket for_free status =
    complete_at t ticket for_free status (find_slot (has_ticket ticket) t.slots)

unfoldable pub close : Tracker → Tracker
close t = let d = t.diagnostic in record t { diagnostic = record d { closed = true } }

unfoldable pub seal : Tracker → Tracker
unfolding close
seal t = close (record t { terminal = true })

unfoldable pub resume_handshake : Tracker → ℤ → Tracker × Result (Unit {0}) ℤ
resume_handshake t native_status =
    let d = t.diagnostic in
    if not (is_zero native_status)
    then (t, err native_status)
    else if not (is_zero d.fault)
    then (t, err d.fault)
    else if t.terminal || not (d.pending == 0)
    then (t, err contract_error)
    else (record t { diagnostic = record d { closed = false } }, ok tt)

unfoldable pub drained : Tracker → Result Bool ℤ
drained t =
    let d = t.diagnostic in
    if not (is_zero d.fault) then err d.fault else ok (d.closed && (d.pending == 0))

-- One critical section on the tracker, as the wrappers and the lifecycle owner enter them.
pub data Op : Type 0 where
  begin_op : ℕ → Op
  post_returned_op : Ticket → ℤ → Op
  dispatch_op : ℕ → Op
  before_free_op : ℕ → Op
  complete_op : Ticket → Bool → ℤ → Op
  close_op : Op
  seal_op : Op
  fail_op : ℤ → Op
  resume_op : ℤ → Op

unfoldable pub step : Tracker → Op → Tracker
step t (Op.begin_op pointer) = (begin t pointer).0
step t (Op.post_returned_op ticket status) = post_returned t ticket status
step t (Op.dispatch_op pointer) = (dispatch t pointer).0
step t (Op.before_free_op pointer) = (before_free t pointer).0
step t (Op.complete_op ticket for_free status) = complete t ticket for_free status
step t Op.close_op = close t
step t Op.seal_op = seal t
step t (Op.fail_op status) = fail t status
step t (Op.resume_op status) = (resume_handshake t status).0

-- Any interleaving of critical sections.
unfoldable pub run : Tracker → List Op → Tracker
unfolding step
run t List.[] = t
run t (List.◌∷◌ op ops) = run (step t op) ops
