-- ===== src/UserCleanup.antt =====
-- src/netif_l2/user_cleanup.rs: the tracker of checked native user deletions.
-- A method on `&mut self` returns the new tracker, beside its result where it has one.
pub mod Invariant
pub mod Receipts
pub mod Native
mod Tests
use hisi_rf_ws.Common.{
  ℕ, ◌+◌, List, Option, none, some, Bool, true, false, not, ◌&&◌, ◌||◌, ◌==◌, if◌then◌else◌,
  replicate, set, find_slot, any_slot, free_slot, checked_inc64, saturating_inc64, inc64, inc32,
  dec32,
}

abbrev pub slot_count : ℕ
slot_count = 4

abbrev pub contract_error : ℕ
contract_error = 0xffffff01

-- `Ticket(u64)`
abbrev pub Ticket : Type 0
Ticket = ℕ

-- What is known of the nested native free.
pub data Free : Type 0 where
  not_seen running : Free
  returned : ℕ → Free
  invalid : Free

pub record Active : Type 0 where
  pub ticket : Ticket
  pub user : ℕ
  pub free : Free

pub record UserCleanupDiagnostics : Type 0 where
  pub entered : ℕ  -- u64
  pub completed : ℕ  -- u64
  pub active : ℕ  -- u32
  pub free_completed : ℕ  -- u64
  pub unscoped_free : ℕ  -- u64
  pub fault : ℕ  -- u32
  pub last_outer_status : ℕ  -- u32
  pub last_free_status : Option ℕ
  pub last_checked_status : ℕ  -- u32

pub record Tracker : Type 0 where
  pub slots : List (Option Active)
  pub issued : ℕ  -- u64
  pub diagnostic : UserCleanupDiagnostics

abbrev pub has_user : ℕ → Active → Bool
has_user user a = a.user == user

abbrev pub has_ticket : Ticket → Active → Bool
has_ticket ticket a = a.ticket == ticket

abbrev pub is_not_seen : Free → Bool
is_not_seen Free.not_seen = true
is_not_seen _ = false

abbrev pub is_running : Free → Bool
is_running Free.running = true
is_running _ = false

-- The status that the free returned, if it has.
abbrev pub free_status : Free → Option ℕ
free_status (Free.returned status) = some status
free_status _ = none

unfoldable pub new : Tracker
new = record {
  slots = replicate slot_count none;
  issued = 0;
  diagnostic = record {
    entered = 0;
    completed = 0;
    active = 0;
    free_completed = 0;
    unscoped_free = 0;
    fault = 0;
    last_outer_status = 0;
    last_free_status = none;
    last_checked_status = 0;
  };
}

-- `fail` returns its argument as well; the callers that use the value name it themselves.
unfoldable pub fail : Tracker → ℕ → Tracker
fail t status =
    let d = t.diagnostic in
    record t { diagnostic = record d { fault = if d.fault == 0 then status else d.fault } }

unfoldable pub checked_status : Tracker → ℕ → ℕ
checked_status t status = if status == 0 then t.diagnostic.fault else status

unfoldable pub handshake_status : Tracker → ℕ
handshake_status t =
    let d = t.diagnostic in
    if not (d.fault == 0) then d.fault else if not (d.active == 0) then contract_error else 0

-- The end of `begin`, with the free slot and the checked sequence number.
unfoldable pub admit : Tracker → ℕ → Option ℕ → Option ℕ → Tracker × Option Ticket
unfolding fail
admit t user none sequence = (fail t contract_error, none)
admit t user (some index) none = (fail t contract_error, none)
admit t user (some index) (some sequence) =
    let d = t.diagnostic in
    let a : Active = record { ticket = sequence; user = user; free = Free.not_seen } in
    (
      record t {
        issued = sequence;
        slots = set t.slots index (some a);
        diagnostic = record d { entered = sequence; active = inc32 d.active };
      },
      some sequence,
    )

unfoldable pub begin : Tracker → ℕ → Tracker × Option Ticket
unfolding fail admit
begin t user =
    if (user == 0) || any_slot (has_user user) t.slots
    then (fail t contract_error, none)
    else admit t user (free_slot t.slots) (checked_inc64 t.issued)

-- A write through the `&mut Active` that a search returned.
unfoldable pub put_free : Tracker → ℕ → Active → Free → Tracker
put_free t index a free = record t { slots = set t.slots index (some (record a { free = free })) }

unfoldable pub begin_free_at : Tracker → Option (ℕ × Active) → Tracker × Option Ticket
unfolding fail put_free
begin_free_at t none =
    let d = t.diagnostic in
    (record t { diagnostic = record d { unscoped_free = saturating_inc64 d.unscoped_free } }, none)
begin_free_at t (some (index, a)) =
    if is_not_seen a.free
    then (put_free t index a Free.running, some a.ticket)
    else (fail (put_free t index a Free.invalid) contract_error, none)

unfoldable pub begin_free : Tracker → ℕ → Tracker × Option Ticket
unfolding begin_free_at
begin_free t user = begin_free_at t (find_slot (has_user user) t.slots)

unfoldable pub count_free : Tracker → Tracker
count_free t =
    let d = t.diagnostic in
    record t { diagnostic = record d { free_completed = saturating_inc64 d.free_completed } }

unfoldable pub finish_free_at : Tracker → ℕ → Option (ℕ × Active) → Tracker
unfolding fail put_free count_free
finish_free_at t status none = fail t contract_error
finish_free_at t status (some (index, a)) =
    let u = count_free (put_free t index a (Free.returned status)) in
    if is_running a.free
    then (if status == 0 then u else fail u status)
    else fail (put_free t index a Free.invalid) contract_error

unfoldable pub finish_free : Tracker → Ticket → ℕ → Tracker
unfolding finish_free_at
finish_free t ticket status = finish_free_at t status (find_slot (has_ticket ticket) t.slots)

abbrev pub status_or_contract : Option ℕ → ℕ
status_or_contract none = contract_error
status_or_contract (some status) = status

-- The status of a deletion: the outer one, or else that of the nested free.
abbrev pub checked : ℕ → Free → ℕ
checked outer free = if outer == 0 then status_or_contract (free_status free) else outer

-- `finish` once the slot is found: the slot is taken.
unfoldable pub take_slot : Tracker → ℕ → ℕ → Active → Tracker
take_slot t outer index a =
    let d = t.diagnostic in
    record t {
      slots = set t.slots index none;
      diagnostic = record d {
        active = dec32 d.active;
        completed = inc64 d.completed;
        last_outer_status = outer;
        last_free_status = free_status a.free;
      };
    }

unfoldable pub publish : Tracker → Tracker × ℕ
publish t =
    let d = t.diagnostic in
    (record t { diagnostic = record d { last_checked_status = d.fault } }, d.fault)

unfoldable pub finish_at : Tracker → ℕ → Option (ℕ × Active) → Tracker × ℕ
unfolding fail take_slot publish
finish_at t outer none = (fail t contract_error, contract_error)
finish_at t outer (some (index, a)) =
    let u = take_slot t outer index a in
    let status = checked outer a.free in publish (if status == 0 then u else fail u status)

abbrev pub find_ticket : Tracker → Option Ticket → Option (ℕ × Active)
find_ticket t none = none
find_ticket t (some ticket) = find_slot (has_ticket ticket) t.slots

unfoldable pub finish : Tracker → Option Ticket → ℕ → Tracker × ℕ
unfolding finish_at
finish t ticket outer = finish_at t outer (find_ticket t ticket)

-- One critical section on the tracker.
pub data Op : Type 0 where
  begin_op : ℕ → Op
  begin_free_op : ℕ → Op
  finish_free_op : Ticket → ℕ → Op
  finish_op : Option Ticket → ℕ → Op

unfoldable pub step : Tracker → Op → Tracker
step t (Op.begin_op user) = (begin t user).0
step t (Op.begin_free_op user) = (begin_free t user).0
step t (Op.finish_free_op ticket status) = finish_free t ticket status
step t (Op.finish_op ticket outer) = (finish t ticket outer).0

unfoldable pub run : Tracker → List Op → Tracker
unfolding step
run t List.[] = t
run t (List.◌∷◌ op ops) = run (step t op) ops
