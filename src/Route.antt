-- ===== src/Route.antt =====
-- src/netif_l2.rs, with src/netif_l2/host_delivery.rs and the route methods of
-- src/netif_l2/initial_session.rs: the callback route from the native receive path to one L2
-- instance. Each function is one critical section on the route's state.
pub mod Conservation
pub mod Epochs
pub mod Opening
mod Tests
use hisi_rf_ws.Common.{
  ℕ, ◌+◌, ◌↔◌, ◌≡◌, Option, none, some, Bool, true, false, not, ◌&&◌, ◌||◌, Result, ok, err, ◌>>=◌,
  ◌>>◌, refuse_if, ◌==◌, ltb, max, ◌-◌, if◌then◌else◌, inc32, dec32, inc64, u32_max, u64_max,
}
use hisi_rf_ws.InitialSession.{InitialSession, check}
use hisi_rf_ws.InitialSession

-- What the route takes from hisi-rf-core and from the executor: session generations and operation
-- ids with their equality, an ingress capability, wakers, and the queue's error type.
pub record Core : Type 1 where
  pub Generation : Type 0
  pub Ingress : Type 0
  pub Waker : Type 0
  pub OperationId : Type 0
  pub QueueError : Type 0
  pub same_generation : Generation → Generation → Bool
  pub same_generation_iff : (a b : Generation) → (same_generation a b ≡ true) ↔ (a ≡ b)
  pub same_operation : OperationId → OperationId → Bool
  pub same_operation_iff : (a b : OperationId) → (same_operation a b ≡ true) ↔ (a ≡ b)

pub data RouteError : Type 0 where
  already_registered callbacks_in_flight already_open open_interrupted : RouteError
  lifecycle_exhausted initial_session_rejected : RouteError

pub data LinkError (Q : Type 0) : Type 0 where
  route : RouteError → LinkError Q
  queue : Q → LinkError Q

pub record RouteDiagnostics : Type 0 where
  pub entered : ℕ  -- u64
  pub queued : ℕ  -- u64
  pub dropped : ℕ  -- u64
  pub closed_drops : ℕ  -- u64
  pub allocation_drops : ℕ  -- u64
  pub abandoned : ℕ  -- u64
  pub in_flight : ℕ  -- usize, 32 bits on the target
  pub transmits_in_flight : ℕ  -- usize

pub record HostDeliveryDiagnostics : Type 0 where
  pub entered : ℕ  -- u64
  pub returned : ℕ  -- u64
  pub abandoned : ℕ  -- u64
  pub in_flight : ℕ  -- u64
  pub peak_in_flight : ℕ  -- u64
  pub entered_while_closed : ℕ  -- u64
  pub crossed_close : ℕ  -- u64
  pub nonzero_returns : ℕ  -- u64
  pub exhausted : Bool

pub record AllocationEpoch : Type 0 where
  pub revision : Option ℕ  -- u64

abbrev pub same_revision : Option ℕ → Option ℕ → Bool
same_revision none none = true
same_revision (some a) (some b) = a == b
same_revision _ _ = false

abbrev pub is_some {ℓ} : {A : Type ℓ} → Option A → Bool
is_some none = false
is_some (some a) = true

-- `close_revision.and_then(|n| n.checked_add(1))`
abbrev pub next_revision : Option ℕ → Option ℕ
next_revision none = none
next_revision (some n) = if ltb n u64_max then some (n + 1) else none

-- `increment`: the counter, and the flag that it raises when the counter is full.
abbrev pub bumped : ℕ → ℕ
bumped value = if ltb value u64_max then value + 1 else value

abbrev pub overflowed : ℕ → Bool → Bool
overflowed value exhausted = if ltb value u64_max then exhausted else true

module _ (c : Core) where
  open c use {Generation, Ingress, Waker, OperationId, QueueError, same_generation, same_operation}

  pub record State : Type 0 where
    pub ingress : Option Ingress
    pub generation : Option Generation
    pub close_revision : Option ℕ  -- u64
    pub close_waker : Option Waker
    pub diagnostics : RouteDiagnostics
    pub host_deliveries : HostDeliveryDiagnostics
    pub initial : InitialSession OperationId
    pub initial_open_result : Option (Result (Unit {0}) (LinkError QueueError))

  pub record OpenIntent : Type 0 where
    pub close_revision : ℕ
    pub host_delivery_revision : ℕ
    pub initial_operation : Option OperationId

  -- `CallbackTicket`, without its reference to the route.
  pub record CallbackTicket : Type 0 where
    pub ingress : Ingress
    pub generation : Generation

  unfoldable pub new : State
  new = record {
    ingress = none;
    generation = none;
    close_revision = some 0;
    close_waker = none;
    diagnostics = record {
      entered = 0;
      queued = 0;
      dropped = 0;
      closed_drops = 0;
      allocation_drops = 0;
      abandoned = 0;
      in_flight = 0;
      transmits_in_flight = 0;
    };
    host_deliveries = record {
      entered = 0;
      returned = 0;
      abandoned = 0;
      in_flight = 0;
      peak_in_flight = 0;
      entered_while_closed = 0;
      crossed_close = 0;
      nonzero_returns = 0;
      exhausted = false;
    };
    initial = InitialSession.uninitialized;
    initial_open_result = none;
  }

  -- `State::close_admission`
  abbrev pub close_state : State → State
  close_state s = record s { generation = none; close_revision = next_revision s.close_revision }

  unfoldable pub claim : State → Ingress → State × Result (Unit {0}) RouteError
  claim s ingress =
      let d = s.diagnostics in
      if is_some s.ingress
      then (s, err already_registered)
      else if not (d.in_flight == 0) || not (d.transmits_in_flight == 0)
      then (s, err callbacks_in_flight)
      else if is_some s.close_revision
      then (record s { ingress = some ingress; generation = none }, ok tt)
      else (s, err lifecycle_exhausted)

  unfoldable pub allocation_epoch : State → AllocationEpoch
  allocation_epoch s = record {
    revision = if is_some s.ingress && is_some s.generation then s.close_revision else none;
  }

  -- An allocation outside the current epoch: `epoch.revision` is absent or another revision.
  abbrev pub is_foreign : State → Option AllocationEpoch → Bool
  is_foreign s none = false
  is_foreign s (some epoch) =
      not (is_some epoch.revision) || not (same_revision epoch.revision s.close_revision)

  abbrev pub count_entered : State → State
  count_entered s =
      let d = s.diagnostics in record s { diagnostics = record d { entered = inc64 d.entered } }

  -- The end of `enter_with_allocation`, by what the route holds.
  unfoldable pub admit : State → Option Ingress → Option Generation → State × Option CallbackTicket
  admit s (some ingress) (some generation) =
      let d = s.diagnostics in
      (
        record s { diagnostics = record d { in_flight = inc32 d.in_flight } },
        some (record { ingress = ingress; generation = generation }),
      )
  admit s _ _ =
      let d = s.diagnostics in
      (
        record s {
          diagnostics = record d { dropped = inc64 d.dropped; closed_drops = inc64 d.closed_drops };
        },
        none,
      )

  unfoldable pub enter_with_allocation :
      State → Option AllocationEpoch → State × Option CallbackTicket
  unfolding admit
  enter_with_allocation s allocation =
      let t = count_entered s in
      let d = t.diagnostics in
      if is_foreign t allocation
      then (
        record t {
          diagnostics = record d {
            dropped = inc64 d.dropped;
            allocation_drops = inc64 d.allocation_drops;
          };
        },
        none,
      )
      else admit t t.ingress t.generation

  unfoldable pub enter : State → State × Option CallbackTicket
  unfolding enter_with_allocation
  enter s = enter_with_allocation s none

  unfoldable pub enter_allocated : State → AllocationEpoch → State × Option CallbackTicket
  unfolding enter_with_allocation
  enter_allocated s epoch = enter_with_allocation s (some epoch)

  -- The waker that is returned is woken after the critical section.
  unfoldable pub close_admission : State → State × Option Waker
  close_admission s = (
    record (close_state s) { initial = InitialSession.rejected; close_waker = none },
    s.close_waker,
  )

  -- The waker that is replaced is dropped; the revision is returned.
  unfoldable pub subscribe_close : State → Waker → State × Option ℕ
  subscribe_close s waker = (record s { close_waker = some waker }, s.close_revision)

  abbrev pub is_generation : Option Generation → Generation → Bool
  is_generation none g = false
  is_generation (some h) g = same_generation h g

  -- True: a `TransmitTicket` is handed out.
  unfoldable pub enter_transmit : State → Generation → State × Bool
  enter_transmit s generation =
      let d = s.diagnostics in
      if is_generation s.generation generation
      then (if ltb d.transmits_in_flight u32_max
          then (
            record s { diagnostics = record d { transmits_in_flight = d.transmits_in_flight + 1 } },
            true,
          )
          else (s, false))
      else (s, false)

  -- The drop of a `TransmitTicket`.
  unfoldable pub drop_transmit : State → State
  drop_transmit s =
      let d = s.diagnostics in
      record s { diagnostics = record d { transmits_in_flight = dec32 d.transmits_in_flight } }

  abbrev pub is_busy : State → Bool
  is_busy s =
      not (s.diagnostics.in_flight == 0)
      || not (s.diagnostics.transmits_in_flight == 0)
      || not (s.host_deliveries.in_flight == 0)

  abbrev pub revision_or_exhausted : Option ℕ → Result ℕ RouteError
  revision_or_exhausted none = err lifecycle_exhausted
  revision_or_exhausted (some n) = ok n

  unfoldable pub prepare_open : State → Result OpenIntent RouteError
  prepare_open s = do
    refuse_if (is_some s.generation) already_open
    refuse_if s.host_deliveries.exhausted lifecycle_exhausted
    refuse_if (is_busy s) callbacks_in_flight
    revision ← revision_or_exhausted s.close_revision
    ok (record {
      close_revision = revision;
      host_delivery_revision = s.host_deliveries.entered;
      initial_operation = none;
    })

  unfoldable pub prepare_initial_open : State → OperationId → Result OpenIntent RouteError
  unfolding prepare_open
  prepare_initial_open s id = do
    intent ← prepare_open s
    refuse_if (not (check same_operation s.initial id)) initial_session_rejected
    ok (record intent { initial_operation = some id })

  -- The one-shot session of an intent that has one is checked again, and used up.
  abbrev pub consume_initial :
      InitialSession OperationId
      → Option OperationId
      → Result (InitialSession OperationId) RouteError
  consume_initial initial none = ok initial
  consume_initial initial (some id) =
      if check same_operation initial id
      then ok InitialSession.opened
      else err initial_session_rejected

  -- The new state, or the error with the state unchanged.
  unfoldable pub commit_open : State → OpenIntent → Generation → Result State RouteError
  commit_open s intent generation = do
    revision ← revision_or_exhausted s.close_revision
    refuse_if s.host_deliveries.exhausted lifecycle_exhausted
    refuse_if
        (not (revision == intent.close_revision)
          || not (s.host_deliveries.entered == intent.host_delivery_revision))
        open_interrupted
    refuse_if (is_some s.generation) already_open
    refuse_if (is_busy s) callbacks_in_flight
    initial ← consume_initial s.initial intent.initial_operation
    ok (record s { generation = some generation; initial = initial })

  -- `between` is what other contexts do between the two critical sections.
  unfoldable pub open_after_native_quiescence :
      State → (State → State) → Generation → Result State RouteError
  unfolding prepare_open commit_open
  open_after_native_quiescence s between generation = do
    intent ← prepare_open s
    commit_open (between s) intent generation

  -- The drop of the `Registration`.
  unfoldable pub drop_registration : State → State × Option Waker
  drop_registration s = (
    record (close_state s) {
      initial = InitialSession.rejected;
      ingress = none;
      close_waker = none;
    },
    s.close_waker,
  )

  -- `CallbackTicket::finish`, also run by the drop of an unfinished ticket.
  unfoldable pub finish : State → Bool → Bool → State
  finish s queued abandoned =
      let d = s.diagnostics in
      let e = record d { in_flight = dec32 d.in_flight } in
      record s {
        diagnostics = if queued then record e { queued = inc64 d.queued } else record e {
          dropped = inc64 d.dropped;
          abandoned = if abandoned then inc64 d.abandoned else d.abandoned;
        };
      }

  -- `CallbackTicket::receive`: the copy into the queue runs between its two critical sections.
  -- `offer` is the queue's answer at that time, and `between` what other contexts do meanwhile.
  unfoldable pub receive : State → (State → State) → CallbackTicket → Bool → State × Bool
  unfolding finish
  receive s between ticket offer =
      let queued = is_generation s.generation ticket.generation && offer in
      (finish (between s) queued false, queued)

  -- The entry of a host delivery; the close revision goes into its ticket.
  unfoldable pub begin_delivery : State → State × Option ℕ
  begin_delivery s =
      let d = s.host_deliveries in
      let entered_flag = overflowed d.entered d.exhausted in
      let flight_flag = overflowed d.in_flight entered_flag in
      let e = record d {
        entered = bumped d.entered;
        in_flight = bumped d.in_flight;
        peak_in_flight = max d.peak_in_flight (bumped d.in_flight);
        exhausted = flight_flag;
      } in
      (
        record s {
          host_deliveries = if is_some s.generation then e else record e {
            entered_while_closed = bumped d.entered_while_closed;
            exhausted = overflowed d.entered_while_closed flight_flag;
          };
        },
        s.close_revision,
      )

  abbrev pub count_returned : HostDeliveryDiagnostics → Option ℕ → HostDeliveryDiagnostics
  count_returned d none = record d {
    abandoned = bumped d.abandoned;
    exhausted = overflowed d.abandoned d.exhausted;
  }
  count_returned d (some status) =
      let e = record d {
        returned = bumped d.returned;
        exhausted = overflowed d.returned d.exhausted;
      } in
      if status == 0 then e else record e {
        nonzero_returns = bumped d.nonzero_returns;
        exhausted = overflowed d.nonzero_returns e.exhausted;
      }

  -- The drop of a `DeliveryTicket`, with the status that the forwarded call returned, if it did.
  unfoldable pub end_delivery : State → Option ℕ → Option ℕ → State
  end_delivery s revision returned =
      let d = s.host_deliveries in
      let e = count_returned (record d { in_flight = d.in_flight - 1 }) returned in
      record s {
        host_deliveries = if same_revision s.close_revision revision then e else record e {
          crossed_close = bumped e.crossed_close;
          exhausted = overflowed e.crossed_close e.exhausted;
        };
      }

  -- The route methods of initial_session.rs.
  unfoldable pub record_initial_open_result :
      State → Result (Unit {0}) (LinkError QueueError) → State
  record_initial_open_result s outcome = record s { initial_open_result = some outcome }

  unfoldable pub initial_bootstrap_complete : State → State
  initial_bootstrap_complete s = record s { initial = InitialSession.bootstrap s.initial }

  unfoldable pub initial_connect_started : State → OperationId → State
  initial_connect_started s id = record s { initial = InitialSession.connect s.initial id }

  unfoldable pub initial_association_started : State → State
  initial_association_started s = record s { initial = InitialSession.associate s.initial }

  unfoldable pub initial_association_result : State → Bool → State × Option Waker
  initial_association_result s success = (
    record (close_state s) {
      initial = InitialSession.result s.initial success;
      close_waker = none;
    },
    s.close_waker,
  )
