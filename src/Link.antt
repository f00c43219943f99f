-- ===== src/Link.antt =====
-- src/netif_l2/link.rs: the link, which owns the L2 port and the registration on the route.
-- The port is a parameter, as it belongs to hisi-rf-core. The queue's wakers are its own.
pub mod Session
mod Tests
use hisi_rf_ws.Common.{ℕ, Option, none, some, Bool, true, false, Result, ok, err, if◌then◌else◌}
use hisi_rf_ws.Route.{
  Core, State, RouteError, LinkError, OpenIntent, same_revision, claim, close_admission,
  subscribe_close, enter_transmit, drop_transmit, drop_registration, prepare_open,
  prepare_initial_open, commit_open,
}

pub record Packet (c : Core) : Type 0 where
  pub is_current : Bool
  pub generation : c.Generation

-- Each method of `L2Port` returns the new port. `complete` answers whether the packet was still
-- current, and `discard` is the drop of a packet that was not completed.
pub record L2Port (c : Core) (P : Type 0) : Type 0 where
  pub ingress : P → c.Ingress
  pub begin_session : P → P × Result c.Generation c.QueueError
  pub link_down : P → P × Result (Unit {0}) c.QueueError
  pub transmit : P → P × Option (Packet c)
  pub complete : P → P × Bool
  pub discard : P → P

pub data SubmitError (E : Type 0) : Type 0 where
  native : E → SubmitError E
  stale_generation : SubmitError E
  admission_closed : SubmitError E

-- The link with the route that its registration refers to.
pub record NativeLink (c : Core) (P : Type 0) : Type 0 where
  pub route : State c
  pub port : P
  pub observed_close : Option ℕ

module _ (c : Core) {P : Type 0} (api : L2Port c P) where
  -- The end of `bind`, with the claimed route. If the port fails, the registration is dropped.
  unfoldable pub bind_claimed :
      P
      → State c × Result (Unit {0}) RouteError
      → NativeLink c P × Result (Unit {0}) (LinkError c.QueueError)
  bind_claimed port (s, err error) =
      (record { route = s; port = port; observed_close = none }, err (LinkError.route error))
  bind_claimed port (s, ok done) =
      let (q, down) = api.link_down port in
      elim down [
        | ok closed ↦ (record { route = s; port = q; observed_close = s.close_revision }, ok tt)
        | err failure ↦ (
          record { route = (drop_registration c s).0; port = q; observed_close = none },
          err (LinkError.queue failure),
        )
      ]

  unfoldable pub bind : P → State c → NativeLink c P × Result (Unit {0}) (LinkError c.QueueError)
  unfolding bind_claimed
  bind port s = bind_claimed port (claim c s (api.ingress port))

  -- A commit that the route refuses takes the link down again.
  unfoldable pub begin_committed :
      NativeLink c P
      → OpenIntent c
      → Result (State c) RouteError
      → NativeLink c P × Result (Unit {0}) (LinkError c.QueueError)
  begin_committed l intent (ok s) =
      (record l { route = s; observed_close = some intent.close_revision }, ok tt)
  begin_committed l intent (err error) =
      let (q, down) = api.link_down l.port in
      elim down [
        | ok done ↦ (record l { port = q }, err (LinkError.route error))
        | err failure ↦ (record l { port = q }, err (LinkError.queue failure))
      ]

  unfoldable pub begin_started :
      NativeLink c P
      → OpenIntent c
      → Result c.Generation c.QueueError
      → NativeLink c P × Result (Unit {0}) (LinkError c.QueueError)
  unfolding begin_committed
  begin_started l intent (err error) = (l, err (LinkError.queue error))
  begin_started l intent (ok generation) =
      begin_committed l intent (commit_open c l.route intent generation)

  -- `between` is what other contexts do to the route while the port begins its session.
  unfoldable pub begin :
      NativeLink c P
      → (State c → State c)
      → OpenIntent c
      → NativeLink c P × Result (Unit {0}) (LinkError c.QueueError)
  unfolding begin_started
  begin l between intent =
      let (q, session) = api.begin_session l.port in
      begin_started (record l { port = q; route = between l.route }) intent session

  abbrev pub begin_prepared :
      NativeLink c P
      → (State c → State c)
      → Result (OpenIntent c) RouteError
      → NativeLink c P × Result (Unit {0}) (LinkError c.QueueError)
  begin_prepared l between (err error) = (l, err (LinkError.route error))
  begin_prepared l between (ok intent) = begin l between intent

  unfoldable pub begin_after_native_quiescence :
      NativeLink c P
      → (State c → State c)
      → NativeLink c P × Result (Unit {0}) (LinkError c.QueueError)
  unfolding begin
  begin_after_native_quiescence l between = begin_prepared l between (prepare_open c l.route)

  unfoldable pub close : NativeLink c P → NativeLink c P × Result (Unit {0}) c.QueueError
  close l =
      let s = (close_admission c l.route).0 in
      let (q, down) = api.link_down l.port in
      (record { route = s; port = q; observed_close = s.close_revision }, down)

  abbrev pub close_on_error :
      NativeLink c P × Result (Unit {0}) (LinkError c.QueueError)
      → NativeLink c P × Result (Unit {0}) (LinkError c.QueueError)
  close_on_error (l, ok done) = (l, ok done)
  close_on_error (l, err error) = ((close l).0, err error)

  unfoldable pub begin_initial_session_experiment :
      NativeLink c P
      → (State c → State c)
      → c.OperationId
      → NativeLink c P × Result (Unit {0}) (LinkError c.QueueError)
  unfolding begin close
  begin_initial_session_experiment l between id =
      close_on_error (begin_prepared l between (prepare_initial_open c l.route id))

  abbrev pub noticed :
      NativeLink c P → Result (Unit {0}) c.QueueError → NativeLink c P × Result Bool c.QueueError
  noticed l (ok done) = (l, ok true)
  noticed l (err error) = (l, err error)

  unfoldable pub poll_native_close :
      NativeLink c P → c.Waker → NativeLink c P × Result Bool c.QueueError
  poll_native_close l waker =
      let (s, revision) = subscribe_close c l.route waker in
      let (q, down) = api.link_down l.port in
      if same_revision revision l.observed_close
      then (record l { route = s }, ok false)
      else noticed (record { route = s; port = q; observed_close = revision }) down

  -- The submission under a transmit ticket, which is dropped at its end. `between` is what other
  -- contexts do to the route meanwhile.
  unfoldable pub transmit_entered :
      {E : Type 0}
      → NativeLink c P
      → (State c → State c)
      → Result (Unit {0}) E
      → NativeLink c P × Result (Unit {0}) (SubmitError E)
  transmit_entered l between (err error) = (
    record l { route = drop_transmit c (between l.route); port = api.discard l.port },
    err (SubmitError.native error),
  )
  transmit_entered l between (ok done) =
      let (q, current) = api.complete l.port in
      (
        record l { route = drop_transmit c (between l.route); port = q },
        (if current then ok tt else err SubmitError.stale_generation),
      )

  unfoldable pub transmit_packet :
      {E : Type 0}
      → NativeLink c P
      → (State c → State c)
      → (Packet c → Result (Unit {0}) E)
      → Packet c
      → NativeLink c P × Result (Unit {0}) (SubmitError E)
  unfolding transmit_entered
  transmit_packet l between submit packet =
      let (s, admitted) = enter_transmit c l.route packet.generation in
      if packet.is_current
      then (if admitted
          then transmit_entered (record l { route = s }) between (submit packet)
          else (record l { port = api.discard l.port }, err SubmitError.admission_closed))
      else (record l { port = api.discard l.port }, err SubmitError.stale_generation)

  -- `none` is `Poll::Pending`.
  unfoldable pub poll_transmit :
      {E : Type 0}
      → NativeLink c P
      → (State c → State c)
      → (Packet c → Result (Unit {0}) E)
      → NativeLink c P × Option (Result (Unit {0}) (SubmitError E))
  unfolding transmit_packet
  poll_transmit l between submit =
      let (q, packet) = api.transmit l.port in
      elim packet [
        | none ↦ (record l { port = q }, none)
        | some p ↦
            let (u, answer) = transmit_packet (record l { port = q }) between submit p in
            (u, some answer)
      ]
