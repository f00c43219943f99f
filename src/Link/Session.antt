-- ===== src/Link/Session.antt =====
-- A link session opens only with the route, and a closure of the route is noticed.
use hisi_rf_ws.Common.{
  ℕ, ◌≡◌, ◌≢◌, ◌<◌, ◌↔◌, ◌&&◌, Option, some, true, false, Result, ok, is_ok, arith, Result-cases,
  inl, inr, u32_mod,
}
use hisi_rf_ws.Route.{
  Core, State, OpenIntent, same_revision, subscribe_close, is_generation, enter_transmit,
  drop_transmit, commit_open,
}
use hisi_rf_ws.Route.Conservation.{System, Step, Reach}
use hisi_rf_ws.Route.Epochs.{Passes, Reaches, closes, Step-Passes, Reach-revision}
use hisi_rf_ws.Link.{L2Port, NativeLink, Packet, begin, poll_native_close, transmit_packet}

module _ (c : Core) {P : Type 0} (api : L2Port c P) where
  -- `begin` succeeds exactly when the port begins a session and the route, as it is by then,
  -- commits it.
  pub begin_lem :
      (l : NativeLink c P) (between : State c → State c) (intent : OpenIntent c)
      → let session = (api.begin_session l.port).1 in
        (is_ok (begin c api l between intent).1 ≡ true) ↔ (
          (g : c.Generation) × (session ≡ ok g)
          × (is_ok (commit_open c (between l.route) intent g) ≡ true))
  unfolding begin
  begin_lem l between intent = (to, from)
    where
      to :
          is_ok (begin c api l between intent).1 ≡ true
          → (g : c.Generation) × ((api.begin_session l.port).1 ≡ ok g)
            × (is_ok (commit_open c (between l.route) intent g) ≡ true)
      to h = elim (Result-cases (api.begin_session l.port).1) [
        | inl r ↦ elim (Result-cases (commit_open c (between l.route) intent r.0)) [
          | inl q ↦ (r.0, r.1, ground (arith, q.1))
          | inr q ↦ absurd (ground (arith, r.1, q.1))
        ]
        | inr r ↦ absurd (ground (arith, r.1))
      ]

      from :
          (g : c.Generation) × ((api.begin_session l.port).1 ≡ ok g)
            × (is_ok (commit_open c (between l.route) intent g) ≡ true)
          → is_ok (begin c api l between intent).1 ≡ true
      from (g, e, f) = elim (Result-cases (commit_open c (between l.route) intent g)) [
        | inl q ↦ ground (arith, e, q.1)
        | inr q ↦ absurd (ground (arith, q.1))
      ]

  not_same : (n : ℕ) (r : Option ℕ) → Passes n r → same_revision r (some n) ≡ false
  not_same n r h = ground arith

  -- If any context closes admission, drops the registration or reports an association result after
  -- the link has observed the close revision, then the next poll does not report an unchanged
  -- route, whatever other steps come before and after that.
  pub close_noticed :
      {s t u v : System c} (l : NativeLink c P) (waker : c.Waker) (n : ℕ)
      → l.observed_close ≡ some n
      → s.state.close_revision ≡ some n
      → Reach c s t
      → (st : Step c t u) → closes c st ≡ true
      → Reach c u v
      → (poll_native_close c api (record l { route = v.state }) waker).1 ≢ ok false
  unfolding poll_native_close subscribe_close
  close_noticed {s = s} {v = v} l waker n seen now before st hit after =
      let low : Reaches n s.state.close_revision = ground (arith, now) in
      let past =
        (Reach-revision c n after).1 (Step-Passes c n st hit ((Reach-revision c n before).0 low)) in
      ground (arith, seen, not_same n v.state.close_revision past)

  -- Where nothing else changes the route meanwhile, a submission leaves the number of transmits in
  -- flight as it was, whether the packet is refused, rejected by the native function or submitted.
  pub transmit_balanced :
      {E : Type 0} (l : NativeLink c P) (submit : Packet c → Result (Unit {0}) E)
      (packet : Packet c)
      → l.route.diagnostics.transmits_in_flight < u32_mod
      → (transmit_packet c api l (λ s. s) submit packet).0.route.diagnostics.transmits_in_flight
        ≡ l.route.diagnostics.transmits_in_flight
  unfolding transmit_packet enter_transmit drop_transmit
  transmit_balanced l submit packet small = elim (Result-cases (submit packet)) [
    | inl r ↦ ground (arith, r.1)
    | inr r ↦ ground (arith, r.1)
  ]

  -- A packet that is stale, or whose generation is not that of the route's open session, is never
  -- handed to the native function: the outcome is the same for any two of them, an error, and the
  -- route is unchanged.
  pub transmit_refused :
      {E : Type 0} (l : NativeLink c P) (between : State c → State c)
      (submit other : Packet c → Result (Unit {0}) E) (packet : Packet c)
      → packet.is_current && is_generation c l.route.generation packet.generation ≡ false
      → let r = transmit_packet c api l between submit packet in
        (r ≡ transmit_packet c api l between other packet)
        × (is_ok r.1 ≡ false)
        × (r.0.route ≡ l.route)
  unfolding transmit_packet enter_transmit
  transmit_refused l between submit other packet h = ground arith
