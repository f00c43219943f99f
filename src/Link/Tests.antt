-- ===== src/Link/Tests.antt =====
-- The theorems on the link at concrete states, over numbers.
use hisi_rf_ws.Common.{
  ℕ, ◌+◌, ◌≡◌, ◌<◌, refl, none, some, true, false, Result, ok, err, is_ok, arith, ◌==◌, u32_mod,
}
use hisi_rf_ws.Route.{Core, OpenIntent, new, claim}
use hisi_rf_ws.Route.Conservation.{start}
use hisi_rf_ws.Link.{L2Port, NativeLink, Packet, transmit_packet}
use hisi_rf_ws.Link.Session.{transmit_refused}

abbrev core : Core
core = record {
  Generation = ℕ;
  Ingress = ℕ;
  Waker = ℕ;
  OperationId = ℕ;
  QueueError = ℕ;
  same_generation = λ a b. a == b;
  same_generation_iff = λ a b. ground arith;
  same_operation = λ a b. a == b;
  same_operation_iff = λ a b. ground arith;
}

abbrev packet : Packet core
packet = record { is_current = true; generation = 3 }

-- A port that counts its sessions.
abbrev port : L2Port core ℕ
port = record {
  ingress = λ p. 7;
  begin_session = λ p. (p + 1, ok 3);
  link_down = λ p. (p, ok tt);
  transmit = λ p. (p, some packet);
  complete = λ p. (p, true);
  discard = λ p. p;
}

-- A native function that rejects, and one that accepts.
abbrev rejecting : Packet core → Result (Unit {0}) ℕ
rejecting p = err 9

abbrev accepting : Packet core → Result (Unit {0}) ℕ
accepting p = ok tt

abbrev intent : OpenIntent core
intent = record { close_revision = 0; host_delivery_revision = 0; initial_operation = none }

abbrev link : NativeLink core ℕ
link = record { route = (claim core (new core) 7).0; port = 0; observed_close = some 0 }

start_open : (start core).state.close_revision ≡ some 0
unfolding new
start_open = refl

abbrev opened : NativeLink core ℕ
opened = record link { route = record (new core) { generation = some 3 } }

opened_small : opened.route.diagnostics.transmits_in_flight < u32_mod
unfolding new
opened_small = omega arith

abbrev old_packet : Packet core
old_packet = record packet { generation = 2 }

transmit_refused_example :
    let r = transmit_packet core port opened (λ s. s) rejecting old_packet in
    (r ≡ transmit_packet core port opened (λ s. s) accepting old_packet)
    × (is_ok r.1 ≡ false)
    × (r.0.route ≡ opened.route)
transmit_refused_example =
    transmit_refused core port opened (λ s. s) rejecting accepting old_packet refl
