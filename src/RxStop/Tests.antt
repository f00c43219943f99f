-- ===== src/RxStop/Tests.antt =====
-- The theorems on the RX stop at concrete runs.
use hisi_rf_ws.Common.{
  ℕ, ◌+◌, ◌≡◌, ◌≤◌, ◌<◌, refl, List, [], ◌∷◌, Option, some, Bool, true, false, ok, is_ok, pos,
  is_zero, arith, ◌==◌, if◌then◌else◌,
}
use hisi_rf_ws.RxStop.{
  Transaction, Op, deadline_ms, contract, new, fail, request_at, enter_at, may_rebuild_at,
  result_at, finish_at, observe, post_returned, check_deadline, report, same_worker, run,
}
use hisi_rf_ws.RxStop.Rebuild.{Lengths, DescriptorOps, no_counts, same_lengths, probe, probe_lem}
use hisi_rf_ws.RxStop.Certificate.{new-IsValid, rx_stop-IsValid, stop_certified}
use hisi_rf_ws.RxStop.Waiter.{Calls, stop_once}
use hisi_rf_ws.RxStop.Waiter.Ends.{StopOutcome, stop_once_lem}
use hisi_rf_ws.RxStop.Handler.{StopMsg, Platform, World, descriptors, handler}
use hisi_rf_ws.RxStop.Handler.Protocol.{Protocol}
use hisi_rf_ws.RxStop.Handler.Status.{handler_lem}

abbrev stop : List Op
stop =
    Op.install_op
    ∷ Op.request_op 10
    ∷ Op.posted_op (pos 0)
    ∷ Op.enter_op (some 12)
    ∷ Op.finish_op (some 15) 1 0 1 (pos 0)
    ∷ []

stop_done : (result_at (run new stop) (some 20)).1 ≡ ok true
unfolding run new result_at request_at enter_at finish_at post_returned
stop_done = refl

stop_certified_example :
    (is_zero (run new stop).diagnostic.fault ≡ true)
    × ((run new stop).diagnostic.requested ≡ true)
    × ((run new stop).diagnostic.entered ≡ true)
    × ((run new stop).diagnostic.returned ≡ true)
    × ((run new stop).diagnostic.post_returned ≡ true)
    × ((run new stop).diagnostic.mac_after ≡ 0)
    × ((run new stop).diagnostic.descriptors_empty ≡ 1)
    × (is_zero (run new stop).diagnostic.native_status ≡ true)
    × ((n : ℕ) × (some 20 ≡ some n)
        × ((run new stop).started_ms ≤ n)
        × (n < (run new stop).started_ms + deadline_ms))
stop_certified_example = stop_certified stop (some 20) stop_done

abbrev ready : Transaction
ready = run new (Op.install_op ∷ [])

ready_requested : is_ok (request_at ready 10).1 ≡ true
unfolding run new request_at
ready_requested = refl

fail_fault : is_zero (fail new contract).diagnostic.fault ≡ false
unfolding fail new
fail_fault = refl

abbrev configured : Lengths
configured = record { normal = 4; high = 2; small = 1 }

-- A device whose state is whether the lists are filled.
abbrev device : DescriptorOps Bool
device = record {
  counts = λ filled. (filled, record { actual = lists filled; expected = configured });
  mac_enabled = λ filled. (filled, 0);
  initialize = λ filled. (true, pos 0);
  disable = λ filled. filled;
  destroy = λ filled. (false, pos 0);
}
  where
    lists : Bool → Lengths
    lists true = configured
    lists false = no_counts

device_clean : is_zero (probe device false).1.fault ≡ true
unfolding probe
device_clean = refl

probe_lem_example :
    let r = (probe device false).1 in
    (r.attempted ≡ true)
    × (same_lengths r.expected no_counts ≡ false)
    × (is_zero r.init_status ≡ true)
    × (r.mac_after_init ≡ 0)
    × (same_lengths r.actual r.expected ≡ true)
    × (r.cleanup_attempted ≡ true)
    × (is_zero r.cleanup_status ≡ true)
    × (r.mac_after_cleanup ≡ 0)
    × (same_lengths r.cleaned no_counts ≡ true)
probe_lem_example = probe_lem device false device_clean

-- The worker runs the handler before the second query, one millisecond after the first.
abbrev calls : Calls
calls = record {
  rejected = false;
  thruput = 0;
  started = some 10;
  requesting = Op.install_op ∷ [];
  sending = [];
  sent = pos 0;
  sent_at = some 11;
  rounds = λ i. record {
    others =
        if i == 1 then Op.enter_op (some 12) ∷ Op.finish_op (some 12) 1 0 1 (pos 0) ∷ [] else [];
    now = some (i + 11);
    slept = true;
  };
}

stop_once_lem_example : StopOutcome (stop_once calls 1001 new)
stop_once_lem_example = stop_once_lem calls (λ s e i now f. ground (arith, e, f)) new-IsValid

abbrev platform : Platform Bool
platform = record {
  others = λ s. (s, []);
  clock = λ s. (s, some 12);
  worker = λ s. (s, 5);
  current = λ s. (s, some 5);
  rejected = λ s. (s, false);
  thruput = λ s. (s, 0);
  mac_enabled = λ s. (s, 0);
  disable = λ s. s;
  initialize = device.initialize;
  destroy = device.destroy;
  counts = device.counts;
  has_device = λ s. (s, true);
  queue_empty = λ s. (s, 1);
}

abbrev command : Option StopMsg
command = some (record { data_len = 8; words = some (0x3058524e, 1) })

abbrev asked : World Bool
asked = record { native = false; transaction = run new (Op.install_op ∷ Op.request_op 10 ∷ []) }

asked_stops : is_zero (handler platform asked command).1 ≡ true
unfolding handler run new probe descriptors request_at enter_at may_rebuild_at finish_at
    check_deadline observe report same_worker
asked_stops = refl

handler_lem_example :
    let d = (handler platform asked command).0.transaction.diagnostic in
    (is_zero d.fault ≡ true)
    × (d.returned ≡ true)
    × (d.mac_after ≡ 0)
    × (d.descriptors_empty ≡ 1)
    × (is_zero d.native_status ≡ true)
handler_lem_example =
    handler_lem platform asked command (rx_stop-IsValid (Op.install_op ∷ Op.request_op 10 ∷ []))
      refl asked_stops
