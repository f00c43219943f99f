-- ===== src/SlotQueue/Tests.antt =====
-- The theorems on the slot queues at concrete queues.
use hisi_rf_ws.Common.{
  ◌↔◌, ◌++◌, ◌==◌, ℕ, suc, ◌≡◌, ◌≢◌, ◌⊎◌, ◌<◌, refl, List, [], ◌∷◌, none, some, Bool, true, false,
  arith, pos, replicate, set, get_elem?, inc32,
}
use hisi_rf_ws.SlotQueue.{
  any_writing, oldest_from, sequence_before, publish, release, SlotState, Slot, Queue, is_ready,
  take_oldest_slot, set_state, enqueue,
}
use hisi_rf_ws.SlotQueue.Order.{Window, NoneReady, NoneOlder, age, takes_oldest}
use hisi_rf_ws.SlotQueue.Queues.{
  empty_queue, new_mgmt, MgmtContent, enqueue_mgmt, mgmt_bytes, ScanKind, ScanMeta, ScanEventQueue,
  done_meta, begin_transaction, enqueue_result, enqueue_done, LinkKind, LinkMeta, LinkContent,
  is_disconnect, enqueue_with_admission, enqueue_link, discard_pending, has_pending,
}
use hisi_rf_ws.SlotQueue.Room.{used, ScanOp, scan_run, scan_done_kept}
use hisi_rf_ws.Route
use hisi_rf_ws.InitialSession.{InitialSession, check}
use hisi_rf_ws.SlotQueue.Association.{
  enqueue_initial_association, Admits, enqueue_initial_association-Admits,
}
use hisi_rf_ws.SlotQueue.Elements.{
  Element, encode, association_comeback_interval, comeback_from, comeback_found,
  normalize_vendor_association_status, vendor_result_uses_disconnect,
  vendor_result_uses_association_reject,
}
use hisi_rf_ws.SlotQueue.Delivery.{mgmt_roundtrip, link_loss_closes}

-- Two entries, the first enqueued just before the sequence wrapped.
abbrev wrapped : List (Slot ℕ)
wrapped =
    record { state = SlotState.ready; sequence = 0; content = 20 }
    ∷ record { state = SlotState.ready; sequence = 4294967295; content = 10 }
    ∷ record { state = SlotState.free; sequence = 0; content = 0 }
    ∷ []

wrapped-Window : Window 1 wrapped
wrapped-Window = (
  λ e. (omega arith, omega arith, omega arith),
  (λ e. (omega arith, omega arith, omega arith), (λ e. absurd (ground (arith, e)), tt)),
)

takes_oldest_example :
    ((take_oldest_slot wrapped ≡ (wrapped, none)) × NoneReady wrapped)
    ⊎ ((i : ℕ) × (s : Slot ℕ) × (get_elem? wrapped i ≡ some s)
        × (is_ready s.state ≡ true)
        × NoneOlder 1 s.sequence wrapped
        × (take_oldest_slot wrapped ≡ (set_state wrapped i SlotState.reading, some i)))
unfolding any_writing
takes_oldest_example = takes_oldest 1 wrapped (omega arith) wrapped-Window refl

wrapped_taken : (take_oldest_slot wrapped).1 ≡ some 1
unfolding take_oldest_slot any_writing oldest_from sequence_before
wrapped_taken = refl

abbrev one_result : ScanMeta
one_result = record (done_meta (pos 0)) { kind = ScanKind.result; ie_len = 2 }

abbrev new_scan : ScanEventQueue
new_scan = record {
  queue = empty_queue 33 (record { meta = done_meta (pos 0); ies = 0 ∷ 0 ∷ 0 ∷ [] });
  accepted_results = 5;
  truncated_results = 0;
}

abbrev scan_ops : List ScanOp
scan_ops = ScanOp.result_op one_result (1 ∷ 2 ∷ []) ∷ ScanOp.take_op ∷ ScanOp.release_op 0 ∷ []

scan_done_kept_example :
    ((enqueue_done (scan_run 3 (begin_transaction new_scan) scan_ops) (pos 0)).1 ≡ true)
    × (((enqueue_result 3
            (scan_run 3 (begin_transaction new_scan) scan_ops)
            one_result
            (1 ∷ 2 ∷ [])).1
          ≡ true)
        × ((enqueue_result 3
              (scan_run 3 (begin_transaction new_scan) scan_ops)
              one_result
              (1 ∷ 2 ∷ [])).0.queue.dropped
            ≡ (scan_run 3 (begin_transaction new_scan) scan_ops).queue.dropped)
        × (((scan_run 3 (begin_transaction new_scan) scan_ops).accepted_results < 32)
            ⊎ ((enqueue_result 3
                  (scan_run 3 (begin_transaction new_scan) scan_ops)
                  one_result
                  (1 ∷ 2 ∷ [])).0.truncated_results
                ≡ inc32 (scan_run 3 (begin_transaction new_scan) scan_ops).truncated_results)))
unfolding used
scan_done_kept_example =
    scan_done_kept 3 new_scan scan_ops (pos 0) one_result (1 ∷ 2 ∷ []) refl refl refl

mgmt_roundtrip_example :
    let (t, queued) = enqueue_mgmt new_mgmt 2412 (pos 0) (176 ∷ 0 ∷ 5 ∷ []) in
    (queued ≡ true)
    × ((i : ℕ) × (s : Slot MgmtContent) × (t.slots ≡ set new_mgmt.slots i s)
        × (get_elem? t.slots i ≡ some s)
        × (is_ready s.state ≡ true)
        × (age t.next_sequence s.sequence ≡ 1)
        × (mgmt_bytes s.content ≡ 176 ∷ 0 ∷ 5 ∷ [])
        × (s.content.meta.frequency_mhz ≡ 2412)
        × (s.content.meta.rssi_dbm ≡ pos 0))
unfolding used
mgmt_roundtrip_example =
    mgmt_roundtrip new_mgmt 2412 (pos 0) (176 ∷ 0 ∷ 5 ∷ [])
      (refl, (refl, (refl, (refl, (refl, (refl, (refl, (refl, tt)))))))) (omega arith) (omega arith)
      (omega arith) (omega arith)

abbrev associated : LinkMeta
associated = record {
  kind = LinkKind.associate;
  status_or_reason = 0;
  frequency_mhz = 2412;
  bssid = replicate 6 1;
  first_len = 1;
  second_len = 0;
}

abbrev new_link : Queue LinkContent
new_link =
    empty_queue 4 (record { meta = associated; first = replicate 4 0; second = replicate 4 0 })

-- `close` counts its calls.
link_loss_closes_example :
    let (t, r, queued) = enqueue_with_admission suc 0 new_link true associated (9 ∷ []) [] in
    (((◌≡◌ {A = Bool} true true)
        × (is_disconnect associated.kind ≡ false)
        × (associated.status_or_reason ≡ 0)
        × (queued ≡ true))
      × (t ≡ 0))
    ⊎ (((◌≡◌ {A = Bool} true false)
          ⊎ (is_disconnect associated.kind ≡ true)
          ⊎ (associated.status_or_reason ≢ 0)
          ⊎ (queued ≡ false))
        × (t ≡ 1))
link_loss_closes_example = link_loss_closes suc 0 new_link true associated (9 ∷ []) []

associated_kept : (enqueue_with_admission suc 0 new_link true associated (9 ∷ []) []).0 ≡ 0
unfolding enqueue_with_admission enqueue_link enqueue publish
associated_kept = refl

discarded : has_pending (discard_pending 3 wrapped) ≡ false
unfolding discard_pending has_pending take_oldest_slot any_writing oldest_from sequence_before
    release
discarded = refl

-- An element of another kind before the one searched for.
abbrev country : Element
country = record { id = 7; body = 68 ∷ 69 ∷ [] }

comeback_found_example :
    association_comeback_interval (encode (country ∷ []) ++ (56 ∷ 5 ∷ 3 ∷ 200 ∷ 1 ∷ 0 ∷ 0 ∷ 9 ∷ []))
    ≡ some 456
comeback_found_example = comeback_found (country ∷ []) 200 1 0 0 (9 ∷ []) (refl, tt)

-- An element that is cut short ends the search.
cut_short : association_comeback_interval (7 ∷ 4 ∷ 68 ∷ []) ≡ none
unfolding association_comeback_interval comeback_from
cut_short = refl

statuses :
    (normalize_vendor_association_status 8030 ≡ 30)
    × (normalize_vendor_association_status 8256 ≡ 8256)
    × (vendor_result_uses_disconnect 8053 ≡ false)
unfolding normalize_vendor_association_status vendor_result_uses_disconnect
    vendor_result_uses_association_reject
statuses = (refl, refl, refl)

abbrev numbers : Route.Core
numbers = record {
  Generation = ℕ;
  Ingress = ℕ;
  Waker = ℕ;
  OperationId = ℕ;
  QueueError = ℕ;
  same_generation = λ a b. a == b;
  same_generation_iff = λ a b. ground arith;
  same_operation = λ a b. a == b;
  same_operation_iff = λ a b. ground arith;
}

abbrev associating : Route.State numbers
associating = record (Route.new numbers) {
  initial = InitialSession.associating 7;
  generation = some 1;
}

enqueue_initial_association-Admits_example :
    let (t, r, queued) =
      enqueue_initial_association numbers associating new_link true associated (9 ∷ []) [] in
    (t.generation ≡ none)
    × ((check numbers.same_operation t.initial 7 ≡ true)
        ↔ Admits numbers associating true associated queued 7)
enqueue_initial_association-Admits_example =
    enqueue_initial_association-Admits numbers associating new_link true associated (9 ∷ []) [] 7
