-- ===== src/HostTx/Tests.antt =====
-- The theorems on the queue-4 tracker at concrete runs.
use hisi_rf_ws.Common.{
  ℕ, ◌+◌, ◌≡◌, refl, List, [], ◌∷◌, some, true, false, arith, ok, pos, is_zero, get_elem?,
  count_slots, any_slot, find_slot, free_slot, ◌==◌, ◌≤◌, if◌then◌else◌,
}
use hisi_rf_ws.HostTx.{
  Active, Stage, Op, contract_error, has_ticket, queued_at, new, fail, begin, close, dispatch,
  post_returned, complete, drained, run,
}
use hisi_rf_ws.HostTx.Table.{IsValid}
use hisi_rf_ws.HostTx.Invariant.{host_tx-IsValid}
use hisi_rf_ws.HostTx.Drain.{is_admitted}
use hisi_rf_ws.HostTx.Tickets.{retired, settle_lem}
use hisi_rf_ws.HostTx.Stale.{stale_ticket}
use hisi_rf_ws.HostTx.Native.{Native, World, Call, post, post_once}
use hisi_rf_ws.HostTx.Wait.{Round, DrainOutcome, close_and_drain, close_and_drain_lem}

-- One frame executing, and one whose whole life is over.
abbrev in_hand : List Op
in_hand = Op.begin_op 64 ∷ Op.dispatch_op 64 ∷ []

abbrev whole_life : List Op
whole_life =
    Op.begin_op 64
    ∷ Op.post_returned_op 1 (pos 0)
    ∷ Op.dispatch_op 64
    ∷ Op.complete_op 1 false (pos 0)
    ∷ Op.close_op
    ∷ []

abbrev faulted : List Op
faulted = Op.begin_op 64 ∷ Op.complete_op 1 true (pos 0) ∷ []

whole_life_processed : (run new whole_life).diagnostic.processed ≡ 1
unfolding run new drained close complete dispatch post_returned begin find_slot any_slot free_slot
    count_slots
whole_life_processed = refl

host_tx-IsValid_example : IsValid (run new whole_life)
host_tx-IsValid_example = host_tx-IsValid whole_life

faulted_status : is_zero (run new faulted).diagnostic.fault ≡ false
unfolding run new drained close complete dispatch post_returned begin find_slot any_slot free_slot
    count_slots
faulted_status = refl

whole_life-drained : drained (run new whole_life) ≡ ok true
unfolding run new drained close complete dispatch post_returned begin find_slot any_slot free_slot
    count_slots
whole_life-drained = refl

abbrev held : Active
held = record { ticket = 1; pointer = 64; stage = Stage.executing; post_returned = false }

in_hand-held : get_elem? (run new in_hand).slots 0 ≡ some (some held)
unfolding run new drained close complete dispatch post_returned begin find_slot any_slot free_slot
    count_slots
in_hand-held = refl

settle_lem_example :
    (post_returned (complete (run new in_hand) 1 false (pos 0)) 1 (pos 0)
      ≡ retired (run new in_hand) 0 false)
    × (complete (post_returned (run new in_hand) 1 (pos 0)) 1 false (pos 0)
        ≡ retired (run new in_hand) 0 false)
settle_lem_example =
    settle_lem {t = run new in_hand} 0 held false (host_tx-IsValid in_hand) in_hand-held refl refl

whole_life_issued : 1 ≤ (run new whole_life).diagnostic.accepted
unfolding run new drained close complete dispatch post_returned begin find_slot any_slot free_slot
    count_slots
whole_life_issued = omega arith

whole_life_gone : count_slots (has_ticket 1) (run new whole_life).slots ≡ 0
unfolding run new drained close complete dispatch post_returned begin find_slot any_slot free_slot
    count_slots
whole_life_gone = refl

stale_ticket_example :
    (count_slots (has_ticket 1) (run (run new whole_life) in_hand).slots ≡ 0)
    × (complete (run (run new whole_life) in_hand) 1 false (pos 0)
        ≡ fail (run (run new whole_life) in_hand) contract_error)
    × (post_returned (run (run new whole_life) in_hand) 1 (pos 0)
        ≡ fail (run (run new whole_life) in_hand) contract_error)
stale_ticket_example =
    stale_ticket (run new whole_life) in_hand 1 false (pos 0) whole_life_issued whole_life_gone

-- A queue that dispatches the frame before its post returns.
abbrev eager : Native
eager = record {
  real_post = λ kind vap netbuf. (Op.dispatch_op netbuf ∷ [], pos 0);
  real_dispatch = λ kind vap msg. ([], pos 0);
  real_free = λ netbuf. ([], 0);
}

abbrev world : World
world = record { tracker = new; calls = [] }

post_once_example : (post eager world 4 0 64).0.calls ≡ (
    if any_slot (queued_at 64) new.slots
    then []
    else (if is_admitted (begin new 64).1 then Call.posted 4 0 64 ∷ [] else Call.released 64 ∷ []))
post_once_example = post_once eager world 0 64

-- One millisecond passes with each sleep, and the frame is completed in the second round.
abbrev rounds : ℕ → Round
rounds i = record {
  now = some (i + 5);
  slept = true;
  others =
      if i == 1 then Op.complete_op 1 false (pos 0) ∷ Op.post_returned_op 1 (pos 0) ∷ [] else [];
}

close_and_drain_lem_example : DrainOutcome (close_and_drain rounds (some 5) 1001 (run new in_hand))
close_and_drain_lem_example =
    close_and_drain_lem {t = run new in_hand} rounds (some 5) (λ s e i now f. ground (arith, e, f))
      (host_tx-IsValid in_hand)
