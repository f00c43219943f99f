-- ===== src/Route/Tests.antt =====
-- The theorems on the route at concrete steps, over numbers.
use hisi_rf_ws.Common.{ℕ, ◌+◌, ◌≡◌, refl, none, some, false, ok, is_ok, ◌==◌, arith}
use hisi_rf_ws.Route.{
  Core, OpenIntent, AllocationEpoch, new, claim, allocation_epoch, enter_with_allocation,
  enter_allocated, close_admission, prepare_open, commit_open, begin_delivery,
}
use hisi_rf_ws.Route.Conservation.{
  System, Reach, IsValid, start, entered, here, next, claim_step, enter_step, commit_step,
  close_step, delivery_step, Reach-IsValid,
}
use hisi_rf_ws.Route.Opening.{open_interrupted}
use hisi_rf_ws.Route.Epochs.{stale_allocation}

abbrev core : Core
core = record {
  Generation = ℕ;
  Ingress = ℕ;
  Waker = ℕ;
  OperationId = ℕ;
  QueueError = ℕ;
  same_generation = λ a b. a == b;
  same_generation_iff = λ a b. ground arith;
  same_operation = λ a b. a == b;
  same_operation_iff = λ a b. ground arith;
}

abbrev claimed : System core
claimed = record (start core) { state = (claim core (new core) 7).0 }

abbrev intent : OpenIntent core
intent = record { close_revision = 0; host_delivery_revision = 0; initial_operation = none }

abbrev opened : System core
opened = record claimed { state = record claimed.state { generation = some 3 } }

claimed_prepared : prepare_open core claimed.state ≡ ok intent
unfolding claim new prepare_open
claimed_prepared = refl

claimed_committed : commit_open core claimed.state intent 3 ≡ ok opened.state
unfolding claim new commit_open
claimed_committed = refl

to_opened : Reach core (start core) opened
to_opened =
    next (next here (claim_step (start core) 7))
      (commit_step claimed intent 3 opened.state claimed_committed)

abbrev with_ticket : System core
with_ticket = entered core opened (enter_with_allocation core opened.state none)

Reach-IsValid_example : IsValid core with_ticket
Reach-IsValid_example = Reach-IsValid core (next to_opened (enter_step opened none (omega arith)))

abbrev closed : System core
closed = record claimed { state = (close_admission core claimed.state).0 }

open_interrupted_example : is_ok (commit_open core closed.state intent 3) ≡ false
open_interrupted_example =
    open_interrupted core intent 3 claimed_prepared here (close_step claimed) refl here

abbrev delivering : System core
delivering = record opened {
  state = (begin_delivery core opened.state).0;
  deliveries = opened.deliveries + 1;
}

abbrev ended : System core
ended = record delivering { state = (close_admission core delivering.state).0 }

stale_allocation_example :
    (enter_allocated core ended.state (allocation_epoch core opened.state)).1 ≡ none
stale_allocation_example =
    stale_allocation core (next here (delivery_step opened)) (close_step delivering) refl here

abbrev own : AllocationEpoch
own = record { revision = some 0 }
