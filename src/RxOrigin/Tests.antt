-- ===== src/RxOrigin/Tests.antt =====
-- The theorems on the census at concrete observations.
use hisi_rf_ws.Common.{ℕ, ◌≡◌, List, [], ◌∷◌, some, arith}
use hisi_rf_ws.Route.{AllocationEpoch}
use hisi_rf_ws.RxOrigin.{Op, bumped, new, bind, delivered, run}
use hisi_rf_ws.RxOrigin.Sweep.{IsValid, new-IsValid}
use hisi_rf_ws.RxOrigin.Invariant.{census-IsValid}
use hisi_rf_ws.RxOrigin.Provenance.{origin, is_closed, is_current, is_stale, bump_if, provenance}

abbrev epoch : ℕ → AllocationEpoch
epoch n = record { revision = some n }

abbrev others : List Op
others = Op.bind_op 2 20 (epoch 5) 0 ∷ Op.before_free_op 20 ∷ []

census-IsValid_example : IsValid 2 (run (new 2) others)
census-IsValid_example = census-IsValid 2 others (omega arith)

provenance_example :
    ((delivered (run (bind (new 2) 1 10 (epoch 4) 0) others) 10 (epoch 5)).diagnostic.matched
      ≡ bumped (run (bind (new 2) 1 10 (epoch 4) 0) others).diagnostic.matched)
    × ((delivered
          (run (bind (new 2) 1 10 (epoch 4) 0) others)
          10
          (epoch 5)).diagnostic.closed_origin
        ≡ bump_if
            (is_closed (origin (some 4) (some 5)))
            (run (bind (new 2) 1 10 (epoch 4) 0) others).diagnostic.closed_origin)
    × ((delivered
          (run (bind (new 2) 1 10 (epoch 4) 0) others)
          10
          (epoch 5)).diagnostic.current_origin
        ≡ bump_if
            (is_current (origin (some 4) (some 5)))
            (run (bind (new 2) 1 10 (epoch 4) 0) others).diagnostic.current_origin)
    × ((delivered (run (bind (new 2) 1 10 (epoch 4) 0) others) 10 (epoch 5)).diagnostic.stale_origin
        ≡ bump_if
            (is_stale (origin (some 4) (some 5)))
            (run (bind (new 2) 1 10 (epoch 4) 0) others).diagnostic.stale_origin)
unfolding new
provenance_example =
    provenance {n = 2} {t = new 2} 1 10 (epoch 4) (epoch 5) others (new-IsValid 2 (omega arith))
      (omega arith) (omega arith) (omega arith) ((omega arith, omega arith), (omega arith, tt))
