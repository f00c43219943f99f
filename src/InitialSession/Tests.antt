-- ===== src/InitialSession/Tests.antt =====
-- The bring-up policy at a concrete sequence of reports.
use hisi_rf_ws.Common.{ℕ, ◌≡◌, ◌↔◌, List, [], ◌∷◌, Bool, true, ◌==◌, arith}
use hisi_rf_ws.InitialSession.{InitialSession, Event, check, run}
use hisi_rf_ws.InitialSession.OneShot.{one_shot}

abbrev twice : List (Event ℕ)
twice =
    Event.bootstrap_event
    ∷ Event.connect_event 3
    ∷ Event.associate_event
    ∷ Event.close_event
    ∷ Event.result_event true
    ∷ []

abbrev same : ℕ → ℕ → Bool
same a b = a == b

one_shot_example : (check same (run InitialSession.uninitialized twice) 3 ≡ true) ↔ (
    twice
    ≡ Event.bootstrap_event
      ∷ Event.connect_event 3
      ∷ Event.associate_event
      ∷ Event.result_event true
      ∷ [])
one_shot_example = one_shot same twice 3 (λ a b. ground arith)
