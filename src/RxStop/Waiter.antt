-- ===== src/RxStop/Waiter.antt =====
-- `stop_once` and `stop_and_wait` of rx_stop.rs: the request, the post and the polling loop.
-- The native calls, the clock, the sleep and the other contexts are a parameter.
pub mod Ends
use hisi_rf_ws.Common.{
  ℕ, zero, suc, ◌+◌, ◌≤◌, ◌<◌, ◌≡◌, refl, List, [], ◌∷◌, Option, none, some, Bool, true, false, not,
  arith, Result, ok, err, is_ok, is_zero, ℤ, ◌||◌, ◌==◌, inl, inr, Bool-cases, Option-cases,
  if◌then◌else◌,
}
use hisi_rf_ws.RxStop.Rebuild.{RxRebuildDiagnostics}
use hisi_rf_ws.RxStop.{
  Transaction, Op, Phase, Checkpoint, contract, queued_rx, deadline_ms, is_idle, fail, request_at,
  check_deadline, observe, enter, enter_at, enter_checked, may_rebuild_at, post_returned, finish,
  finish_at, result_checked, is_settled, result_at, report, step, run,
}
use hisi_rf_ws.RxStop.Certificate.{
  IsValid, run-IsValid, request_at-IsValid, observe-IsValid, post_returned-IsValid,
  result_at-IsValid, fail-IsValid,
}

-- One round of the loop: the critical sections of others before its query, the clock reading of
-- the query, and whether the sleep after it succeeds.
pub record Round : Type 0 where
  pub others : List Op
  pub now : Option ℕ
  pub slept : Bool

-- What the calls of one stop return, and what other contexts do before each of its critical
-- sections.
pub record Calls : Type 0 where
  pub rejected : Bool
  pub thruput : ℕ  -- u8
  pub started : Option ℕ
  pub requesting : List Op
  pub sending : List Op
  pub sent : ℤ
  pub sent_at : Option ℕ
  pub rounds : ℕ → Round

-- A return of `stop_and_wait`; `none` means that the fuel ran out.
abbrev pub Outcome : Type 0
Outcome = Option (Transaction × Result (Unit {0}) ℤ)

module _ (rounds : ℕ → Round) where
  unfoldable pub stop_loop : ℕ → ℕ → Transaction → Outcome
  stop_loop zero i t = none
  stop_loop (suc fuel) i t =
      let (u, answer) = result_at (run t (rounds i).others) (rounds i).now in
      elim answer [
        | err status ↦ some (u, err status)
        | ok true ↦ some (u, ok tt)
        | ok false ↦ elim (rounds i).slept [
          | true ↦ stop_loop fuel (suc i) u
          | false ↦ some (u, err contract)
        ]
      ]

-- The post and the loop, after the request.
unfoldable pub stop_requested : Calls → ℕ → Transaction × Result (Unit {0}) ℤ → Outcome
stop_requested c fuel (t, err status) = some (t, err status)
stop_requested c fuel (t, ok done) =
    let u = observe (run t c.sending) Checkpoint.at_posted c.sent_at in
    stop_loop c.rounds fuel 0 (post_returned u c.sent)

abbrev stop_started : Calls → ℕ → Transaction → Option ℕ → Outcome
stop_started c fuel t none = some (t, err contract)
stop_started c fuel t (some started) =
    stop_requested c fuel (request_at (run t c.requesting) started)

unfoldable pub stop_and_wait : Calls → ℕ → Transaction → Outcome
unfolding stop_requested
stop_and_wait c fuel t =
    if c.rejected || not (c.thruput == 0)
    then some (t, err queued_rx)
    else stop_started c fuel t c.started

abbrev record_failure : Outcome → Outcome
record_failure none = none
record_failure (some (t, ok done)) = some (t, ok done)
record_failure (some (t, err status)) = some (fail t status, err status)

unfoldable pub stop_once : Calls → ℕ → Transaction → Outcome
unfolding stop_and_wait
stop_once c fuel t = record_failure (stop_and_wait c fuel t)
