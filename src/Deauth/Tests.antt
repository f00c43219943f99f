-- ===== src/Deauth/Tests.antt =====
-- The theorems on the deauthentication queue at concrete runs.
use mathlib.Core.List.{Memᴰ}
use hisi_rf_ws.Common.{
  suc, ◌≡◌, ◌≢◌, refl, List, [], ◌∷◌, some, true, false, arith, find_slot, pos, ok, err,
}
use hisi_rf_ws.Deauth.Errors.{Error}
use hisi_rf_ws.Deauth.{
  poll_tickets, step, push, push_healthy, push_at, pop_at, complete, health, poll_faulty,
  poll_quiet, inline_begun, begin_polled, claim_pushed, wake_failed, Op, Poll, Receipt, Returned,
  new, run, poll, poll_idle, pop, begin_inline, receipt_since, run_inline, checkpoint,
}
use hisi_rf_ws.Deauth.Window.{IsValid, new-IsValid, completed, pushed, popped}
use hisi_rf_ws.Deauth.Steps.{run-IsValid, inline_admitted, request}
use hisi_rf_ws.Deauth.Receipts.{evidence_kept}
use hisi_rf_ws.Deauth.Certificate.{ioctls_returned}

-- Two requests, of which both ioctls return 0.
abbrev two_done : List Op
two_done =
    Op.push_op 3
    ∷ Op.push_op 4
    ∷ Op.pop_op
    ∷ Op.complete_op 1 (pos 0)
    ∷ Op.pop_op
    ∷ Op.complete_op 2 (pos 0)
    ∷ []

abbrev both : Receipt
both = record { before = 0; through = 2 }

two_done-poll : poll (run new two_done) both ≡ ok (Poll.ready Returned.ioctls)
unfolding poll poll_tickets health run step push push_healthy push_at pop pop_at complete new
    find_slot
two_done-poll = refl

ioctls_returned_example : Memᴰ (Op.complete_op 2 (pos 0)) two_done
ioctls_returned_example = ioctls_returned two_done both 2 two_done-poll (omega arith) (omega arith)

run-IsValid_example : IsValid (run new two_done)
run-IsValid_example = run-IsValid new two_done new-IsValid

-- One request waits.
abbrev one_waiting : List Op
one_waiting = Op.push_op 3 ∷ []

one_pops : (pop (run new one_waiting)).1 ≡ some (record { ticket = 1; reason = 3 })
unfolding run step push push_healthy push_at pop pop_at new
one_pops = refl

new_idle : poll_idle new ≡ ok (Poll.ready tt)
unfolding poll_idle poll_faulty poll_quiet new
new_idle = refl

inline_admitted_example :
    (begin_inline new 7 ≡ (popped (pushed new (request new 7)) (request new 7), ok (request new 7)))
    × ((request new 7).ticket ≡ suc (completed new))
unfolding new
inline_admitted_example = inline_admitted new 7 new-IsValid new_idle (omega arith)

evidence_kept_example : poll (run new two_done) both ≢ err Error.evidence_lost
unfolding run step push push_healthy push_at pop pop_at complete new
evidence_kept_example =
    evidence_kept (run new two_done) both (run-IsValid new two_done new-IsValid) refl (omega arith)
      (omega arith) (omega arith) (omega arith)

-- A callback queues one more request while the synchronous call is in the native code.
inline_run : (run_inline new 7 (Op.push_op 8 ∷ []) [] [] (λ reason. pos 0) true).1 ≡ ok (pos 0)
unfolding run_inline inline_begun begin_inline begin_polled claim_pushed poll_idle poll_faulty
    poll_quiet run step push push_healthy push_at pop pop_at complete health new
inline_run = refl

-- A wake that fails turns the result of a finished call into an error.
inline_not_woken : (run_inline new 7 [] [] [] (λ reason. pos 0) false).1 ≡ err Error.wake_failed
unfolding run_inline inline_begun begin_inline begin_polled claim_pushed poll_idle poll_faulty
    poll_quiet run step push push_healthy push_at pop pop_at complete health new wake_failed
inline_not_woken = refl

receipt_of_both : receipt_since (run new two_done) (checkpoint new) ≡ ok both
unfolding receipt_since checkpoint health run step push push_healthy push_at pop pop_at complete new
receipt_of_both = refl
