-- ===== src/Worker/Tests.antt =====
-- The theorems on the worker's mailbox at a concrete core.
use hisi_rf_ws.Common.{ℕ, ◌≡◌, refl, none, some, true, false, ◌==◌, ok}
use hisi_rf_ws.Worker.{
  Core, WorkerCommand, WorkerResponse, WorkerMailbox, Taken, new, submit, take_response, take_work,
  respond, publish, next_active,
}
use hisi_rf_ws.Worker.Mailbox.{System, Move, Reaches, started, is_some, under_way, response_kept}

-- Reports are numbers: 0 goes on, and another one completes a scan with so many results.
abbrev numbers : Core
numbers = record {
  OperationId = ℕ;
  IncrementalRequest = ℕ;
  WakeReason = ℕ;
  WorkBudget = ℕ;
  WorkReport = ℕ;
  BackendError = ℕ;
  same_operation = λ a b. a == b;
  goes_on = λ r. r == 0;
  scan_count = λ r. elim (r == 0) [ true ↦ none | false ↦ some r ];
  initialized = λ id budget. 0;
}

abbrev poll_seven : WorkerCommand numbers
poll_seven = WorkerCommand.poll 7 0 100

abbrev queued : WorkerMailbox numbers
queued = (submit new poll_seven).0

abbrev round : Taken numbers
round = (take_work queued).1

abbrev working : System numbers
working = record { mailbox = (take_work queued).0; working = some round; copying = false }

working_reached : Reaches numbers started working
working_reached =
    Reaches.later started (record { mailbox = queued; working = none; copying = false }) working
      (Move.submit_command started poll_seven refl)
      (Reaches.later (record { mailbox = queued; working = none; copying = false }) working working
        (Move.begin_round (record { mailbox = queued; working = none; copying = false }) refl)
        (Reaches.here working))

answered : is_some (respond round (ok tt) (ok 3)) ≡ true
unfolding respond take_work submit new
answered = refl

response_kept_example :
    (under_way working ≡ 1)
    × (is_some working.mailbox.response ≡ false)
    × (is_some working.mailbox.command ≡ false)
response_kept_example = response_kept working round (ok tt) (ok 3) working_reached refl answered

abbrev finished : WorkerMailbox numbers
finished = publish working.mailbox round (respond round (ok tt) (ok 3)) (λ id. some 900)

-- The runner is given the report, and copies at most as many results as it has room for.
scan_taken : (take_response finished 7 2).1 ≡ some (WorkerResponse.polled 7 (ok 3))
unfolding take_response publish next_active respond take_work submit new
scan_taken = refl

scan_copied : (take_response finished 7 2).2 ≡ some 2
unfolding take_response publish next_active respond take_work submit new
scan_copied = refl

-- A busy worker accepts no second command.
busy : (submit working.mailbox poll_seven).1 ≡ false
unfolding submit take_work new
busy = refl
