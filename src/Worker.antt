-- ===== src/Worker.antt =====
-- src/incremental_worker.rs: the mailbox between the runner and the worker of the incremental backend.
-- The types of hisi-rf-core and the answers of the backend are parameters.
pub mod Mailbox
mod Tests
use hisi_rf_ws.Common.{
  ℕ, ◌≡◌, ◌↔◌, Option, none, some, Bool, true, false, not, ◌||◌, ◌&&◌, if◌then◌else◌, min, is_none,
  saturating_inc32, Result, ok, err,
}

-- What the worker uses of hisi-rf-core. `goes_on` is whether the disposition of a report is pending or
-- out of budget, and `scan_count` the number of results of a completed scan.
pub record Core : Type 1 where
  pub OperationId : Type 0
  pub IncrementalRequest : Type 0
  pub WakeReason : Type 0
  pub WorkBudget : Type 0
  pub WorkReport : Type 0
  pub BackendError : Type 0
  pub same_operation : OperationId → OperationId → Bool
  pub goes_on : WorkReport → Bool
  pub scan_count : WorkReport → Option ℕ
  pub initialized : OperationId → WorkBudget → WorkReport

abbrev pub scan_capacity : ℕ
scan_capacity = 32

module _ (c : Core) where
  pub data WorkerCommand : Type 0 where
    start : c.OperationId → c.IncrementalRequest → WorkerCommand
    poll : c.OperationId → c.WakeReason → c.WorkBudget → WorkerCommand

  pub data WorkerResponse : Type 0 where
    started : c.OperationId → Result (Unit {0}) c.BackendError → WorkerResponse
    polled : c.OperationId → Result c.WorkReport c.BackendError → WorkerResponse

  pub record WorkerMailbox : Type 0 where
    pub command : Option WorkerCommand
    pub response : Option WorkerResponse
    pub cancellation : Option c.OperationId
    pub worker_busy : Bool
    pub active : Option c.OperationId
    pub last_terminal : Option c.OperationId
    pub deadline_us : Option ℕ  -- u64
    pub stale_responses_dropped : ℕ  -- u32
    pub stale_responses_injected : ℕ  -- u32
    pub stale_injection_armed : Bool

  -- What the worker takes out of the mailbox at the beginning of a round.
  pub record Taken : Type 0 where
    pub cancel : Option c.OperationId
    pub command : Option WorkerCommand
    pub previous_active : Option c.OperationId
    pub injected_stale : Option (c.OperationId × c.WorkBudget)

  abbrev pub is_active : Option c.OperationId → c.OperationId → Bool
  is_active none id = false
  is_active (some active) id = c.same_operation active id

  abbrev pub differs : Option c.OperationId → c.OperationId → Bool
  differs none id = false
  differs (some active) id = not (c.same_operation active id)

module _ {c : Core} where
  unfoldable pub new : WorkerMailbox c
  new = record {
    command = none;
    response = none;
    cancellation = none;
    worker_busy = false;
    active = none;
    last_terminal = none;
    deadline_us = none;
    stale_responses_dropped = 0;
    stale_responses_injected = 0;
    stale_injection_armed = false;
  }

  -- The critical section of `submit`, and whether the command was accepted.
  unfoldable pub submit : WorkerMailbox c → WorkerCommand c → WorkerMailbox c × Bool
  submit m command =
      if not (is_none m.command) || m.worker_busy || not (is_none m.response)
      then (m, false)
      else (record m { command = some command }, true)

  unfoldable pub request_cancel : WorkerMailbox c → c.OperationId → WorkerMailbox c
  request_cancel m id = record m { cancellation = some id }

  abbrev pub response_id : WorkerResponse c → c.OperationId
  response_id (WorkerResponse.started id result) = id
  response_id (WorkerResponse.polled id result) = id

  -- How many scan results a response lets the runner copy, where it completes a scan.
  abbrev pub copied : ℕ → WorkerResponse c → Option ℕ
  copied room (WorkerResponse.polled id (ok report)) = elim (c.scan_count report) [
    | none ↦ none
    | some count ↦ some (min (min count room) scan_capacity)
  ]
  copied room (WorkerResponse.polled id (err error)) = none
  copied room (WorkerResponse.started id result) = none

  abbrev pub take_matching :
      ℕ
      → WorkerMailbox c
      → WorkerResponse c
      → Option ℕ
      → WorkerMailbox c × Option (WorkerResponse c) × Option ℕ
  take_matching room m response none = (m, some response, none)
  take_matching room m response (some count) =
      (record m { worker_busy = true }, some response, some count)

  abbrev pub take_some :
      c.OperationId
      → ℕ
      → WorkerMailbox c
      → Option (WorkerResponse c)
      → WorkerMailbox c × Option (WorkerResponse c) × Option ℕ
  take_some expected_id room m none = (m, none, none)
  take_some expected_id room m (some response) =
      if not (c.same_operation (response_id response) expected_id)
      then (
        record m { stale_responses_dropped = saturating_inc32 m.stale_responses_dropped },
        some response,
        none,
      )
      else take_matching room m response (copied room response)

  -- The first critical section of `take_response`, with the number of scan results to copy.
  unfoldable pub take_response :
      WorkerMailbox c → c.OperationId → ℕ → WorkerMailbox c × Option (WorkerResponse c) × Option ℕ
  take_response m expected_id room =
      take_some expected_id room (record m { response = none }) m.response

  -- The second one, once the results are copied.
  unfoldable pub copy_finished : WorkerMailbox c → WorkerMailbox c
  copy_finished m = record m { worker_busy = false }

  unfoldable pub arm_stale_completion_injection : WorkerMailbox c → WorkerMailbox c × Bool
  arm_stale_completion_injection m =
      if is_none m.last_terminal || m.stale_injection_armed
      then (m, false)
      else (record m { stale_injection_armed = true }, true)

  unfoldable pub deadline : WorkerMailbox c → c.OperationId → Option ℕ
  deadline m id = if is_active c m.active id then m.deadline_us else none

  abbrev pub injection :
      WorkerMailbox c
      → Option (WorkerCommand c)
      → Option c.OperationId
      → Option (c.OperationId × c.WorkBudget)
  injection m (some (WorkerCommand.poll id reason budget)) (some stale_id) =
      if m.stale_injection_armed && not (c.same_operation stale_id id)
      then some (stale_id, budget)
      else none
  injection m (some (WorkerCommand.poll id reason budget)) none = none
  injection m (some (WorkerCommand.start id request)) last_terminal = none
  injection m none last_terminal = none

  abbrev pub injected : WorkerMailbox c → Option (c.OperationId × c.WorkBudget) → WorkerMailbox c
  injected m none = m
  injected m (some stale) = record m {
    stale_injection_armed = false;
    stale_responses_injected = saturating_inc32 m.stale_responses_injected;
  }

  -- The first critical section of a round of `run`.
  unfoldable pub take_work : WorkerMailbox c → WorkerMailbox c × Taken c
  take_work m =
      let stale = injection m m.command m.last_terminal in
      (
        record (injected m stale) {
          cancellation = none;
          command = none;
          worker_busy = not (is_none m.cancellation) || not (is_none m.command);
        },
        record {
          cancel = m.cancellation;
          command = m.command;
          previous_active = m.active;
          injected_stale = stale;
        },
      )

  -- The response of a round, where the backend gives the two results.
  unfoldable pub respond :
      Taken c
      → Result (Unit {0}) c.BackendError
      → Result c.WorkReport c.BackendError
      → Option (WorkerResponse c)
  respond t start_result poll_result = elim (t.command) [
    | none ↦ none
    | some (WorkerCommand.start id request) ↦ some (WorkerResponse.started id start_result)
    | some (WorkerCommand.poll id reason budget) ↦ elim (t.injected_stale) [
      | some stale ↦ some (WorkerResponse.polled (stale.0) (ok (c.initialized (stale.0) (stale.1))))
      | none ↦ some (WorkerResponse.polled id poll_result)
    ]
  ]

  abbrev pub continues : WorkerResponse c → Option c.OperationId
  continues (WorkerResponse.started id (ok done)) = some id
  continues (WorkerResponse.started id (err error)) = none
  continues (WorkerResponse.polled id (ok report)) = if c.goes_on report then some id else none
  continues (WorkerResponse.polled id (err error)) = none

  unfoldable pub next_active :
      Option c.OperationId → Option (WorkerResponse c) → Option c.OperationId
  next_active previous none = previous
  next_active previous (some response) =
      if differs c previous (response_id response) then previous else continues response

  abbrev pub kept_response :
      Option (WorkerResponse c) → Option (WorkerResponse c) → Option (WorkerResponse c)
  kept_response old none = old
  kept_response old (some response) = some response

  -- The last critical section of a round. `next_deadline` is the backend's deadline of an operation.
  unfoldable pub publish :
      WorkerMailbox c
      → Taken c
      → Option (WorkerResponse c)
      → (c.OperationId → Option ℕ)
      → WorkerMailbox c
  unfolding next_active
  publish m t response next_deadline =
      let active = next_active t.previous_active response in
      record m {
        last_terminal =
            (if not (is_none t.previous_active) && is_none active
              then t.previous_active
              else m.last_terminal);
        worker_busy = false;
        active = active;
        deadline_us = elim active [ none ↦ none | some id ↦ next_deadline id ];
        response = kept_response m.response response;
      }
