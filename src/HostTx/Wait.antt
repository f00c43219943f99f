-- ===== src/HostTx/Wait.antt =====
-- `close_and_drain` and `wait_for_drain` of host_tx.rs: the polling loop with its deadline.
-- The clock, the sleep and the other contexts are a parameter, one record for each round.
use hisi_rf_ws.Common.{
  ℕ, zero, suc, ◌+◌, ◌-◌, ◌≤◌, ◌<◌, ◌≡◌, List, Option, none, some, Bool, true, false, arith, ltb,
  leb, ◌||◌, is_zero, ℤ, Result, ok, err, if◌then◌else◌, Option-cases, inl, inr, refl,
}
use hisi_rf_ws.HostTx.{Tracker, Op, contract_error, drain_timeout, close, seal, fail, drained, run}
use hisi_rf_ws.HostTx.Table.{IsValid, close-IsValid, fail-IsValid}
use hisi_rf_ws.HostTx.Invariant.{run-IsValid}

-- One round of the loop after an inconclusive query: the clock reading, whether the sleep
-- succeeds, and the critical sections that others enter before the next query.
pub record Round : Type 0 where
  pub now : Option ℕ
  pub slept : Bool
  pub others : List Op

abbrev pub drain_deadline : ℕ
drain_deadline = 1000

abbrev time_status : ℕ → Bool → Option ℕ → Option ℤ
time_status started slept none = some contract_error
time_status started slept (some now) =
    if ltb now started || leb drain_deadline (now - started)
    then some drain_timeout
    else (if slept then none else some contract_error)

-- The tests that end a round with an error: `none` to poll again.
unfoldable pub round_status : ℕ → Round → Option ℤ
round_status started r = time_status started r.slept r.now

-- `none` means that the fuel ran out.
module _ (rounds : ℕ → Round) (started : ℕ) where
  unfoldable pub wait_loop : ℕ → ℕ → Tracker → Option (Tracker × Result (Unit {0}) ℤ)
  unfolding round_status
  wait_loop zero i t = none
  wait_loop (suc fuel) i t = elim (drained t) [
    | err status ↦ some (t, err status)
    | ok true ↦ some (t, ok tt)
    | ok false ↦ elim (round_status started (rounds i)) [
      | some status ↦ some (t, err status)
      | none ↦ wait_loop fuel (suc i) (run t (rounds i).others)
    ]
  ]

abbrev record_failure :
    Option (Tracker × Result (Unit {0}) ℤ) → Option (Tracker × Result (Unit {0}) ℤ)
record_failure none = none
record_failure (some (t, ok done)) = some (t, ok done)
record_failure (some (t, err status)) = some (fail t status, err status)

-- `started` is the clock reading at the beginning.
unfoldable pub wait_for_drain :
    (ℕ → Round) → Option ℕ → ℕ → Tracker → Option (Tracker × Result (Unit {0}) ℤ)
wait_for_drain rounds none fuel t = some (t, err contract_error)
wait_for_drain rounds (some started) fuel t = wait_loop rounds started fuel 0 t

unfoldable pub close_and_drain :
    (ℕ → Round) → Option ℕ → ℕ → Tracker → Option (Tracker × Result (Unit {0}) ℤ)
close_and_drain rounds started fuel t =
    record_failure (wait_for_drain rounds started fuel (close t))

unfoldable pub seal_and_drain :
    (ℕ → Round) → Option ℕ → ℕ → Tracker → Option (Tracker × Result (Unit {0}) ℤ)
seal_and_drain rounds started fuel t = close_and_drain rounds started fuel (seal t)

-- The clock advances by at least one millisecond with each sleep.
abbrev pub Ticks : (ℕ → Round) → ℕ → Type 0
Ticks rounds started = (i now : ℕ) → (rounds i).now ≡ some now → started + i ≤ now

-- What the loop may return: it does return, with a drained tracker or with a nonzero status.
abbrev Waited : Option (Tracker × Result (Unit {0}) ℤ) → Type 0
Waited none = ⊥
Waited (some (u, ok done)) = IsValid u × (drained u ≡ ok true)
Waited (some (u, err status)) = IsValid u × (is_zero status ≡ false)

drained-err : (t : Tracker) {status : ℤ} → drained t ≡ err status → is_zero status ≡ false
unfolding drained
drained-err t h = ground arith

round_status-some :
    (started : ℕ) (r : Round) {status : ℤ}
    → round_status started r ≡ some status
    → is_zero status ≡ false
unfolding round_status
round_status-some started r h = ground arith

round_status-none :
    (rounds : ℕ → Round) (started i : ℕ)
    → Ticks rounds started
    → round_status started (rounds i) ≡ none
    → i < drain_deadline
unfolding round_status
round_status-none rounds started i ticks h = elim (Option-cases (rounds i).now) [
  | inl e ↦ ground arith
  | inr r ↦ ground (arith, ticks i r.0 r.1)
]

wait_loop-Waited :
    (rounds : ℕ → Round) (started : ℕ) (fuel i : ℕ) {t : Tracker}
    → Ticks rounds started
    → i ≤ drain_deadline
    → drain_deadline < fuel + i
    → IsValid t
    → Waited (wait_loop rounds started fuel i t)
unfolding wait_loop
wait_loop-Waited rounds started zero i ticks low enough v = absurd (omega arith)
wait_loop-Waited rounds started (suc fuel) i {t} ticks low enough v = query (drained t) refl (λ e.
    wait_loop-Waited rounds started fuel (suc i) ticks
      (omega (arith, round_status-none rounds started i ticks e)) (omega arith)
      (run-IsValid (rounds i).others v))
  where
    rest : Option (Tracker × Result (Unit {0}) ℤ)
    rest = wait_loop rounds started fuel (suc i) (run t (rounds i).others)

    next :
        (s : Option ℤ)
        → round_status started (rounds i) ≡ s
        → drained t ≡ ok false
        → (round_status started (rounds i) ≡ none → Waited rest)
        → Waited (wait_loop rounds started (suc fuel) i t)
    next (some status) e d ih = rw (d, e, wait_loop) (v, round_status-some started (rounds i) e)
    next none e d ih = rw (d, e, wait_loop) (ih e)

    query :
        (q : Result Bool ℤ)
        → drained t ≡ q
        → (round_status started (rounds i) ≡ none → Waited rest)
        → Waited (wait_loop rounds started (suc fuel) i t)
    query (err status) d ih = rw (d, wait_loop) (v, drained-err t d)
    query (ok true) d ih = rw (d, wait_loop) (v, d)
    query (ok false) d ih = next (round_status started (rounds i)) refl d ih

-- What `close_and_drain` may return, with the failure recorded.
abbrev pub DrainOutcome : Option (Tracker × Result (Unit {0}) ℤ) → Type 0
DrainOutcome none = ⊥
DrainOutcome (some (u, ok done)) = IsValid u × (drained u ≡ ok true)
DrainOutcome (some (u, err status)) =
    IsValid u × (is_zero status ≡ false) × (is_zero u.diagnostic.fault ≡ false)

record_failure-DrainOutcome :
    (o : Option (Tracker × Result (Unit {0}) ℤ)) → Waited o → DrainOutcome (record_failure o)
unfolding fail
record_failure-DrainOutcome none w = w
record_failure-DrainOutcome (some (u, ok done)) w = w
record_failure-DrainOutcome (some (u, err status)) (v, nz) =
    (fail-IsValid status v, nz, ground arith)

-- Where each sleep lets the clock advance by a millisecond at least, 1001 rounds are enough for
-- `close_and_drain` on a valid tracker to return, whatever other contexts do meanwhile. If it
-- succeeds the tracker is drained; if it fails, its status is not zero and the tracker holds a
-- fault. In both cases the tracker is valid.
pub close_and_drain_lem :
    {t : Tracker} (rounds : ℕ → Round) (started : Option ℕ)
    → ((s : ℕ) → started ≡ some s → Ticks rounds s)
    → IsValid t
    → DrainOutcome (close_and_drain rounds started 1001 t)
unfolding close_and_drain wait_for_drain
close_and_drain_lem rounds none ticks v =
    record_failure-DrainOutcome (some (_, err contract_error)) (close-IsValid v, refl)
close_and_drain_lem {t = t} rounds (some s) ticks v =
    record_failure-DrainOutcome (wait_loop rounds s 1001 0 (close t)) (
      wait_loop-Waited rounds s 1001 0 (ticks s refl) (omega arith) (omega arith) (close-IsValid v))
