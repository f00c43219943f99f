-- ===== src/HostTx/Drain.antt =====
-- What a drain report, a fault and a seal promise, over every later interleaving.
use hisi_rf_ws.Common.{
  ℕ, ◌+◌, ◌≡◌, ◌≢◌, ◌↔◌, List, [], ◌∷◌, Option, none, some, Bool, true, false, arith, is_zero, ℤ,
  ok, err, get_elem?, count_slots, count_slots-set, if◌then◌else◌, is_ok,
}
use hisi_rf_ws.HostTx.{
  Active, Tracker, Begun, Op, fail, begin, post_returned, dispatch, before_free, complete, close,
  seal, resume_handshake, drained, step, run,
}
use hisi_rf_ws.HostTx.Table.{anything, IsValid, seal-IsValid}
use hisi_rf_ws.HostTx.Invariant.{run-IsValid}

abbrev pub is_admitted : Begun → Bool
is_admitted (Begun.admitted n) = true
is_admitted _ = false

begin_closed :
    (t : Tracker) (p : ℕ) → t.diagnostic.closed ≡ true → is_admitted (begin t p).1 ≡ false
unfolding begin
begin_closed t p h = ground arith

-- What the three-valued state of admission can still become.
record Marks (t u : Tracker) : Type 0 where
  fault_kept : is_zero t.diagnostic.fault ≡ false → u.diagnostic.fault ≡ t.diagnostic.fault
  terminal_kept : t.terminal ≡ true → u.terminal ≡ true

Marks-step : (t : Tracker) (op : Op) → Marks t (step t op)
unfolding step begin post_returned dispatch before_free complete close seal fail resume_handshake
Marks-step t (Op.begin_op p) = ground arith
Marks-step t (Op.post_returned_op k s) = ground arith
Marks-step t (Op.dispatch_op p) = ground arith
Marks-step t (Op.before_free_op p) = ground arith
Marks-step t (Op.complete_op k f s) = ground arith
Marks-step t Op.close_op = ground arith
Marks-step t Op.seal_op = ground arith
Marks-step t (Op.fail_op s) = ground arith
Marks-step t (Op.resume_op s) = ground arith

Marks-run : (t : Tracker) (ops : List Op) → Marks t (run t ops)
unfolding run
Marks-run t [] = ground arith
Marks-run t (op ∷ ops) = ground (arith, Marks-step t op, Marks-run (step t op) ops)

-- Once a valid tracker has a fault, then whatever critical sections follow, the drain query
-- answers with that first fault, every frame is refused, and the handshake is never resumed.
pub host_tx_fault_latches :
    (t : Tracker) (ops : List Op) (p : ℕ) (status : ℤ)
    → IsValid t
    → is_zero t.diagnostic.fault ≡ false
    → let u = run t ops in
      (drained u ≡ err t.diagnostic.fault)
      × (is_admitted (begin u p).1 ≡ false)
      × (is_ok (resume_handshake u status).1 ≡ false)
unfolding drained resume_handshake
host_tx_fault_latches t ops p status v h =
    ground (arith, Marks-run t ops, run-IsValid ops v, begin_closed (run t ops) p)

-- After `seal` on a valid tracker, whatever critical sections follow, no frame is admitted and no
-- handshake is resumed.
pub seal_terminal :
    (t : Tracker) (ops : List Op) (p : ℕ) (status : ℤ)
    → IsValid t
    → let u = run (seal t) ops in
      (is_admitted (begin u p).1 ≡ false) × (is_ok (resume_handshake u status).1 ≡ false)
unfolding seal resume_handshake
seal_terminal t ops p status v = ground (
  arith,
  Marks-run (seal t) ops,
  run-IsValid {t = seal t} ops (seal-IsValid v),
  begin_closed (run (seal t) ops) p,
)

-- An empty count leaves no occupied slot.
none_of_count :
    (xs : List (Option Active)) (i : ℕ) (a : Active)
    → count_slots anything xs ≡ 0
    → get_elem? xs i ≢ some (some a)
none_of_count xs i a h e = omega (arith, count_slots-set anything xs i (some a) none e)

-- When a valid tracker reports itself drained, admission is closed, no slot holds a frame, and
-- every frame ever accepted was either processed or dropped.
pub drained_lem :
    (t : Tracker)
    → IsValid t
    → drained t ≡ ok true
    → (t.diagnostic.closed ≡ true)
      × ((i : ℕ) (a : Active) → get_elem? t.slots i ≢ some (some a))
      × (t.diagnostic.accepted ≡ t.diagnostic.processed + t.diagnostic.dropped)
unfolding drained
drained_lem t v h =
    let closed : t.diagnostic.closed ≡ true = ground arith in
    let idle : t.diagnostic.pending ≡ 0 = ground arith in
    (
      closed,
      λ i a. none_of_count t.slots i a (omega (arith, v.pending_exact)),
      omega (arith, v.conserved),
    )

-- The handshake is resumed exactly when the native status is zero, no fault is recorded, the
-- tracker is not sealed and nothing is pending; then admission is open again and nothing else
-- has changed. Otherwise the tracker is unchanged.
pub resume_handshake_lem :
    (t : Tracker) (status : ℤ)
    → let (u, result) = resume_handshake t status in
      let d = t.diagnostic in
      ((is_ok result ≡ true) ↔ (
        (is_zero status ≡ true)
        × (is_zero d.fault ≡ true)
        × (t.terminal ≡ false)
        × (d.pending ≡ 0)))
      × (u ≡ (if is_ok result then record t { diagnostic = record d { closed = false } } else t))
unfolding resume_handshake
resume_handshake_lem t status = ground arith
