-- ===== src/HostTx/Table.antt =====
-- The invariant of the queue-4 tracker, and the table updates that keep it.
use hisi_rf_ws.Common.{
  ℕ, ◌+◌, ◌≤◌, ◌<◌, ◌≡◌, sym, ◌∙◌, List, Option, none, some, Bool, true, false, arith, is_zero, ℤ,
  length, replicate, get_elem?, set, bit, count_slots, count_slots-set, count_slots-clear,
  length-set, length-replicate, u64_max,
}
use hisi_rf_ws.HostTx.{
  Active, Tracker, capacity, queued_at, has_ticket, new, fail, reject, put_at, close, seal,
  resume_handshake,
}

abbrev pub anything : Active → Bool
anything a = true

-- Slots: at most one entry for each ticket, none for a ticket not yet issued, and at most one
-- queued owner of an address.
pub record IsTable (slots : List (Option Active)) (accepted : ℕ) : Type 0 where
  pub size : length slots ≡ capacity
  pub ticket_once : (k : ℕ) → count_slots (has_ticket k) slots ≤ 1
  pub ticket_issued : (k : ℕ) → accepted < k → count_slots (has_ticket k) slots ≡ 0
  pub owned_once : (p : ℕ) → count_slots (queued_at p) slots ≤ 1

pub record IsValid (t : Tracker) : Type 0 where
  pub table : IsTable t.slots t.diagnostic.accepted
  pub accepted_fits : t.diagnostic.accepted ≤ u64_max
  pub conserved :
      t.diagnostic.accepted ≡ t.diagnostic.processed + t.diagnostic.dropped + t.diagnostic.pending
  pub pending_exact : t.diagnostic.pending ≡ count_slots anything t.slots
  pub peak_above : t.diagnostic.pending ≤ t.diagnostic.peak
  pub peak_bounded : t.diagnostic.peak ≤ capacity
  pub fault_closes : is_zero t.diagnostic.fault ≡ false → t.diagnostic.closed ≡ true
  pub sealed_closes : t.terminal ≡ true → t.diagnostic.closed ≡ true

empty : List (Option Active)
empty = replicate capacity none

empty-IsTable : IsTable empty 0
unfolding empty
empty-IsTable = record {
  size = length-replicate {A = Option Active} capacity none;
  ticket_once = λ k. omega (arith, count_slots-clear (has_ticket k) capacity);
  ticket_issued = λ k h. count_slots-clear (has_ticket k) capacity;
  owned_once = λ p. omega (arith, count_slots-clear (queued_at p) capacity);
}

-- A new tracker is valid.
pub new-IsValid : IsValid new
unfolding new empty
new-IsValid = record {
  table = empty-IsTable;
  accepted_fits = omega arith;
  conserved = omega arith;
  pending_exact = sym (count_slots-clear anything capacity);
  peak_above = omega arith;
  peak_bounded = omega arith;
  fault_closes = λ h. cc;
  sealed_closes = λ h. cc;
}

pub fail-IsValid : {t : Tracker} (status : ℤ) → IsValid t → IsValid (fail t status)
unfolding fail
fail-IsValid status v = ground arith

pub reject-IsValid : {t : Tracker} → IsValid t → IsValid (reject t)
unfolding reject
reject-IsValid v = ground arith

pub close-IsValid : {t : Tracker} → IsValid t → IsValid (close t)
unfolding close
close-IsValid v = ground arith

pub seal-IsValid : {t : Tracker} → IsValid t → IsValid (seal t)
unfolding seal
seal-IsValid v = ground arith

pub resume-IsValid : {t : Tracker} (status : ℤ) → IsValid t → IsValid (resume_handshake t status).0
unfolding resume_handshake
resume-IsValid status v = ground arith

-- Writing an entry back with its ticket, and no new claim to an address, keeps the table.
module _ (slots : List (Option Active)) (i : ℕ) (a b : Active)
    (at : get_elem? slots i ≡ some (some a)) (same : b.ticket ≡ a.ticket)
    (claim : (p : ℕ) → bit (queued_at p b) ≤ bit (queued_at p a)) where
  put-IsTable : (n : ℕ) → IsTable slots n → IsTable (set slots i (some b)) n
  put-IsTable n v = record {
    size = length-set slots i (some b) ∙ v.size;
    ticket_once = λ k. omega (arith, ticket k, v.ticket_once k);
    ticket_issued = λ k h. omega (arith, ticket k, v.ticket_issued k h);
    owned_once = λ p. omega (
      arith,
      claim p,
      count_slots-set (queued_at p) slots i (some a) (some b) at,
      v.owned_once p,
    );
  }
    where
      ticket :
          (k : ℕ)
          → count_slots (has_ticket k) (set slots i (some b)) ≡ count_slots (has_ticket k) slots
      ticket k =
          let e = count_slots-set (has_ticket k) slots i (some a) (some b) at in
          ground (arith, e, same)

pub put_at-IsValid :
    {t : Tracker} (i : ℕ) (a b : Active)
    → get_elem? t.slots i ≡ some (some a)
    → b.ticket ≡ a.ticket
    → ((p : ℕ) → bit (queued_at p b) ≤ bit (queued_at p a))
    → IsValid t
    → IsValid (put_at t i b)
unfolding put_at
put_at-IsValid {t} i a b at same claim v = record {
  table = put-IsTable t.slots i a b at same claim t.diagnostic.accepted v.table;
  accepted_fits = v.accepted_fits;
  conserved = v.conserved;
  pending_exact =
      omega (arith, v.pending_exact, count_slots-set anything t.slots i (some a) (some b) at);
  peak_above = v.peak_above;
  peak_bounded = v.peak_bounded;
  fault_closes = v.fault_closes;
  sealed_closes = v.sealed_closes;
}
