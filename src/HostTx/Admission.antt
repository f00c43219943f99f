-- ===== src/HostTx/Admission.antt =====
-- Admission of a frame keeps the invariant.
use hisi_rf_ws.Common.{
  ℕ, ◌+◌, ◌<◌, ◌≡◌, inl, inr, refl, ◌∙◌, List, Option, none, some, Bool, false, arith, ◌==◌,
  get_elem?, set, bit, any_slot, free_slot, count_slots, count_slots-set, count_slots-le-length,
  count_slots_of_any, free_slot-some, length-set, Bool-cases, u64_max, checked_inc64,
}
use hisi_rf_ws.HostTx.{
  Active, Tracker, Stage, Ticket, contract_error, queued_at, has_ticket, fail, reject, place, admit,
  begin,
}
use hisi_rf_ws.HostTx.Table.{anything, IsTable, IsValid, fail-IsValid, reject-IsValid}

abbrev pub fresh_entry : ℕ → Ticket → Active
fresh_entry pointer n = record {
  ticket = n;
  pointer = pointer;
  stage = Stage.queued;
  post_returned = false;
}

-- Filling a free slot under the next ticket keeps the table, if no queued entry has the address.
fill-IsTable :
    (slots : List (Option Active)) (i pointer n : ℕ)
    → get_elem? slots i ≡ some none
    → count_slots (queued_at pointer) slots ≡ 0
    → IsTable slots n
    → IsTable (set slots i (some (fresh_entry pointer (n + 1)))) (n + 1)
fill-IsTable slots i pointer n at alone v = record {
  size = length-set slots i (some a) ∙ v.size;
  ticket_once = λ k. ground (arith, law (has_ticket k), v.ticket_once k, v.ticket_issued k);
  ticket_issued = λ k h. ground (arith, law (has_ticket k), v.ticket_issued k);
  owned_once = λ p. elim (Bool-cases (pointer == p)) [
    | inl e ↦ ground (arith, law (queued_at p), alone, e)
    | inr e ↦ ground (arith, law (queued_at p), v.owned_once p, e)
  ];
}
  where
    a : Active
    a = fresh_entry pointer (n + 1)

    law :
        (p : Active → Bool)
        → count_slots p (set slots i (some a)) + 0 ≡ count_slots p slots + bit (p a)
    law p = count_slots-set p slots i none (some a) at

place-IsValid :
    {t : Tracker} (pointer i : ℕ)
    → get_elem? t.slots i ≡ some none
    → count_slots (queued_at pointer) t.slots ≡ 0
    → t.diagnostic.accepted < u64_max
    → t.diagnostic.closed ≡ false
    → IsValid t
    → IsValid (place t pointer (some i) (some (t.diagnostic.accepted + 1))).0
unfolding place
place-IsValid {t} pointer i at alone room admitting v = ground (
  arith,
  fill-IsTable t.slots i pointer t.diagnostic.accepted at alone v.table,
  count_slots-set anything t.slots i none (some (fresh_entry pointer (t.diagnostic.accepted + 1)))
      at,
  count_slots-le-length anything
      (set t.slots i (some (fresh_entry pointer (t.diagnostic.accepted + 1)))),
  length-set t.slots i (some (fresh_entry pointer (t.diagnostic.accepted + 1))),
  v.table.size,
)

refuse-IsValid : {t : Tracker} → IsValid t → IsValid (reject (fail t contract_error))
refuse-IsValid v = reject-IsValid (fail-IsValid contract_error v)

admit-IsValid :
    {t : Tracker} (pointer : ℕ) (slot : Option ℕ)
    → count_slots (queued_at pointer) t.slots ≡ 0
    → ((i : ℕ) → slot ≡ some i → get_elem? t.slots i ≡ some none)
    → IsValid t
    → IsValid (admit t pointer slot (checked_inc64 t.diagnostic.accepted)).0
unfolding admit
admit-IsValid pointer none alone at v = ground (arith, refuse-IsValid v)
admit-IsValid {t} pointer (some i) alone at v =
    ground
      (arith, refuse-IsValid v, reject-IsValid v, place-IsValid {t = t} pointer i (at i refl) alone)

pub begin-IsValid : {t : Tracker} (pointer : ℕ) → IsValid t → IsValid (begin t pointer).0
unfolding begin
begin-IsValid {t} pointer v = elim (Bool-cases (any_slot (queued_at pointer) t.slots)) [
  | inl e ↦ rw e (refuse-IsValid v)
  | inr e ↦ rw e (
      admit-IsValid pointer (free_slot t.slots) (count_slots_of_any (queued_at pointer) t.slots e)
        (λ i h. free_slot-some t.slots h) v)
]
