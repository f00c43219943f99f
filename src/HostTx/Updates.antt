-- ===== src/HostTx/Updates.antt =====
-- The tracker's updates of an admitted frame keep the invariant.
use hisi_rf_ws.Common.{
  ℕ, ◌+◌, ◌≤◌, ◌≡◌, inl, inr, refl, ◌∙◌, List, Option, none, some, Bool, true, false, arith,
  is_zero, ℤ, get_elem?, set, bit, find_slot, count_slots, count_slots-set, count_slots-le-length,
  find_slot-some, length-set, Option-cases, Bool-cases,
}
use hisi_rf_ws.HostTx.{
  Active, Tracker, Stage, Ticket, contract_error, queued_at, has_ticket, is_queued, retire_at,
  retire, fail_unless_zero, post_returned_at, post_returned, dispatch_at, dispatch, before_free_at,
  before_free, callback_failed, complete_at, complete,
}
use hisi_rf_ws.HostTx.Table.{anything, IsTable, IsValid, fail-IsValid, put_at-IsValid}

-- A lookup gives an entry that stands in the table.
abbrev pub Found : Tracker → (Active → Bool) → Option (ℕ × Active) → Type 0
Found t p none = Unit {0}
Found t p (some (i, a)) = (get_elem? t.slots i ≡ some (some a)) × (p a ≡ true)

pub found : (t : Tracker) (p : Active → Bool) → Found t p (find_slot p t.slots)
found t p = elim (Option-cases (find_slot p t.slots)) [
  | inl e ↦ rw e tt
  | inr r ↦ rw r.1 (find_slot-some p t.slots r.1)
]

-- Emptying a slot keeps the table.
clear-IsTable :
    (slots : List (Option Active)) (i : ℕ) (a : Active) (n : ℕ)
    → get_elem? slots i ≡ some (some a)
    → IsTable slots n
    → IsTable (set slots i none) n
clear-IsTable slots i a n at v = record {
  size = length-set slots i none ∙ v.size;
  ticket_once = λ k. omega (arith, law (has_ticket k), v.ticket_once k);
  ticket_issued = λ k h. omega (arith, law (has_ticket k), v.ticket_issued k h);
  owned_once = λ p. omega (arith, law (queued_at p), v.owned_once p);
}
  where
    law :
        (p : Active → Bool) → count_slots p (set slots i none) + bit (p a) ≡ count_slots p slots + 0
    law p = count_slots-set p slots i (some a) none at

retire_at-IsValid :
    {t : Tracker} (p : Active → Bool) (r : Option (ℕ × Active))
    → Found t p r
    → IsValid t
    → IsValid (retire_at t r)
unfolding retire_at
retire_at-IsValid p none f v = v
retire_at-IsValid {t} p (some (i, a)) f v = ground (
  arith,
  clear-IsTable t.slots i a t.diagnostic.accepted f.0 v.table,
  count_slots-set anything t.slots i (some a) none f.0,
  count_slots-le-length anything t.slots,
  v.table.size,
)

retire-IsValid : {t : Tracker} (ticket : Ticket) → IsValid t → IsValid (retire t ticket)
unfolding retire
retire-IsValid {t} ticket v =
    retire_at-IsValid (has_ticket ticket) (find_slot (has_ticket ticket) t.slots)
      (found t (has_ticket ticket)) v

fail_unless_zero-IsValid :
    {t : Tracker} (status : ℤ) → IsValid t → IsValid (fail_unless_zero t status)
unfolding fail_unless_zero
fail_unless_zero-IsValid {t} status v = elim (Bool-cases (is_zero status)) [
  | inl e ↦ rw e v
  | inr e ↦ rw e (fail-IsValid status v)
]

callback_failed-IsValid :
    {t : Tracker} (status : ℤ) → IsValid t → IsValid (callback_failed t status)
unfolding callback_failed
callback_failed-IsValid status v = ground arith

post_returned_at-IsValid :
    {t : Tracker} (ticket : Ticket) (status : ℤ) (p : Active → Bool) (r : Option (ℕ × Active))
    → Found t p r
    → IsValid t
    → IsValid (post_returned_at t ticket status r)
unfolding post_returned_at
post_returned_at-IsValid ticket status p none f v = fail-IsValid contract_error v
post_returned_at-IsValid {t} ticket status p (some (i, a)) f v = elim (Bool-cases a.post_returned) [
  | inl e ↦ rw e (fail-IsValid contract_error v)
  | inr e ↦ rw e (
      retire-IsValid ticket (
        fail_unless_zero-IsValid status
          (put_at-IsValid i a (record a { post_returned = true }) f.0 refl (λ q. omega arith) v)))
]

pub post_returned-IsValid :
    {t : Tracker} (ticket : Ticket) (status : ℤ)
    → IsValid t
    → IsValid (post_returned t ticket status)
unfolding post_returned
post_returned-IsValid {t} ticket status v =
    post_returned_at-IsValid ticket status (has_ticket ticket)
      (find_slot (has_ticket ticket) t.slots) (found t (has_ticket ticket)) v

-- An entry that is no longer queued claims no address.
unclaimed :
    (a : Active) (s : Stage)
    → is_queued s ≡ false
    → (p : ℕ) → bit (queued_at p (record a { stage = s })) ≤ bit (queued_at p a)
unclaimed a s e p = ground arith

dispatch_at-IsValid :
    {t : Tracker} (p : Active → Bool) (r : Option (ℕ × Active))
    → Found t p r
    → IsValid t
    → IsValid (dispatch_at t r).0
unfolding dispatch_at
dispatch_at-IsValid p none f v = fail-IsValid contract_error v
dispatch_at-IsValid p (some (i, a)) f v =
    put_at-IsValid i a (record a { stage = Stage.executing }) f.0 refl
      (unclaimed a Stage.executing refl) v

pub dispatch-IsValid : {t : Tracker} (pointer : ℕ) → IsValid t → IsValid (dispatch t pointer).0
unfolding dispatch
dispatch-IsValid {t} pointer v =
    dispatch_at-IsValid (queued_at pointer) (find_slot (queued_at pointer) t.slots)
      (found t (queued_at pointer)) v

before_free_at-IsValid :
    {t : Tracker} (p : Active → Bool) (r : Option (ℕ × Active))
    → Found t p r
    → IsValid t
    → IsValid (before_free_at t r).0
unfolding before_free_at
before_free_at-IsValid p none f v = v
before_free_at-IsValid p (some (i, a)) f v =
    put_at-IsValid i a (record a { stage = Stage.freeing }) f.0 refl
      (unclaimed a Stage.freeing refl) v

pub before_free-IsValid :
    {t : Tracker} (pointer : ℕ) → IsValid t → IsValid (before_free t pointer).0
unfolding before_free
before_free-IsValid {t} pointer v =
    before_free_at-IsValid (queued_at pointer) (find_slot (queued_at pointer) t.slots)
      (found t (queued_at pointer)) v

complete_at-IsValid :
    {t : Tracker} (ticket : Ticket) (for_free : Bool) (status : ℤ) (p : Active → Bool)
    (r : Option (ℕ × Active))
    → Found t p r
    → IsValid t
    → IsValid (complete_at t ticket for_free status r)
unfolding complete_at
complete_at-IsValid ticket for_free status p none f v = fail-IsValid contract_error v
complete_at-IsValid {t} ticket true status p (some (i, a)) f v =
    let u =
      put_at-IsValid i a (record a { stage = Stage.freed }) f.0 refl (unclaimed a Stage.freed refl)
        v in
    ground (arith, fail-IsValid contract_error v, fail-IsValid status v, retire-IsValid ticket u)
complete_at-IsValid {t} ticket false status p (some (i, a)) f v =
    let u =
      put_at-IsValid i a (record a { stage = Stage.executed }) f.0 refl
        (unclaimed a Stage.executed refl) v in
    ground (
      arith,
      fail-IsValid contract_error v,
      retire-IsValid ticket u,
      retire-IsValid ticket (callback_failed-IsValid status u),
    )

pub complete-IsValid :
    {t : Tracker} (ticket : Ticket) (for_free : Bool) (status : ℤ)
    → IsValid t
    → IsValid (complete t ticket for_free status)
unfolding complete
complete-IsValid {t} ticket for_free status v =
    complete_at-IsValid ticket for_free status (has_ticket ticket)
      (find_slot (has_ticket ticket) t.slots) (found t (has_ticket ticket)) v
