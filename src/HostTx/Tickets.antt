-- ===== src/HostTx/Tickets.antt =====
-- Admission of a frame, and the life of its ticket.
use hisi_rf_ws.Common.{
  ℕ, ◌+◌, ◌≤◌, ◌<◌, ◌≡◌, ◌≢◌, inl, inr, refl, none, some, Bool, true, false, not, arith, get_elem?,
  set, bit, find_slot, any_slot, free_slot, count_slots, count_slots-set, Option-cases, u64_max,
  if◌then◌else◌, free_slot-none, free_slot-some, find_slot_of_unique, dec32, inc64, pos,
  get_elem?-set_self, lt_of_get_elem?, ==_self, set-set,
}
use hisi_rf_ws.HostTx.{
  Active, Tracker, Stage, Begun, capacity, queued_at, has_ticket, is_settled, is_executed, begin,
  retire_at, retire, put_at, post_returned, complete,
}
use hisi_rf_ws.HostTx.Table.{IsValid, put_at-IsValid}
use hisi_rf_ws.HostTx.Admission.{fresh_entry}

-- The `expect`s of `begin` never fail, from any tracker.
pub begin-ne-panicked : (t : Tracker) (p : ℕ) → (begin t p).1 ≢ Begun.panicked
unfolding begin
begin-ne-panicked t p h = ground arith

-- A valid tracker whose admission is open accepts a nonzero address that no queued frame has,
-- while a slot is free and the sequence number can grow: the ticket is the next number, exactly
-- one slot holds it, and one more frame is accepted and pending.
pub begin_admits :
    (t : Tracker) (p : ℕ)
    → IsValid t
    → t.diagnostic.closed ≡ false
    → p ≢ 0
    → any_slot (queued_at p) t.slots ≡ false
    → t.diagnostic.pending < capacity
    → t.diagnostic.accepted < u64_max
    → let (u, result) = begin t p in
      (result ≡ Begun.admitted (t.diagnostic.accepted + 1))
      × (count_slots (has_ticket (t.diagnostic.accepted + 1)) u.slots ≡ 1)
      × (u.diagnostic.accepted ≡ t.diagnostic.accepted + 1)
      × (u.diagnostic.pending ≡ t.diagnostic.pending + 1)
unfolding begin
begin_admits t p v h nz alone room fits = elim (Option-cases (free_slot t.slots)) [
  | inl e ↦ absurd (omega (arith, free_slot-none t.slots e, v.pending_exact, v.table.size))
  | inr r ↦
      let n = t.diagnostic.accepted + 1 in
      ground (
        arith,
        r.1,
        v.table.ticket_issued n,
        count_slots-set (has_ticket n) t.slots r.0 none (some (fresh_entry p n))
            (free_slot-some t.slots r.1),
      )
]

-- An entry that stands in a slot of a valid tracker is what its ticket finds.
find_ticket :
    {t : Tracker} (i : ℕ) (a : Active)
    → IsValid t
    → get_elem? t.slots i ≡ some (some a)
    → find_slot (has_ticket a.ticket) t.slots ≡ some (i, a)
find_ticket {t} i a v at =
    find_slot_of_unique (has_ticket a.ticket) t.slots i a at (==_self a.ticket)
      (v.table.ticket_once a.ticket)

-- The stage of an entry while its native call runs, and after it has returned.
abbrev pub running : Bool → Stage
running true = Stage.freeing
running false = Stage.executing

abbrev pub finished : Bool → Stage
finished true = Stage.freed
finished false = Stage.executed

-- The tracker with the entry in slot `i` retired as dropped (`for_free`) or processed.
abbrev pub retired : Tracker → ℕ → Bool → Tracker
retired t i for_free =
    let d = t.diagnostic in
    record t {
      slots = set t.slots i none;
      diagnostic = record d {
        pending = dec32 d.pending;
        processed = if for_free then d.processed else inc64 d.processed;
        dropped = if for_free then inc64 d.dropped else d.dropped;
      };
    }

module _ {t : Tracker} (i : ℕ) (a : Active) (v : IsValid t)
    (at : get_elem? t.slots i ≡ some (some a)) where
  -- An update of the entry that keeps its ticket and claims nothing new is found again.
  retire_put :
      (b : Active)
      → b.ticket ≡ a.ticket
      → ((p : ℕ) → bit (queued_at p b) ≤ bit (queued_at p a))
      → IsValid (put_at t i b)
        × (get_elem? (put_at t i b).slots i ≡ some (some b))
        × (retire (put_at t i b) a.ticket ≡ retire_at (put_at t i b) (some (i, b)))
  unfolding put_at retire
  retire_put b same claim =
      let w = put_at-IsValid i a b at same claim v in
      let here = get_elem?-set_self t.slots i (some b) (lt_of_get_elem? t.slots i at) in
      (w, here, rw (← same, find_ticket {t = put_at t i b} i b w here))

  complete_held :
      (for_free : Bool)
      → a.stage ≡ running for_free
      → let b : Active = record a { stage = finished for_free } in
        complete t a.ticket for_free (pos 0) ≡ retire_at (put_at t i b) (some (i, b))
  unfolding complete
  complete_held true s =
      rw (find_ticket i a v at, s)
        ((retire_put (record a { stage = finished true }) refl (λ p. ground arith)).2)
  complete_held false s =
      rw (find_ticket i a v at, s)
        ((retire_put (record a { stage = finished false }) refl (λ p. ground arith)).2)

  post_returned_held :
      a.post_returned ≡ false
      → let b : Active = record a { post_returned = true } in
        post_returned t a.ticket (pos 0) ≡ retire_at (put_at t i b) (some (i, b))
  unfolding post_returned
  post_returned_held e =
      rw (find_ticket i a v at, e)
        ((retire_put (record a { post_returned = true }) refl (λ p. ground arith)).2)

running_open : (f : Bool) → is_settled (running f) ≡ false
running_open true = refl
running_open false = refl

settled_claim :
    (a : Active) (f : Bool) (p : ℕ)
    → bit (queued_at p (record a { stage = finished f })) ≤ bit (queued_at p a)
settled_claim a true p = ground arith
settled_claim a false p = ground arith

-- A frame of a valid tracker that the native queue executes or frees, and whose post has not
-- returned, is retired by its completion and its post return, both with status 0, whichever comes
-- first: its slot is emptied, one pending frame becomes a dropped one if it was freed and a
-- processed one otherwise, and nothing else changes.
pub settle_lem :
    {t : Tracker} (i : ℕ) (a : Active) (for_free : Bool)
    → IsValid t
    → get_elem? t.slots i ≡ some (some a)
    → a.stage ≡ running for_free
    → a.post_returned ≡ false
    → (post_returned (complete t a.ticket for_free (pos 0)) a.ticket (pos 0) ≡ retired t i for_free)
      × (complete (post_returned t a.ticket (pos 0)) a.ticket for_free (pos 0)
          ≡ retired t i for_free)
unfolding retire_at put_at
settle_lem {t} i a for_free v at s e = (first, last)
  where
    b : Active
    b = record a { stage = finished for_free }

    c : Active
    c = record a { post_returned = true }

    done : (f : Bool) → is_settled (finished f) ≡ true
    done true = refl
    done false = refl

    outcome : (f : Bool) → is_executed (finished f) ≡ not f
    outcome true = refl
    outcome false = refl

    first :
        post_returned (complete t a.ticket for_free (pos 0)) a.ticket (pos 0) ≡ retired t i for_free
    first =
        let (w, here, _) = retire_put i a v at b refl (settled_claim a for_free) in
        ground (
          arith,
          complete_held i a v at for_free s,
          post_returned_held {t = put_at t i b} i b w here e,
          done for_free,
          outcome for_free,
          set-set t.slots i (some b) (some (record b { post_returned = true })),
          set-set t.slots i (some (record b { post_returned = true })) none,
        )

    last :
        complete (post_returned t a.ticket (pos 0)) a.ticket for_free (pos 0) ≡ retired t i for_free
    last =
        let (w, here, _) = retire_put i a v at c refl (λ p. omega arith) in
        ground (
          arith,
          post_returned_held i a v at e,
          complete_held {t = put_at t i c} i c w here for_free s,
          running_open for_free,
          done for_free,
          outcome for_free,
          set-set t.slots i (some c) (some (record c { stage = finished for_free })),
          set-set t.slots i (some (record c { stage = finished for_free })) none,
        )
