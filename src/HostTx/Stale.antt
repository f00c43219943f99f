-- ===== src/HostTx/Stale.antt =====
-- A ticket that has left the table never comes back, so a late native return cannot retire
-- another frame.
use hisi_rf_ws.Common.{
  ℕ, ◌+◌, ◌≤◌, ◌≡◌, inl, inr, List, [], ◌∷◌, Option, none, some, Bool, true, false, arith, ℤ,
  get_elem?, find_slot, free_slot, count_slots, count_slots-set, Option-cases, find_slot-some,
  free_slot-some, count_slots_pos,
}
use hisi_rf_ws.HostTx.{
  Active, Tracker, Stage, Ticket, Op, queued_at, has_ticket, contract_error, fail, begin, retire_at,
  retire, put_at, post_returned_at, post_returned, dispatch_at, dispatch, before_free_at,
  before_free, callback_failed, fail_unless_zero, complete_at, complete, close, seal,
  resume_handshake, step, run,
}
use hisi_rf_ws.HostTx.Updates.{Found, found}
use hisi_rf_ws.HostTx.Admission.{fresh_entry}

module _ (k : Ticket) where
  abbrev held : Tracker → ℕ
  held t = count_slots (has_ticket k) t.slots

  held-put_at :
      (t : Tracker) (i : ℕ) (a b : Active)
      → get_elem? t.slots i ≡ some (some a)
      → b.ticket ≡ a.ticket
      → held (put_at t i b) ≡ held t
  unfolding put_at
  held-put_at t i a b at same =
      ground (arith, count_slots-set (has_ticket k) t.slots i (some a) (some b) at)

  held-retire_at :
      (t : Tracker) (p : Active → Bool) (r : Option (ℕ × Active))
      → Found t p r
      → held (retire_at t r) ≤ held t
  unfolding retire_at
  held-retire_at t p none f = omega arith
  held-retire_at t p (some (i, a)) f =
      ground (arith, count_slots-set (has_ticket k) t.slots i (some a) none f.0)

  held-retire : (t : Tracker) (ticket : Ticket) → held (retire t ticket) ≤ held t
  unfolding retire
  held-retire t ticket =
      held-retire_at t (has_ticket ticket) (find_slot (has_ticket ticket) t.slots)
        (found t (has_ticket ticket))

  held-post_returned_at :
      (t : Tracker) (ticket : Ticket) (status : ℤ) (p : Active → Bool) (r : Option (ℕ × Active))
      → Found t p r
      → held (post_returned_at t ticket status r) ≤ held t
  unfolding post_returned_at fail
  held-post_returned_at t ticket status p none f = omega arith
  held-post_returned_at t ticket status p (some (i, a)) f =
      let b : Active = record a { post_returned = true } in
      let u = fail_unless_zero (put_at t i b) status in
      ground (arith, held-retire u ticket, held-put_at t i a b f.0)

  held-dispatch_at :
      (t : Tracker) (p : Active → Bool) (r : Option (ℕ × Active))
      → Found t p r
      → (held (dispatch_at t r).0 ≤ held t) × (held (before_free_at t r).0 ≤ held t)
  unfolding dispatch_at before_free_at fail
  held-dispatch_at t p none f = ground arith
  held-dispatch_at t p (some (i, a)) f = ground (
    arith,
    held-put_at t i a (record a { stage = Stage.executing }) f.0,
    held-put_at t i a (record a { stage = Stage.freeing }) f.0,
  )

  held-complete_at :
      (t : Tracker) (ticket : Ticket) (for_free : Bool) (status : ℤ) (p : Active → Bool)
      (r : Option (ℕ × Active))
      → Found t p r
      → held (complete_at t ticket for_free status r) ≤ held t
  unfolding complete_at fail
  held-complete_at t ticket for_free status p none f = omega arith
  held-complete_at t ticket true status p (some (i, a)) f =
      let u = put_at t i (record a { stage = Stage.freed }) in
      ground (arith, held-retire u ticket, held-put_at t i a (record a { stage = Stage.freed }) f.0)
  held-complete_at t ticket false status p (some (i, a)) f =
      let u = put_at t i (record a { stage = Stage.executed }) in
      ground (
        arith,
        held-retire u ticket,
        held-retire (callback_failed u status) ticket,
        held-put_at t i a (record a { stage = Stage.executed }) f.0,
      )

  held-begin : (t : Tracker) (p : ℕ) → k ≤ t.diagnostic.accepted → held (begin t p).0 ≤ held t
  unfolding begin
  held-begin t p h = elim (Option-cases (free_slot t.slots)) [
    | inl e ↦ ground arith
    | inr r ↦
        let a = fresh_entry p (t.diagnostic.accepted + 1) in
        ground (
          arith,
          r.1,
          count_slots-set (has_ticket k) t.slots r.0 none (some a) (free_slot-some t.slots r.1),
        )
  ]

  held-step : (t : Tracker) (op : Op) → k ≤ t.diagnostic.accepted → held (step t op) ≤ held t
  unfolding step post_returned dispatch before_free complete close seal fail resume_handshake
  held-step t (Op.begin_op p) h = held-begin t p h
  held-step t (Op.post_returned_op ticket status) h =
      held-post_returned_at t ticket status (has_ticket ticket)
        (find_slot (has_ticket ticket) t.slots) (found t (has_ticket ticket))
  held-step t (Op.dispatch_op p) h =
      (held-dispatch_at t (queued_at p) (find_slot (queued_at p) t.slots) (found t (queued_at p))).0
  held-step t (Op.before_free_op p) h =
      (held-dispatch_at t (queued_at p) (find_slot (queued_at p) t.slots) (found t (queued_at p))).1
  held-step t (Op.complete_op ticket for_free status) h =
      held-complete_at t ticket for_free status (has_ticket ticket)
        (find_slot (has_ticket ticket) t.slots) (found t (has_ticket ticket))
  held-step t Op.close_op h = omega arith
  held-step t Op.seal_op h = omega arith
  held-step t (Op.fail_op status) h = omega arith
  held-step t (Op.resume_op status) h = ground arith

accepted-step : (t : Tracker) (op : Op) → t.diagnostic.accepted ≤ (step t op).diagnostic.accepted
unfolding step begin post_returned dispatch before_free complete close seal fail resume_handshake
accepted-step t (Op.begin_op p) = ground arith
accepted-step t (Op.post_returned_op ticket status) = ground arith
accepted-step t (Op.dispatch_op p) = ground arith
accepted-step t (Op.before_free_op p) = ground arith
accepted-step t (Op.complete_op ticket for_free status) = ground arith
accepted-step t Op.close_op = omega arith
accepted-step t Op.seal_op = omega arith
accepted-step t (Op.fail_op status) = omega arith
accepted-step t (Op.resume_op status) = ground arith

held-run :
    (k : Ticket) (t : Tracker) (ops : List Op)
    → k ≤ t.diagnostic.accepted
    → held k t ≡ 0
    → held k (run t ops) ≡ 0
unfolding run
held-run k t [] h e = e
held-run k t (op ∷ ops) h e =
    held-run k (step t op) ops (omega (arith, accepted-step t op))
      (omega (arith, held-step k t op h))

absent : (t : Tracker) (k : Ticket) → held k t ≡ 0 → find_slot (has_ticket k) t.slots ≡ none
absent t k e = elim (Option-cases (find_slot (has_ticket k) t.slots)) [
  | inl gone ↦ gone
  | inr r ↦
      let (at, mine) = find_slot-some (has_ticket k) t.slots r.1 in
      absurd (omega (arith, count_slots_pos (has_ticket k) t.slots r.0.0 r.0.1 at mine))
]

-- Once an issued ticket is held by no slot, then whatever critical sections follow, no slot holds
-- it again, and a late completion or post return under it changes no slot: it only records a
-- contract fault and closes admission.
pub stale_ticket :
    (t : Tracker) (ops : List Op) (k : Ticket) (for_free : Bool) (status : ℤ)
    → k ≤ t.diagnostic.accepted
    → count_slots (has_ticket k) t.slots ≡ 0
    → let u = run t ops in
      (count_slots (has_ticket k) u.slots ≡ 0)
      × (complete u k for_free status ≡ fail u contract_error)
      × (post_returned u k status ≡ fail u contract_error)
unfolding complete post_returned
stale_ticket t ops k for_free status h e =
    let gone = held-run k t ops h e in
    let miss = absent (run t ops) k gone in
    (gone, rw (miss, complete_at), rw (miss, post_returned_at))
