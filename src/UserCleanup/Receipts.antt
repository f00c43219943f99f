-- ===== src/UserCleanup/Receipts.antt =====
-- What a zero status of `finish` certifies.
use mathlib.Core.List.{Memᴰ}
use hisi_rf_ws.Common.{
  ℕ, ◌+◌, ◌≤◌, ◌<◌, ◌≡◌, ◌≢◌, ◌⊎◌, ◌↔◌, inl, inr, refl, sym, ◌∙◌, List, [], ◌∷◌, Option, none, some,
  Bool, true, false, arith, ◌==◌, ◌&&◌, find_slot, free_slot, count_slots, count_slots-set,
  Option-cases, find_slot-some, free_slot-some, count_slots_pos, count_slots_mono,
}
use hisi_rf_ws.UserCleanup.{
  Active, Free, Tracker, Ticket, Op, has_user, has_ticket, begin, begin_free_at, begin_free,
  finish_free_at, finish_free, finish_at, finish, find_ticket, checked_status, handshake_status,
  step, run,
}
use hisi_rf_ws.UserCleanup.Invariant.{IsValid, Found, found}

-- A deletion is certified exactly when no fault was recorded before, the native delete returned
-- 0, its ticket is active, and the free under that ticket returned 0.
pub finish_zero :
    (t : Tracker) (ticket : Option Ticket) (outer : ℕ)
    → ((finish t ticket outer).1 ≡ 0) ↔ (
        (t.diagnostic.fault ≡ 0)
        × (outer ≡ 0)
        × ((i : ℕ) × (a : Active) × (find_ticket t ticket ≡ some (i, a))
            × (a.free ≡ Free.returned 0)))
unfolding finish
finish_zero t ticket outer = (to, from)
  where
    to :
        (finish t ticket outer).1 ≡ 0
        → (t.diagnostic.fault ≡ 0)
          × (outer ≡ 0)
          × ((i : ℕ) × (a : Active) × (find_ticket t ticket ≡ some (i, a))
              × (a.free ≡ Free.returned 0))
    to h = elim (Option-cases (find_ticket t ticket)) [
      | inl e ↦ ground arith
      | inr r ↦ (ground arith, ground arith, (r.0.0, r.0.1, ground arith, ground arith))
    ]

    from :
        (t.diagnostic.fault ≡ 0)
          × (outer ≡ 0)
          × ((i : ℕ) × (a : Active) × (find_ticket t ticket ≡ some (i, a))
              × (a.free ≡ Free.returned 0))
        → (finish t ticket outer).1 ≡ 0
    from (quiet, clean, (i, a, e, z)) = ground arith

fault-step :
    (t : Tracker) (op : Op)
    → t.diagnostic.fault ≢ 0
    → (step t op).diagnostic.fault ≡ t.diagnostic.fault
unfolding step begin begin_free finish_free finish
fault-step t (Op.begin_op user) h = ground arith
fault-step t (Op.begin_free_op user) h = ground arith
fault-step t (Op.finish_free_op k status) h = ground arith
fault-step t (Op.finish_op ticket outer) h = ground arith

fault-run :
    (t : Tracker) (ops : List Op)
    → t.diagnostic.fault ≢ 0
    → (run t ops).diagnostic.fault ≡ t.diagnostic.fault
unfolding run
fault-run t [] h = refl
fault-run t (op ∷ ops) h = ground (arith, fault-step t op, fault-run (step t op) ops)

-- Once a fault is recorded, then whatever critical sections follow, it stays the recorded fault,
-- no deletion is certified, a status of 0 is replaced by the fault where it is checked again, and
-- the handshake is refused with it.
pub cleanup_fault_latches :
    (t : Tracker) (ops : List Op) (ticket : Option Ticket) (outer : ℕ)
    → t.diagnostic.fault ≢ 0
    → let u = run t ops in
      ((finish u ticket outer).1 ≢ 0)
      × (checked_status u 0 ≡ t.diagnostic.fault)
      × (handshake_status u ≡ t.diagnostic.fault)
unfolding checked_status handshake_status
cleanup_fault_latches t ops ticket outer h =
    let same = fault-run t ops h in
    (λ z. h (sym same ∙ ((finish_zero (run t ops) ticket outer).0 z).0), ground arith, ground arith)

abbrev is_clean : Free → Bool
is_clean (Free.returned status) = status == 0
is_clean _ = false

-- The entry is under ticket `k`, and its free has returned 0.
abbrev freed_clean : Ticket → Active → Bool
freed_clean k a = (a.ticket == k) && is_clean a.free

abbrev receipts : Ticket → Tracker → ℕ
receipts k t = count_slots (freed_clean k) t.slots

module _ (k : Ticket) (t : Tracker) where
  receipts-begin : (user : ℕ) → receipts k (begin t user).0 ≤ receipts k t
  unfolding begin
  receipts-begin user = elim (Option-cases (free_slot t.slots)) [
    | inl e ↦ ground arith
    | inr r ↦ ground (
      arith,
      r.1,
      count_slots-set (freed_clean k) t.slots r.0 none
          (some (record { ticket = t.issued + 1; user = user; free = Free.not_seen }))
          (free_slot-some t.slots r.1),
    )
  ]

  receipts-begin_free_at :
      (p : Active → Bool) (r : Option (ℕ × Active))
      → Found t p r
      → receipts k (begin_free_at t r).0 ≤ receipts k t
  unfolding begin_free_at
  receipts-begin_free_at p none f = ground arith
  receipts-begin_free_at p (some (i, a)) f = ground (
    arith,
    count_slots-set (freed_clean k) t.slots i (some a) (some (record a { free = Free.running }))
        f.0,
    count_slots-set (freed_clean k) t.slots i (some a) (some (record a { free = Free.invalid }))
        f.0,
  )

  receipts-finish_free_at :
      (j : Ticket) (status : ℕ) (r : Option (ℕ × Active))
      → Found t (has_ticket j) r
      → (receipts k (finish_free_at t status r) ≤ receipts k t) ⊎ ((j ≡ k) × (status ≡ 0))
  unfolding finish_free_at
  receipts-finish_free_at j status none f = ground arith
  receipts-finish_free_at j status (some (i, a)) f = ground (
    arith,
    count_slots-set (freed_clean k) t.slots i (some a)
        (some (record a { free = Free.returned status })) f.0,
    count_slots-set (freed_clean k) t.slots i (some a) (some (record a { free = Free.invalid }))
        f.0,
  )

  receipts-finish_at :
      (outer : ℕ) (p : Active → Bool) (r : Option (ℕ × Active))
      → Found t p r
      → receipts k (finish_at t outer r).0 ≤ receipts k t
  unfolding finish_at
  receipts-finish_at outer p none f = ground arith
  receipts-finish_at outer p (some (i, a)) f =
      ground (arith, count_slots-set (freed_clean k) t.slots i (some a) none f.0)

  receipts-finish :
      (ticket : Option Ticket) (outer : ℕ) → receipts k (finish t ticket outer).0 ≤ receipts k t
  unfolding finish
  receipts-finish none outer = receipts-finish_at outer (λ a. true) none tt
  receipts-finish (some j) outer =
      receipts-finish_at outer (has_ticket j) (find_slot (has_ticket j) t.slots)
        (found t (has_ticket j))

  receipts-step : (op : Op) → (receipts k (step t op) ≤ receipts k t) ⊎ (op ≡ Op.finish_free_op k 0)
  unfolding step begin_free finish_free
  receipts-step (Op.begin_op user) = inl (receipts-begin user)
  receipts-step (Op.begin_free_op user) = inl (
      receipts-begin_free_at (has_user user) (find_slot (has_user user) t.slots)
        (found t (has_user user)))
  receipts-step (Op.finish_free_op j status) =
      elim (receipts-finish_free_at j status (find_slot (has_ticket j) t.slots)
        (found t (has_ticket j))) [ inl h ↦ inl h | inr e ↦ inr (cc (e.0, e.1)) ]
  receipts-step (Op.finish_op ticket outer) = inl (receipts-finish ticket outer)

receipts-run :
    (k : Ticket) (t : Tracker) (ops : List Op)
    → receipts k t ≡ 0
    → 0 < receipts k (run t ops)
    → Memᴰ (Op.finish_free_op k 0) ops
unfolding run
receipts-run k t [] e h = absurd (omega arith)
receipts-run k t (op ∷ ops) e h = elim (receipts-step k t op) [
  | inl less ↦ Memᴰ.tail (receipts-run k (step t op) ops (omega arith) h)
  | inr same ↦ Memᴰ.head (sym same)
]

begun-receipts :
    {t : Tracker} (user : ℕ) {k : Ticket}
    → IsValid t
    → (begin t user).1 ≡ some k
    → receipts k (begin t user).0 ≡ 0
unfolding begin
begun-receipts {t} user {k} v h =
    let e : k ≡ t.issued + 1 = ground arith in
    omega (
      arith,
      receipts-begin k t user,
      count_slots_mono (freed_clean k) (has_ticket k) t.slots (λ a q. ground arith),
      v.table.ticket_issued k (omega (arith, e)),
    )

-- If `begin` gives a deletion ticket `k` on a valid tracker, and after any sequence of critical
-- sections `finish` under that ticket returns 0, then the native delete returned 0 and a native
-- free completed under that very ticket with status 0.
pub certified_deletion :
    {t : Tracker} (user : ℕ) (k : Ticket) (ops : List Op) (outer : ℕ)
    → IsValid t
    → (begin t user).1 ≡ some k
    → (finish (run (begin t user).0 ops) (some k) outer).1 ≡ 0
    → (outer ≡ 0) × Memᴰ (Op.finish_free_op k 0) ops
certified_deletion {t} user k ops outer v h z =
    let u = run (begin t user).0 ops in
    let (_, clean, (i, a, e, f)) = (finish_zero u (some k) outer).0 z in
    let (at, mine) = find_slot-some (has_ticket k) u.slots e in
    (
      clean,
      receipts-run k (begin t user).0 ops (begun-receipts user v h)
          (count_slots_pos (freed_clean k) u.slots i a at (ground (arith, mine, f))),
    )
