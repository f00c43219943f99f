-- ===== src/Deauth/Receipts.antt =====
-- What `poll` certifies of a receipt, and when it can answer.
use native.Mathlib.Decide.{dec_lt}
use hisi_rf_ws.Common.{
  ℕ, zero, suc, ◌+◌, ◌-◌, ◌%◌, ◌≤◌, ◌<◌, ◌≡◌, ◌≢◌, inl, inr, refl, sym, ap, ◌∙◌, List, [], ◌∷◌,
  Option, none, some, Bool, true, false, not, arith, is_none, get_or, err, Bool-cases, Option-cases,
  ==_self, get_elem?, find_slot, find_slot-none, count_slots_pos, any_slot, ◌||◌, bit,
}
use hisi_rf_ws.Deauth.Errors.{Error}
use hisi_rf_ws.Deauth.{
  Ticket, Completion, Queue, Receipt, health, poll, poll_tickets, ticket_state, has_id, has_ticket,
  is_ticket,
}
use hisi_rf_ws.Deauth.Window.{IsValid, completed, busy, Logged, Waits}

pub get_elem?-some {ℓ} :
    {A : Type ℓ} (xs : List (Option A)) (i : ℕ) (a : A)
    → get_or xs i none ≡ some a
    → get_elem? xs i ≡ some (some a)
get_elem?-some [] i a h = ground (arith, h)
get_elem?-some (x ∷ xs) zero a h = ap some h
get_elem?-some (x ∷ xs) (suc i) a h = get_elem?-some xs i a h

any_slot_at {ℓ} :
    {A : Type ℓ} (p : A → Bool) (xs : List (Option A)) (i : ℕ) (a : A)
    → get_or xs i none ≡ some a
    → p a ≡ true
    → any_slot p xs ≡ true
unfolding any_slot
any_slot_at p [] i a h e = ground (arith, h)
any_slot_at p (x ∷ xs) zero a h e = rw h (rw e refl)
any_slot_at p (x ∷ xs) (suc i) a h e = ground (arith, any_slot_at p xs i a h e)

abbrev pub found : Queue → Ticket → Option (ℕ × Completion)
found q ticket = find_slot (has_id ticket) q.history

-- A completed ticket among the last eight is found.
pub Logged-found :
    (q : Queue) (j : ℕ) → Logged q j → (p : ℕ × Completion) × (found q (suc j) ≡ some p)
Logged-found q j (c, at, e) = elim (Option-cases (found q (suc j))) [
  | inr h ↦ h
  | inl h ↦
      let here =
        count_slots_pos (has_id (suc j)) q.history (j % 8) c (get_elem?-some q.history (j % 8) c at)
          (rw e (==_self (suc j))) in
      absurd (omega (arith, here, find_slot-none (has_id (suc j)) q.history h))
]

-- The two places where a ticket that has not completed stands.
abbrev outstanding : Queue → Ticket → Bool
outstanding q ticket = is_ticket q.running ticket || any_slot (has_ticket ticket) q.requests

running-outstanding : (q : Queue) (j : ℕ) → q.running ≡ some (suc j) → outstanding q (suc j) ≡ true
running-outstanding q j on = ground (arith, on, ==_self (suc j))

waiting-outstanding :
    (q : Queue) (j k : ℕ)
    → Waits q k
    → suc j ≡ q.issued - q.len + suc k
    → outstanding q (suc j) ≡ true
waiting-outstanding q j k (r, at, e) same =
    let here =
      any_slot_at (has_ticket (suc j)) q.requests ((q.head + k) % 4) r at
        (rw (e ∙ sym same) (==_self (suc j))) in
    ground (arith, here, Bool-cases (is_ticket q.running (suc j)))

-- A ticket that was issued and is not among those overwritten is accounted for.
accounted :
    (q : Queue) (j : ℕ)
    → IsValid q
    → j < q.issued
    → completed q ≤ j + 8
    → ticket_state q (suc j) (found q (suc j)) ≢ none
accounted q j v issued kept = elim (dec_lt j (completed q)) [
  | yes done ↦ let (p, e) = Logged-found q j (v.logged j done kept) in λ x. ground (arith, x, e)
  | no left ↦
      let out : outstanding q (suc j) ≡ true = elim (dec_lt j (q.issued - q.len)) [
        | yes h ↦ elim (v.current) [
          | inl idle ↦
              let rest : busy q ≡ 0 = ap (λ o. bit (not (is_none o))) idle in
              absurd (omega (arith, rest))
          | inr on ↦
              let one : busy q ≡ 1 = ap (λ o. bit (not (is_none o))) on in
              running-outstanding q j (on ∙ ap some (omega (arith, one)))
        ]
        | no h ↦
            waiting-outstanding q j (j - (q.issued - q.len))
              (v.waiting (j - (q.issued - q.len)) (omega (arith, v.count))) (omega (arith, v.count))
      ] in
      λ x. elim (Option-cases (found q (suc j))) [
        | inl e ↦ ground (arith, x, e, out)
        | inr h ↦ ground (arith, x, h)
      ]
]

tickets_kept :
    (q : Queue) (n j : ℕ) (waiting : Bool)
    → IsValid q
    → j + n ≤ q.issued
    → completed q ≤ j + 8
    → poll_tickets q n (suc j) waiting ≢ err Error.evidence_lost
unfolding poll_tickets
tickets_kept q zero j waiting v fits kept = λ x. ground (arith, x)
tickets_kept q (suc n) j waiting v fits kept =
    let here = accounted q j v (omega arith) kept in
    let rest = λ (w : Bool). tickets_kept q n (suc j) w v (omega arith) (omega arith) in
    λ x. ground (arith, x, here, rest true, rest waiting)

-- While no fault is recorded, a receipt over at most eight issued tickets is never answered with
-- lost evidence before more than eight tickets have completed since its beginning.
pub evidence_kept :
    (q : Queue) (r : Receipt)
    → IsValid q
    → q.fault ≡ none
    → r.before ≤ r.through
    → r.through ≤ q.issued
    → r.through - r.before ≤ 8
    → completed q ≤ r.before + 8
    → poll q r ≢ err Error.evidence_lost
unfolding poll health
evidence_kept q r v fine ordered issued short kept =
    let here = tickets_kept q (r.through - r.before) r.before false v (omega arith) kept in
    let same : r.before + 1 ≡ suc r.before = omega arith in
    λ x. here (rw (sym same) (ground (arith, x, fine)))
