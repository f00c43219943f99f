-- ===== src/UserCleanup/Invariant.antt =====
-- The invariant of the user-cleanup tracker, over every interleaving of its critical sections.
use hisi_rf_ws.Common.{
  ℕ, ◌+◌, ◌≤◌, ◌<◌, ◌≡◌, inl, inr, sym, ◌∙◌, List, [], ◌∷◌, Option, none, some, Bool, true, arith,
  ◌==◌, length, get_elem?, set, bit, find_slot, any_slot, free_slot, count_slots, count_slots-set,
  count_slots-clear, count_slots-le-length, Option-cases, Bool-cases, find_slot-some,
  free_slot-some, count_slots_of_any, length-set, length-replicate, u64_max,
}
use hisi_rf_ws.UserCleanup.{
  Active, Free, Tracker, Ticket, Op, slot_count, has_user, has_ticket, new, fail, begin, put_free,
  begin_free_at, begin_free, count_free, finish_free_at, finish_free, take_slot, publish, finish_at,
  finish, checked, contract_error, step, run,
}

abbrev pub anything : Active → Bool
anything a = true

-- At most one entry for each ticket and each user, and none for a ticket not yet issued.
pub record IsTable (slots : List (Option Active)) (issued : ℕ) : Type 0 where
  pub size : length slots ≡ slot_count
  pub ticket_once : (k : ℕ) → count_slots (has_ticket k) slots ≤ 1
  pub ticket_issued : (k : ℕ) → issued < k → count_slots (has_ticket k) slots ≡ 0
  pub user_once : (u : ℕ) → count_slots (has_user u) slots ≤ 1

pub record IsValid (t : Tracker) : Type 0 where
  pub table : IsTable t.slots t.issued
  pub issued_fits : t.issued ≤ u64_max
  pub entered_exact : t.diagnostic.entered ≡ t.issued
  pub conserved : t.diagnostic.entered ≡ t.diagnostic.completed + t.diagnostic.active
  pub active_exact : t.diagnostic.active ≡ count_slots anything t.slots

-- A new tracker is valid.
pub new-IsValid : IsValid new
unfolding new
new-IsValid = record {
  table = record {
    size = length-replicate {A = Option Active} slot_count none;
    ticket_once = λ k. omega (arith, count_slots-clear (has_ticket k) slot_count);
    ticket_issued = λ k h. count_slots-clear (has_ticket k) slot_count;
    user_once = λ u. omega (arith, count_slots-clear (has_user u) slot_count);
  };
  issued_fits = omega arith;
  entered_exact = omega arith;
  conserved = omega arith;
  active_exact = sym (count_slots-clear anything slot_count);
}

fail-IsValid : {t : Tracker} (status : ℕ) → IsValid t → IsValid (fail t status)
unfolding fail
fail-IsValid status v = ground arith

module _ (slots : List (Option Active)) (i : ℕ) (n : ℕ) (v : IsTable slots n) where
  -- A new state of the free leaves ticket and user.
  put-IsTable :
      (a : Active) (free : Free)
      → get_elem? slots i ≡ some (some a)
      → IsTable (set slots i (some (record a { free = free }))) n
  put-IsTable a free at = record {
    size = length-set slots i (some b) ∙ v.size;
    ticket_once = λ k. omega (arith, law (has_ticket k), v.ticket_once k);
    ticket_issued = λ k h. omega (arith, law (has_ticket k), v.ticket_issued k h);
    user_once = λ u. omega (arith, law (has_user u), v.user_once u);
  }
    where
      b : Active
      b = record a { free = free }

      law :
          (p : Active → Bool)
          → count_slots p (set slots i (some b)) + bit (p a) ≡ count_slots p slots + bit (p b)
      law p = count_slots-set p slots i (some a) (some b) at

  clear-IsTable : (a : Active) → get_elem? slots i ≡ some (some a) → IsTable (set slots i none) n
  clear-IsTable a at = record {
    size = length-set slots i none ∙ v.size;
    ticket_once = λ k. omega (arith, law (has_ticket k), v.ticket_once k);
    ticket_issued = λ k h. omega (arith, law (has_ticket k), v.ticket_issued k h);
    user_once = λ u. omega (arith, law (has_user u), v.user_once u);
  }
    where
      law :
          (p : Active → Bool)
          → count_slots p (set slots i none) + bit (p a) ≡ count_slots p slots + 0
      law p = count_slots-set p slots i (some a) none at

  fill-IsTable :
      (user : ℕ)
      → get_elem? slots i ≡ some none
      → count_slots (has_user user) slots ≡ 0
      → IsTable
          (set slots i (some (record { ticket = n + 1; user = user; free = Free.not_seen })))
          (n + 1)
  fill-IsTable user at alone = record {
    size = length-set slots i (some b) ∙ v.size;
    ticket_once = λ k. ground (arith, law (has_ticket k), v.ticket_once k, v.ticket_issued k);
    ticket_issued = λ k h. ground (arith, law (has_ticket k), v.ticket_issued k);
    user_once = λ u. elim (Bool-cases (user == u)) [
      | inl e ↦ ground (arith, law (has_user u), alone, e)
      | inr e ↦ ground (arith, law (has_user u), v.user_once u, e)
    ];
  }
    where
      b : Active
      b = record { ticket = n + 1; user = user; free = Free.not_seen }

      law :
          (p : Active → Bool)
          → count_slots p (set slots i (some b)) + 0 ≡ count_slots p slots + bit (p b)
      law p = count_slots-set p slots i none (some b) at

put_free-IsValid :
    {t : Tracker} (i : ℕ) (a : Active) (free : Free)
    → get_elem? t.slots i ≡ some (some a)
    → IsValid t
    → IsValid (put_free t i a free)
unfolding put_free
put_free-IsValid {t} i a free at v = ground (
  arith,
  put-IsTable t.slots i t.issued v.table a free at,
  count_slots-set anything t.slots i (some a) (some (record a { free = free })) at,
)

count_free-IsValid : {t : Tracker} → IsValid t → IsValid (count_free t)
unfolding count_free
count_free-IsValid v = ground arith

-- A lookup gives an entry that stands in the table.
abbrev pub Found : Tracker → (Active → Bool) → Option (ℕ × Active) → Type 0
Found t p none = Unit {0}
Found t p (some (i, a)) = (get_elem? t.slots i ≡ some (some a)) × (p a ≡ true)

pub found : (t : Tracker) (p : Active → Bool) → Found t p (find_slot p t.slots)
found t p = elim (Option-cases (find_slot p t.slots)) [
  | inl e ↦ rw e tt
  | inr r ↦ rw r.1 (find_slot-some p t.slots r.1)
]

begin_free_at-IsValid :
    {t : Tracker} (p : Active → Bool) (r : Option (ℕ × Active))
    → Found t p r
    → IsValid t
    → IsValid (begin_free_at t r).0
unfolding begin_free_at fail
begin_free_at-IsValid p none f v = ground arith
begin_free_at-IsValid p (some (i, a)) f v = ground (
  arith,
  put_free-IsValid i a Free.running f.0 v,
  fail-IsValid contract_error (put_free-IsValid i a Free.invalid f.0 v),
)

finish_free_at-IsValid :
    {t : Tracker} (status : ℕ) (p : Active → Bool) (r : Option (ℕ × Active))
    → Found t p r
    → IsValid t
    → IsValid (finish_free_at t status r)
unfolding finish_free_at
finish_free_at-IsValid status p none f v = fail-IsValid contract_error v
finish_free_at-IsValid status p (some (i, a)) f v =
    let w = count_free-IsValid (put_free-IsValid i a (Free.returned status) f.0 v) in
    ground (
      arith,
      w,
      fail-IsValid status w,
      fail-IsValid contract_error (put_free-IsValid i a Free.invalid f.0 v),
    )

take_slot-IsValid :
    {t : Tracker} (outer i : ℕ) (a : Active)
    → get_elem? t.slots i ≡ some (some a)
    → IsValid t
    → IsValid (take_slot t outer i a)
unfolding take_slot
take_slot-IsValid {t} outer i a at v = ground (
  arith,
  clear-IsTable t.slots i t.issued v.table a at,
  count_slots-set anything t.slots i (some a) none at,
  count_slots-le-length anything t.slots,
  v.table.size,
)

publish-IsValid : {t : Tracker} → IsValid t → IsValid (publish t).0
unfolding publish
publish-IsValid v = ground arith

finish_at-IsValid :
    {t : Tracker} (outer : ℕ) (r : Option (ℕ × Active)) (p : Active → Bool)
    → Found t p r
    → IsValid t
    → IsValid (finish_at t outer r).0
unfolding finish_at
finish_at-IsValid outer none p f v = fail-IsValid contract_error v
finish_at-IsValid {t} outer (some (i, a)) p f v = elim (Bool-cases (checked outer a.free == 0)) [
  | inl e ↦ rw e (publish-IsValid (take_slot-IsValid outer i a f.0 v))
  | inr e ↦
      rw e
        (publish-IsValid (fail-IsValid (checked outer a.free) (take_slot-IsValid outer i a f.0 v)))
]

finish-IsValid :
    {t : Tracker} (ticket : Option Ticket) (outer : ℕ)
    → IsValid t
    → IsValid (finish t ticket outer).0
unfolding finish
finish-IsValid {t} none outer v = finish_at-IsValid outer none (λ a. true) tt v
finish-IsValid {t} (some k) outer v =
    finish_at-IsValid outer (find_slot (has_ticket k) t.slots) (has_ticket k)
      (found t (has_ticket k)) v

begin-IsValid : {t : Tracker} (user : ℕ) → IsValid t → IsValid (begin t user).0
unfolding begin
begin-IsValid {t} user v = elim (Bool-cases (any_slot (has_user user) t.slots)) [
  | inl e ↦ ground (arith, fail-IsValid contract_error v)
  | inr e ↦ elim (Option-cases (free_slot t.slots)) [
    | inl full ↦ ground (arith, fail-IsValid contract_error v)
    | inr r ↦ ground (
      arith,
      r.1,
      fail-IsValid contract_error v,
      fill-IsTable t.slots r.0 t.issued v.table user (free_slot-some t.slots r.1)
          (count_slots_of_any (has_user user) t.slots e),
      count_slots-set anything t.slots r.0 none
          (some (record { ticket = t.issued + 1; user = user; free = Free.not_seen }))
          (free_slot-some t.slots r.1),
      count_slots-le-length anything t.slots,
      v.table.size,
    )
  ]
]

-- Every critical section keeps the tracker valid.
pub step-IsValid : {t : Tracker} (op : Op) → IsValid t → IsValid (step t op)
unfolding step begin_free finish_free
step-IsValid (Op.begin_op user) v = begin-IsValid user v
step-IsValid {t} (Op.begin_free_op user) v =
    begin_free_at-IsValid (has_user user) (find_slot (has_user user) t.slots)
      (found t (has_user user)) v
step-IsValid {t} (Op.finish_free_op k status) v =
    finish_free_at-IsValid status (has_ticket k) (find_slot (has_ticket k) t.slots)
      (found t (has_ticket k)) v
step-IsValid (Op.finish_op ticket outer) v = finish-IsValid ticket outer v

pub run-IsValid : {t : Tracker} (ops : List Op) → IsValid t → IsValid (run t ops)
unfolding run
run-IsValid [] v = v
run-IsValid {t = t} (op ∷ ops) v = run-IsValid {t = step t op} ops (step-IsValid op v)

-- From a new tracker, after any sequence of critical sections: the deletions entered are those
-- issued a ticket, and each is completed or active; the active ones are the occupied slots, of
-- which there are at most four, no two with one ticket and no two with one user.
pub user_cleanup-IsValid : (ops : List Op) → IsValid (run new ops)
user_cleanup-IsValid ops = run-IsValid ops new-IsValid
