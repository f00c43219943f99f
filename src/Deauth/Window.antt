-- ===== src/Deauth/Window.antt =====
-- Which tickets wait, run and have completed: the invariant of the queue.
use hisi_rf_ws.Common.{
  ℕ, suc, ◌+◌, ◌-◌, ◌%◌, ◌≤◌, ◌<◌, ◌≡◌, ◌⊎◌, inl, inr, refl, sym, ap, ◌∙◌, Option, none, some, not,
  arith, bit, is_none, length, length-set, get_or, set, get_or-set_same, get_or-set_other,
  wrap_next, wrap_apart, checked_inc64, ℤ,
}
use native.Mathlib.Decide.{dec_lt}
use hisi_rf_ws.Deauth.Errors.{Error}
use hisi_rf_ws.Deauth.{Request, Completion, Queue, new, reject, keep_failure, reject_with}

abbrev pub busy : Queue → ℕ
busy q = bit (not (is_none q.running))

-- How many tickets have completed.
abbrev pub completed : Queue → ℕ
completed q = q.issued - q.len - busy q

abbrev pub Waits : Queue → ℕ → Type 0
Waits q k =
    (r : Request) × (get_or q.requests ((q.head + k) % 4) none ≡ some r)
    × (r.ticket ≡ q.issued - q.len + suc k)

abbrev pub Logged : Queue → ℕ → Type 0
Logged q j = (c : Completion) × (get_or q.history (j % 8) none ≡ some c) × (c.id ≡ suc j)

-- The tickets are 1 to `issued`. The last `len` of them wait in the ring in order, the one before
-- them is the running one if there is one, and the last eight of the others stand in the history.
pub record IsValid (q : Queue) : Type 0 where
  pub room : length q.requests ≡ 4
  pub log_room : length q.history ≡ 8
  pub head_fits : q.head < 4
  pub len_fits : q.len ≤ 4
  pub count : q.len + busy q ≤ q.issued
  pub current : (q.running ≡ none) ⊎ (q.running ≡ some (q.issued - q.len))
  pub waiting : (k : ℕ) → k < q.len → Waits q k
  pub next : q.history_next ≡ completed q % 8
  pub logged : (j : ℕ) → j < completed q → completed q ≤ j + 8 → Logged q j

pub new-IsValid : IsValid new
unfolding new
new-IsValid = record {
  room = refl;
  log_room = refl;
  head_fits = omega arith;
  len_fits = omega arith;
  count = omega arith;
  current = inl refl;
  waiting = λ k p. absurd (omega arith);
  next = refl;
  logged = λ j p h. absurd (omega arith);
}

pub set_fault-IsValid :
    (q : Queue) (f : Option Error) → IsValid q → IsValid (record q { fault = f })
set_fault-IsValid q f v = record {
  room = v.room;
  log_room = v.log_room;
  head_fits = v.head_fits;
  len_fits = v.len_fits;
  count = v.count;
  current = v.current;
  waiting = v.waiting;
  next = v.next;
  logged = v.logged;
}

pub set_rejected-IsValid : (q : Queue) (n : ℕ) → IsValid q → IsValid (record q { rejected = n })
set_rejected-IsValid q n v = record {
  room = v.room;
  log_room = v.log_room;
  head_fits = v.head_fits;
  len_fits = v.len_fits;
  count = v.count;
  current = v.current;
  waiting = v.waiting;
  next = v.next;
  logged = v.logged;
}

pub reject-IsValid : (q : Queue) (e : Error) → IsValid q → IsValid ((reject q e).0)
unfolding reject
reject-IsValid q e v = elim (checked_inc64 q.rejected) as (λ c. IsValid ((reject_with q e c).0)) [
  | none ↦ set_fault-IsValid q (some Error.exhausted) v
  | some n ↦ set_rejected-IsValid q n v
]

-- The state after an accepted push.
abbrev pub pushed : Queue → Request → Queue
pushed q r = record q {
  requests = set q.requests ((q.head + q.len) % 4) (some r);
  len = q.len + 1;
  issued = q.issued + 1;
}

pub pushed-IsValid :
    (q : Queue) (r : Request)
    → IsValid q
    → q.len < 4
    → r.ticket ≡ q.issued + 1
    → IsValid (pushed q r)
pushed-IsValid q r v space stamp = record {
  room = length-set q.requests ((q.head + q.len) % 4) (some r) ∙ v.room;
  log_room = v.log_room;
  head_fits = v.head_fits;
  len_fits = omega arith;
  count = omega (arith, v.count);
  current = elim (v.current) [ inl e ↦ inl e | inr e ↦ inr (e ∙ ap some (omega (arith, v.count))) ];
  waiting = λ k p. elim (dec_lt k q.len) [
    | yes h ↦
        let (s, at, e) = v.waiting k h in
        (
          s,
          get_or-set_other q.requests ((q.head + q.len) % 4) ((q.head + k) % 4) (some r) none
                (wrap_apart 4 q.head k q.len v.head_fits h space)
              ∙ at,
          omega (arith, e, v.count),
        )
    | no h ↦
        let same : k ≡ q.len = omega arith in
        (
          r,
          ap (λ i. get_or (set q.requests ((q.head + q.len) % 4) (some r)) ((q.head + i) % 4) none)
                same
              ∙ get_or-set_same q.requests ((q.head + q.len) % 4) (some r) none
                  (omega (arith, v.room)),
          omega (arith, stamp, v.count),
        )
  ];
  next = v.next ∙ ap (λ n. n % 8) (omega (arith, v.count));
  logged = λ j p h. v.logged j (omega (arith, v.count)) (omega (arith, v.count));
}

-- The state after a request was taken.
abbrev pub popped : Queue → Request → Queue
popped q r = record q {
  requests = set q.requests q.head none;
  head = (q.head + 1) % 4;
  len = q.len - 1;
  running = some r.ticket;
}

pub popped-IsValid :
    (q : Queue) (r : Request)
    → IsValid q
    → q.running ≡ none
    → 0 < q.len
    → r.ticket ≡ q.issued - q.len + 1
    → IsValid (popped q r)
popped-IsValid q r v idle some_wait stamp =
    let rest : busy q ≡ 0 = ap (λ o. bit (not (is_none o))) idle in
    record {
      room = length-set q.requests q.head none ∙ v.room;
      log_room = v.log_room;
      head_fits = omega arith;
      len_fits = omega (arith, v.len_fits);
      count = omega (arith, v.count);
      current = inr (ap some (omega (arith, v.count)));
      waiting = λ k p.
          let (s, at, e) = v.waiting (suc k) (omega arith) in
          let here : (q.head + 0) % 4 ≡ q.head = omega (arith, v.head_fits) in
          let place = wrap_next 4 q.head k v.head_fits (omega (arith, v.len_fits)) in
          (
            s,
            ap (λ i. get_or (set q.requests q.head none) i none) place
                ∙ get_or-set_other q.requests q.head ((q.head + suc k) % 4) none none (λ x.
                  wrap_apart 4 q.head 0 (suc k) v.head_fits (omega arith)
                    (omega (arith, v.len_fits)) (sym (here ∙ x)))
                ∙ at,
            omega (arith, e, v.count),
          );
      next = v.next ∙ ap (λ n. n % 8) (omega (arith, v.count, rest));
      logged = λ j p h. v.logged j (omega (arith, v.count, rest)) (omega (arith, v.count, rest));
    }

-- The state after a completion.
abbrev pub settled : Queue → ℤ → Queue
settled q code = record q {
  history = set q.history q.history_next (some (record { id = q.issued - q.len; code = code }));
  history_next = (q.history_next + 1) % 8;
  running = none;
  native_failure = keep_failure q.native_failure code;
}

pub settled-IsValid :
    (q : Queue) (code : ℤ)
    → IsValid q
    → q.running ≡ some (q.issued - q.len)
    → IsValid (settled q code)
settled-IsValid q code v on =
    let one : busy q ≡ 1 = ap (λ o. bit (not (is_none o))) on in
    let c : Completion = record { id = q.issued - q.len; code = code } in
    record {
      room = v.room;
      log_room = length-set q.history q.history_next (some c) ∙ v.log_room;
      head_fits = v.head_fits;
      len_fits = v.len_fits;
      count = omega (arith, v.count);
      current = inl refl;
      waiting = v.waiting;
      next = omega (arith, v.next, v.count, one);
      logged = λ j p h. elim (dec_lt j (completed q)) [
        | yes lt ↦
            let (d, at, e) = v.logged j lt (omega (arith, one, v.count)) in
            (
              d,
              get_or-set_other q.history q.history_next (j % 8) (some c) none
                    (λ x. omega (arith, x, v.next, v.count, one, lt))
                  ∙ at,
              e,
            )
        | no ge ↦
            let same : j % 8 ≡ q.history_next = omega (arith, v.next, v.count, one) in
            (
              c,
              ap (λ i. get_or (set q.history q.history_next (some c)) i none) same
                  ∙ get_or-set_same q.history q.history_next (some c) none
                      (omega (arith, v.next, v.log_room)),
              omega (arith, v.count, one),
            )
      ];
    }
