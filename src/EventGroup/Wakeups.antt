-- ===== src/EventGroup/Wakeups.antt =====
-- No wakeup is lost: a registered reader whose condition holds has been woken.
use Prim.Native.Nat.{bit_and}
use mathlib.Core.List.{Memᴰ}
use hisi_rf_ws.Common.{
  ℕ, zero, suc, ◌≡◌, ◌≢◌, ◌⊎◌, inl, inr, refl, sym, ◌∙◌, ap, subst, List, [], ◌∷◌, ◌++◌, Option,
  none, some, false, ◌==◌, not, arith, get_elem?, Bool-cases, Option-cases, saturating_inc32,
  bit_and-le_left, bit_and-le_right, bit_and-right_comm, if◌then◌else◌,
}
use hisi_rf_ws.EventGroup.{
  EventGroup, EventWaiter, event_matches, matched_event, poll_event, read_section, register_section,
  unregister_waiter, woken, write_section, osal_event_clear, complement,
}

-- A group with the semaphores that were raised since their readers registered.
pub record System : Type 0 where
  pub group : EventGroup
  pub raised : List ℕ

abbrev pub At : EventGroup → ℕ → EventWaiter → Type 0
At e i w = get_elem? e.waiters i ≡ some w

abbrev pub remove : ℕ → List ℕ → List ℕ
remove y [] = []
remove y (x ∷ xs) = if x == y then remove y xs else x ∷ remove y xs

pub data Move : System → System → Type 0 where
  read :
      (s : System) (mask mode : ℕ)
      → Move s (record s { group = (read_section s.group mask mode).0 })
  -- the semaphore is new, and so differs from the registered ones
  register :
      (s : System) (semaphore mask mode : ℕ)
      → semaphore ≢ 0
      → ((i : ℕ) (w : EventWaiter) → At s.group i w → w.semaphore ≢ semaphore)
      → Move s (record s { group = (register_section s.group semaphore mask mode).0 })
  write :
      (s : System) (mask : ℕ)
      → Move s (record {
        group = (write_section s.group mask).0;
        raised = (write_section s.group mask).1 ++ s.raised;
      })
  clear : (s : System) (mask : ℕ) → Move s (record s { group = osal_event_clear s.group mask })
  unregister :
      (s : System) (semaphore : ℕ)
      → semaphore ≢ 0
      → Move s (record {
        group = unregister_waiter s.group semaphore;
        raised = remove semaphore s.raised;
      })

pub data Reaches : System → System → Type 0 where
  here : (s : System) → Reaches s s
  later : (s t u : System) → Move s t → Reaches t u → Reaches s u

abbrev pub Unmet : ℕ → EventWaiter → Type 0
Unmet bits w = event_matches bits w.mask w.mode ≡ none

pub record IsCovered (s : System) : Type 0 where
  pub covered :
      (i : ℕ) (w : EventWaiter)
      → At s.group i w
      → w.semaphore ≢ 0
      → Unmet s.group.bits w ⊎ Memᴰ w.semaphore s.raised
  pub unique :
      (i j : ℕ) (v w : EventWaiter)
      → At s.group i v
      → At s.group j w
      → v.semaphore ≢ 0
      → v.semaphore ≡ w.semaphore
      → i ≡ j

-- A condition that does not hold does not come to hold by clearing bits.
pub Unmet-fewer : (bits k : ℕ) (w : EventWaiter) → Unmet bits w → Unmet (bit_and bits k) w
unfolding event_matches
Unmet-fewer bits k w h =
    let m = bit_and bits w.mask in
    let same = bit_and-right_comm bits k w.mask in
    let low = bit_and-le_left m k in
    let high = bit_and-le_right bits w.mask in ground (arith, h, same, low, high)

-- The groups differ in counters, and the second has no bits that the first has not.
pub record IsFewer (e f : EventGroup) : Type 0 where
  pub waiters : f.waiters ≡ e.waiters
  pub bits : (f.bits ≡ e.bits) ⊎ ((k : ℕ) × (f.bits ≡ bit_and e.bits k))

Unmet-IsFewer :
    (e f : EventGroup) → IsFewer e f → (w : EventWaiter) → Unmet e.bits w → Unmet f.bits w
Unmet-IsFewer e f h w u = elim (h.bits) [
  | inl same ↦ subst (λ b. Unmet b w) (sym same) u
  | inr l ↦ subst (λ b. Unmet b w) (sym l.1) (Unmet-fewer e.bits l.0 w u)
]

pub IsCovered-IsFewer :
    (s : System) (f : EventGroup)
    → IsFewer s.group f
    → IsCovered s
    → IsCovered (record s { group = f })
IsCovered-IsFewer s f h c = record {
  covered = λ i w at live.
      elim (c.covered i w (ap (λ ws. get_elem? ws i) (sym h.waiters) ∙ at) live) [
        | inl u ↦ inl (Unmet-IsFewer s.group f h w u)
        | inr m ↦ inr m
      ];
  unique = λ i j v w at there live same.
      c.unique i j v w (ap (λ ws. get_elem? ws i) (sym h.waiters) ∙ at)
        (ap (λ ws. get_elem? ws j) (sym h.waiters) ∙ there) live same;
}

pub matched_event-IsFewer :
    (e : EventGroup) (mask mode : ℕ) (o : Option ℕ) → IsFewer e ((matched_event e mask mode o).0)
matched_event-IsFewer e mask mode none = record { waiters = refl; bits = inl refl }
matched_event-IsFewer e mask mode (some m) = record {
  waiters = refl;
  bits = elim (Bool-cases (not (bit_and mode 1 == 0))) [
    | inl y ↦ inr (complement m, ap (λ b. if b then bit_and e.bits (complement m) else e.bits) y)
    | inr n ↦ inl (ap (λ b. if b then bit_and e.bits (complement m) else e.bits) n)
  ];
}

pub read-IsFewer : (e : EventGroup) (mask mode : ℕ) → IsFewer e ((read_section e mask mode).0)
unfolding read_section poll_event
read-IsFewer e mask mode =
    let h =
      matched_event-IsFewer
        (record e { reads = saturating_inc32 e.reads; last_read_mask = mask; last_mode = mode })
        mask mode (event_matches e.bits mask mode) in
    record { waiters = h.waiters; bits = h.bits }

woken_here :
    (bits : ℕ) (x w : EventWaiter) (ws : List EventWaiter) (m : ℕ)
    → x ≡ w
    → w.semaphore ≢ 0
    → event_matches bits w.mask w.mode ≡ some m
    → woken bits (x ∷ ws) ≡ w.semaphore ∷ woken bits ws
unfolding woken
woken_here bits x w ws m same live met = rw same (ground (arith, live, met))

woken_skip :
    (bits : ℕ) (x : EventWaiter) (ws : List EventWaiter)
    → not (x.semaphore == 0) ≡ false
    → woken bits (x ∷ ws) ≡ woken bits ws
unfolding woken
woken_skip bits x ws n = ground (arith, n)

woken_unmet :
    (bits : ℕ) (x : EventWaiter) (ws : List EventWaiter)
    → event_matches bits x.mask x.mode ≡ none
    → woken bits (x ∷ ws) ≡ woken bits ws
unfolding woken
woken_unmet bits x ws n = ground (arith, n)

woken_more :
    (bits : ℕ) (x : EventWaiter) (ws : List EventWaiter) (p : ℕ)
    → Memᴰ p (woken bits ws)
    → Memᴰ p (woken bits (x ∷ ws))
unfolding woken
woken_more bits x ws p m = elim (Bool-cases (not (x.semaphore == 0))) [
  | inr n ↦ subst (Memᴰ p) (sym (woken_skip bits x ws n)) m
  | inl y ↦ elim (Option-cases (event_matches bits x.mask x.mode)) [
    | inl n ↦ subst (Memᴰ p) (sym (woken_unmet bits x ws n)) m
    | inr f ↦
        subst (Memᴰ p)
          (sym (woken_here bits x x ws f.0 refl (λ z. absurd (ground (arith, y, z))) f.1))
          (Memᴰ.tail m)
  ]
]

-- A write wakes every registered reader whose condition holds.
pub woken_lem :
    (bits : ℕ) (ws : List EventWaiter) (i : ℕ) (w : EventWaiter)
    → get_elem? ws i ≡ some w
    → w.semaphore ≢ 0
    → Unmet bits w ⊎ Memᴰ w.semaphore (woken bits ws)
unfolding woken
woken_lem bits [] i w at live = absurd (ground (arith, at))
woken_lem bits (x ∷ ws) zero w at live = elim (Option-cases (event_matches bits w.mask w.mode)) [
  | inl n ↦ inl n
  | inr f ↦
      let same : x ≡ w = ground (arith, at) in
      inr
        (subst (Memᴰ w.semaphore) (sym (woken_here bits x w ws f.0 same live f.1)) (Memᴰ.head refl))
]
woken_lem bits (x ∷ ws) (suc i) w at live = elim (woken_lem bits ws i w at live) [
  | inl u ↦ inl u
  | inr m ↦ inr (woken_more bits x ws w.semaphore m)
]
