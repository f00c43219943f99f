-- ===== src/Timer/Lifecycle.antt =====
-- The operations keep each used slot with the timer whose handle names it.
use native.Mathlib.Decide.{ℕ_discrete}
use hisi_rf_ws.Common.{
  ℕ, zero, suc, ◌+◌, ◌≡◌, ◌≢◌, ◌⊎◌, inl, inr, refl, sym, ◌∙◌, ap, List, [], ◌∷◌, Option, none, some,
  Bool, true, false, ◌||◌, ◌==◌, not, arith, get_elem?, Bool-cases, Option-cases, is_none, ==_self,
  if◌then◌else◌, replicate,
}
use hisi_rf_ws.Timer.{
  Slot, World, OsalTimer, empty_slot, local_timer_init, store, alloc_slot, later_slot, update,
  assign, ensure_timer_worker, init_running, osal_timer_init, osal_adapt_timer_init, slot_of,
  slot_at, arm, mod_at, osal_timer_mod, stop_at, osal_timer_stop, destroy_at, osal_timer_destroy,
  collect,
}
use hisi_rf_ws.Timer.Owners.{
  Owned, Same-update, Same-Owned, Same-collect, get_elem?-update_self, get_elem?-update_ne,
}
use hisi_rf_ws.Timer.Firing.{Same-stop_at}

pub data Move : World → World → Type 0 where
  clear : (w : World) → Move w (local_timer_init w)
  init : (w : World) (p : ℕ) (spawned : Bool) → Move w ((osal_timer_init w p spawned).0)
  -- the adapter overwrites the handle, so the timer must own no slot
  adapt_init :
      (w : World) (p func argument interval : ℕ) (spawned : Bool)
      → ((i : ℕ) (s : Slot) → get_elem? w.slots i ≡ some s → s.used ≡ true → s.timer ≢ p)
      → Move w ((osal_adapt_timer_init w p func argument interval spawned).0)
  rearm : (w : World) (p interval now : ℕ) → Move w ((osal_timer_mod w p interval now).0)
  stop : (w : World) (p : ℕ) → Move w ((osal_timer_stop w p).0)
  destroy : (w : World) (p : ℕ) → Move w ((osal_timer_destroy w p).0)
  expire_due : (w : World) (now : ℕ) → Move w (record w { slots = (collect now w.slots).0 })

pub data Reaches : World → World → Type 0 where
  here : (w : World) → Reaches w w
  next : (u v w : World) → Move u v → Reaches v w → Reaches u w

later_none : (s : Slot) (p : List Slot × Option ℕ) → p.1 ≡ none → (later_slot s p).1 ≡ none
later_none s (rest, none) h = refl
later_none s (rest, some i) h = absurd (ground (arith, h))

pub assign-none : (w : World) (p : ℕ) (r : List Slot × Option ℕ) → r.1 ≡ none → (assign w p r).0 ≡ w
assign-none w p (slots, none) h = refl
assign-none w p (slots, some i) h = absurd (ground (arith, h))

abbrev choose : Slot → List Slot → Bool → List Slot × Option ℕ
choose s rest b =
    if b then later_slot s (alloc_slot rest) else (record empty_slot { used = true } ∷ rest, some 0)

-- A new slot is an unused one.
pub alloc_slot_lem :
    (slots : List Slot)
    → ((alloc_slot slots).1 ≡ none)
      ⊎ ((i : ℕ) × (alloc_slot slots
            ≡ (update slots i (λ s. record empty_slot { used = true }), some i)))
unfolding alloc_slot
alloc_slot_lem [] = inl refl
alloc_slot_lem (s ∷ rest) = elim (Bool-cases s.used) [
  | inr e ↦ inr (0, ap (choose s rest) e)
  | inl e ↦ elim (alloc_slot_lem rest) [
    | inl n ↦ inl (ap (λ b. (choose s rest b).1) e ∙ later_none s (alloc_slot rest) n)
    | inr f ↦ inr (suc f.0, ap (choose s rest) e ∙ ap (later_slot s) f.1)
  ]
]

store_self : (timers : ℕ → OsalTimer) (p : ℕ) (t : OsalTimer) → store timers p t p ≡ t
store_self timers p t = rw (==_self p) refl

store_other :
    (timers : ℕ → OsalTimer) (p q : ℕ) (t : OsalTimer) → q ≢ p → store timers p t q ≡ timers q
store_other timers p q t h = ground (arith, h)

store-handle :
    (timers : ℕ → OsalTimer) (p q : ℕ) (t : OsalTimer)
    → t.timer ≡ (timers p).timer
    → (store timers p t q).timer ≡ (timers q).timer
store-handle timers p q t e = elim (ℕ_discrete q p) [
  | yes same ↦
      ap (λ r. (store timers p t r).timer) same
      ∙ ap (λ (x : OsalTimer). x.timer) (store_self timers p t)
      ∙ e
      ∙ ap (λ r. (timers r).timer) (sym same)
  | no apart ↦ ap (λ (x : OsalTimer). x.timer) (store_other timers p q t apart)
]

-- A slot is given to the timer `p`, which had no handle.
assign-Owned :
    (w : World) (p i : ℕ)
    → (w.timers p).timer ≡ 0
    → Owned w
    → Owned ((assign w p (update w.slots i (λ s. record empty_slot { used = true }), some i)).0)
assign-Owned w p i fresh own j t at used =
    let new = update w.slots i (λ s. record empty_slot { used = true }) in
    let give = λ (s : Slot). record s { timer = p; interval = (w.timers p).interval } in
    let named : OsalTimer = record (w.timers p) { timer = i + 1 } in
    elim (ℕ_discrete i j) [
      | yes same ↦
          let (s, was, e) =
            get_elem?-update_self new i give t (ap (get_elem? (update new i give)) same ∙ at) in
          let mine : t.timer ≡ p = ap (λ (x : Slot). x.timer) e in
          ap (λ q. (store w.timers p named q).timer) mine
          ∙ ap (λ (x : OsalTimer). x.timer) (store_self w.timers p named)
          ∙ ap (λ n. n + 1) same
      | no apart ↦
          let old =
            sym (get_elem?-update_ne w.slots i j (λ s. record empty_slot { used = true }) apart)
            ∙ sym (get_elem?-update_ne new i j give apart)
            ∙ at in
          let h = own j t old used in
          let other : t.timer ≢ p = λ x. omega (arith, h, fresh, ap (λ q. (w.timers q).timer) x) in
          ap (λ (x : OsalTimer). x.timer) (store_other w.timers p t.timer named other) ∙ h
    ]

assigned-Owned :
    (w : World) (p : ℕ)
    → (w.timers p).timer ≡ 0
    → Owned w
    → Owned ((assign w p (alloc_slot w.slots)).0)
assigned-Owned w p fresh own = elim (alloc_slot_lem w.slots) [
  | inl n ↦ rw (assign-none w p (alloc_slot w.slots) n) own
  | inr f ↦ rw (f.1) (assign-Owned w p f.0 fresh own)
]

-- Asking for the worker changes only its flag.
pub ensure_timer_worker_lem :
    (w : World) (spawned : Bool)
    → (b : Bool) × (r : Bool) × (ensure_timer_worker w spawned
        ≡ (record w { worker_started = b }, r))
unfolding ensure_timer_worker
ensure_timer_worker_lem w spawned =
    let pick =
      λ (b : Bool). if b then (w, true) else (record w { worker_started = spawned }, spawned) in
    elim (Bool-cases w.worker_started) [
      | inl e ↦ (w.worker_started, true, ap pick e)
      | inr e ↦ (spawned, spawned, ap pick e)
    ]

init_running-Owned :
    (w : World) (p : ℕ) (b r : Bool)
    → (w.timers p).timer ≡ 0
    → Owned w
    → Owned ((init_running p (record w { worker_started = b }, r)).0)
unfolding init_running
init_running-Owned w p b false fresh own = own
init_running-Owned w p b true fresh own =
    assigned-Owned (record w { worker_started = b }) p fresh own

osal_timer_init-Owned :
    (w : World) (p : ℕ) (spawned : Bool) → Owned w → Owned ((osal_timer_init w p spawned).0)
unfolding osal_timer_init
osal_timer_init-Owned w p spawned own = elim (Bool-cases (p == 0)) [
  | inl e ↦ rw e own
  | inr e ↦
      elim (Bool-cases (
        is_none (w.timers p).handler
        || not ((w.timers p).timer == 0)
        || ((w.timers p).interval == 0))) [
          | inl bad ↦ rw e (rw bad own)
          | inr good ↦
              let fresh : (w.timers p).timer ≡ 0 =
                ground (arith, good, Bool-cases (is_none (w.timers p).handler)) in
              let (b, r, ran) = ensure_timer_worker_lem w spawned in
              rw e (rw good (rw ran (init_running-Owned w p b r fresh own)))
        ]
]

-- The adapter writes the timer object first, which owns no slot.
osal_adapt_timer_init-Owned :
    (w : World) (p func argument interval : ℕ) (spawned : Bool)
    → ((i : ℕ) (s : Slot) → get_elem? w.slots i ≡ some s → s.used ≡ true → s.timer ≢ p)
    → Owned w
    → Owned ((osal_adapt_timer_init w p func argument interval spawned).0)
unfolding osal_adapt_timer_init
osal_adapt_timer_init-Owned w p func argument interval spawned free own =
    let t : OsalTimer = record {
      timer = 0;
      handler = some func;
      argument = argument;
      interval = interval;
    } in
    let written : Owned (record w { timers = store w.timers p t }) = λ i s at used.
      ap (λ (x : OsalTimer). x.timer) (store_other w.timers p s.timer t (free i s at used))
      ∙ own i s at used in
    elim (Bool-cases ((p == 0) || (func == 0))) [
      | inl e ↦ rw e own
      | inr e ↦
          rw e (osal_timer_init-Owned (record w { timers = store w.timers p t }) p spawned written)
    ]

mod_at-Owned :
    (w : World) (p interval now : ℕ) (o : Option ℕ)
    → Owned w
    → Owned ((mod_at w p interval now o).0)
mod_at-Owned w p interval now none own = own
mod_at-Owned w p interval now (some i) own =
    let t : OsalTimer = record (w.timers p) { interval = interval } in
    let same = λ (q : ℕ). store-handle w.timers p q t refl in
    elim (Bool-cases (slot_at w.slots i).used) [
      | inl e ↦ rw e (
          Same-Owned w (update w.slots i (arm now interval)) (store w.timers p t) w.worker_started
            same (Same-update w.slots i (arm now interval) (λ s. (refl, refl))) own)
      | inr e ↦ rw e (
          Same-Owned w w.slots (store w.timers p t) w.worker_started same
            (λ j s at used. (s, at, used, refl)) own)
    ]

destroy_at-Owned :
    (w : World) (p i : ℕ)
    → (w.timers p).timer ≡ i + 1
    → Owned w
    → Owned ((destroy_at w p (some i)).0)
destroy_at-Owned w p i handle own j t at used = elim (ℕ_discrete i j) [
  | yes same ↦
      let (s, was, e) =
        get_elem?-update_self w.slots i (λ s. empty_slot) t
          (ap (get_elem? (update w.slots i (λ s. empty_slot))) same ∙ at) in
      absurd (ground (arith, used, ap (λ (x : Slot). x.used) e))
  | no apart ↦
      let h = own j t (sym (get_elem?-update_ne w.slots i j (λ s. empty_slot) apart) ∙ at) used in
      let other : t.timer ≢ p =
        λ x. apart (omega (arith, h, handle, ap (λ q. (w.timers q).timer) x)) in
      ap (λ (x : OsalTimer). x.timer)
        (store_other w.timers p t.timer (record (w.timers p) { timer = 0 }) other)
      ∙ h
]

-- The handle that a found slot comes from.
slot_of-handle : (w : World) (p i : ℕ) → slot_of w p ≡ some i → (w.timers p).timer ≡ i + 1
unfolding slot_of
slot_of-handle w p i e = ground (arith, e)

osal_timer_destroy-Owned : (w : World) (p : ℕ) → Owned w → Owned ((osal_timer_destroy w p).0)
unfolding osal_timer_destroy
osal_timer_destroy-Owned w p own = elim (Option-cases (slot_of w p)) [
  | inl n ↦ rw n own
  | inr f ↦ rw (f.1) (destroy_at-Owned w p f.0 (slot_of-handle w p f.0 f.1) own)
]

pub cleared-Owned :
    (w : World) (n i : ℕ) (s : Slot)
    → get_elem? (replicate n empty_slot) i ≡ some s
    → s.used ≡ false
cleared-Owned w zero i s at = absurd (ground (arith, at))
cleared-Owned w (suc n) zero s at = ground (arith, at)
cleared-Owned w (suc n) (suc i) s at = cleared-Owned w n i s at

stop_timers :
    (w : World) (o : Option ℕ) (p : ℕ) → ((stop_at w o).0.timers p).timer ≡ (w.timers p).timer
stop_timers w none p = refl
stop_timers w (some i) p = refl

pub Move-Owned : {v w : World} → Move v w → Owned v → Owned w
unfolding osal_timer_mod osal_timer_stop
Move-Owned (Move.clear w) own =
    λ i s at used. absurd (ground (arith, used, cleared-Owned w 32 i s at))
Move-Owned (Move.init w p spawned) own = osal_timer_init-Owned w p spawned own
Move-Owned (Move.adapt_init w p func argument interval spawned free) own =
    osal_adapt_timer_init-Owned w p func argument interval spawned free own
Move-Owned (Move.rearm w p interval now) own = elim (Bool-cases (interval == 0)) [
  | inl e ↦ rw e own
  | inr e ↦ rw e (mod_at-Owned w p interval now (slot_of w p) own)
]
Move-Owned (Move.stop w p) own =
    Same-Owned w ((stop_at w (slot_of w p)).0.slots) ((stop_at w (slot_of w p)).0.timers)
      ((stop_at w (slot_of w p)).0.worker_started) (stop_timers w (slot_of w p))
      (Same-stop_at w (slot_of w p)) own
Move-Owned (Move.destroy w p) own = osal_timer_destroy-Owned w p own
Move-Owned (Move.expire_due w now) own =
    Same-Owned w ((collect now w.slots).0) w.timers w.worker_started (λ q. refl)
      (Same-collect now w.slots) own

pub reached-Owned : {v w : World} → Reaches v w → Owned v → Owned w
reached-Owned (Reaches.here w) own = own
reached-Owned (Reaches.next u v w move rest) own = reached-Owned rest (Move-Owned move own)

-- From a table in which that holds, through any sequence of the operations and collections, as long as the
-- adapter initialises only timers that own no slot: the handle of the timer in a used slot names
-- that very slot, so that no timer owns two slots.
pub timers_own :
    {v w : World}
    → Owned v
    → Reaches v w
    → (i j : ℕ) (s t : Slot) → get_elem? w.slots i ≡ some s
    → get_elem? w.slots j ≡ some t
    → s.used ≡ true
    → t.used ≡ true
    → s.timer ≡ t.timer
    → (i ≡ j) × ((w.timers s.timer).timer ≡ i + 1)
timers_own {w = w} own path i j s t at there used taken same =
    let all = reached-Owned path own in
    let a = all i s at used in
    let b = all j t there taken in (omega (arith, a, b, ap (λ q. (w.timers q).timer) same), a)
