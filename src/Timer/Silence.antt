-- ===== src/Timer/Silence.antt =====
-- A stopped timer stays silent until it is armed again.
use mathlib.Core.List.{Memᴰ}
use native.Mathlib.Decide.{ℕ_discrete}
use hisi_rf_ws.Common.{
  ℕ, ◌+◌, ◌≡◌, ◌≢◌, inl, inr, refl, sym, ◌∙◌, ap, subst, List, Option, none, some, Bool, true,
  false, ◌||◌, ◌==◌, not, arith, get_elem?, Bool-cases, Option-cases, is_none, length,
  lt_of_get_elem?,
}
use hisi_rf_ws.Timer.{
  Slot, World, OsalTimer, empty_slot, store, alloc_slot, update, assign, init_running,
  osal_timer_init, osal_adapt_timer_init, slot_of, slot_at, arm, mod_at, osal_timer_mod, stop_at,
  osal_timer_stop, osal_timer_destroy, collect,
}
use hisi_rf_ws.Timer.Owners.{
  Owned, get_elem?-update_self, get_elem?-update_ne, due_slot, collect-slots, slot_of-eq,
}
use hisi_rf_ws.Timer.Firing.{Same-stop_at}
use hisi_rf_ws.Timer.Lifecycle.{
  Move, Move-Owned, alloc_slot_lem, assign-none, ensure_timer_worker_lem, cleared-Owned,
}

-- Every move but an arming of the slot that the handle of `p` names.
abbrev pub LeavesAlone : ℕ → {v w : World} → Move v w → Type 0
LeavesAlone p (Move.rearm w q interval now) =
    (i : ℕ) → slot_of w q ≡ some i → (w.timers p).timer ≢ i + 1
LeavesAlone p _ = Unit {0}

pub data Unarmed (p : ℕ) : World → World → Type 0 where
  here : (w : World) → Unarmed p w w
  next : (u v w : World) (m : Move u v) → LeavesAlone p m → Unarmed p v w → Unarmed p u w

module _ (p : ℕ) where
  -- No slot of the timer is active.
  abbrev Quiet : List Slot → Type 0
  Quiet slots =
      (i : ℕ) (s : Slot)
      → get_elem? slots i ≡ some s
      → s.used ≡ true
      → s.timer ≡ p
      → s.active ≡ false

  Quiet-update :
      (xs : List Slot) (i : ℕ) (f : Slot → Slot)
      → ((s : Slot)
          → get_elem? xs i ≡ some s
          → (f s).used ≡ true
          → (f s).timer ≡ p
          → (f s).active ≡ false)
      → Quiet xs
      → Quiet (update xs i f)
  Quiet-update xs i f changed quiet j t at used mine = elim (ℕ_discrete i j) [
    | no apart ↦ quiet j t (sym (get_elem?-update_ne xs i j f apart) ∙ at) used mine
    | yes same ↦
        let (s, was, e) =
          get_elem?-update_self xs i f t (ap (get_elem? (update xs i f)) same ∙ at) in
        ap (λ (x : Slot). x.active) e
        ∙ changed s was (ap (λ (x : Slot). x.used) (sym e) ∙ used)
            (ap (λ (x : Slot). x.timer) (sym e) ∙ mine)
  ]

  stop_at-Quiet : (w : World) (o : Option ℕ) → Quiet w.slots → Quiet ((stop_at w o).0.slots)
  stop_at-Quiet w none quiet = quiet
  stop_at-Quiet w (some i) quiet =
      Quiet-update w.slots i (λ s. record s { active = false }) (λ s at used mine. refl) quiet

  -- The stop itself: the slot that it finds is the only one of the timer.
  stopped-Quiet :
      (w : World) → Owned w → length w.slots ≡ 32 → p ≢ 0 → Quiet ((osal_timer_stop w p).0.slots)
  unfolding osal_timer_stop
  stopped-Quiet w own size live i t at used mine =
      let (s, was, taken, same) = Same-stop_at w (slot_of w p) i t at used in
      let handle = ap (λ q. (w.timers q).timer) (sym (same ∙ mine)) ∙ own i s was taken in
      let fits = lt_of_get_elem? w.slots i was in
      let found = slot_of-eq w p i live handle (omega (arith, fits, size)) in
      let off = λ (x : Slot). record x { active = false } in
      let (x, there, e) =
        get_elem?-update_self w.slots i off t
          (subst (λ o. get_elem? ((stop_at w o).0.slots) i ≡ some t) found at) in
      ap (λ (y : Slot). y.active) e

  -- A new slot is inactive.
  assign-Quiet :
      (w : World) (q : ℕ) → Quiet w.slots → Quiet ((assign w q (alloc_slot w.slots)).0.slots)
  assign-Quiet w q quiet = elim (alloc_slot_lem w.slots) [
    | inl n ↦ rw (assign-none w q (alloc_slot w.slots) n) quiet
    | inr (i, e) ↦
        let new = λ (s : Slot). record empty_slot { used = true } in
        let give = λ (s : Slot). record s { timer = q; interval = (w.timers q).interval } in
        rw e (
          Quiet-update (update w.slots i new) i give
            (λ s at used mine.
              let (x, was, is_new) = get_elem?-update_self w.slots i new s at in
              ap (λ (y : Slot). y.active) is_new)
            (Quiet-update w.slots i new (λ s at used mine. refl) quiet))
  ]

  init_running-Quiet :
      (w : World) (q : ℕ) (b r : Bool)
      → Quiet w.slots
      → Quiet ((init_running q (record w { worker_started = b }, r)).0.slots)
  unfolding init_running
  init_running-Quiet w q b false quiet = quiet
  init_running-Quiet w q b true quiet = assign-Quiet (record w { worker_started = b }) q quiet

  osal_timer_init-Quiet :
      (w : World) (q : ℕ) (spawned : Bool)
      → Quiet w.slots
      → Quiet ((osal_timer_init w q spawned).0.slots)
  unfolding osal_timer_init
  osal_timer_init-Quiet w q spawned quiet = elim (Bool-cases (q == 0)) [
    | inl e ↦ rw e quiet
    | inr e ↦
        elim (Bool-cases (
          is_none (w.timers q).handler
          || not ((w.timers q).timer == 0)
          || ((w.timers q).interval == 0))) [
            | inl bad ↦ rw e (rw bad quiet)
            | inr good ↦
                let (b, r, ran) = ensure_timer_worker_lem w spawned in
                rw e (rw good (rw ran (init_running-Quiet w q b r quiet)))
          ]
  ]

  osal_adapt_timer_init-Quiet :
      (w : World) (q func argument interval : ℕ) (spawned : Bool)
      → Quiet w.slots
      → Quiet ((osal_adapt_timer_init w q func argument interval spawned).0.slots)
  unfolding osal_adapt_timer_init
  osal_adapt_timer_init-Quiet w q func argument interval spawned quiet =
      let t : OsalTimer = record {
        timer = 0;
        handler = some func;
        argument = argument;
        interval = interval;
      } in
      elim (Bool-cases ((q == 0) || (func == 0))) [
        | inl e ↦ rw e quiet
        | inr e ↦
            rw e (osal_timer_init-Quiet (record w { timers = store w.timers q t }) q spawned quiet)
      ]

  -- Another slot is armed.
  mod_at-Quiet :
      (w : World) (q interval now : ℕ) (o : Option ℕ)
      → ((i : ℕ) → o ≡ some i → (w.timers p).timer ≢ i + 1)
      → Owned w
      → Quiet w.slots
      → Quiet ((mod_at w q interval now o).0.slots)
  mod_at-Quiet w q interval now none apart own quiet = quiet
  mod_at-Quiet w q interval now (some i) apart own quiet =
      elim (Bool-cases (slot_at w.slots i).used) [
        | inr e ↦ rw e quiet
        | inl e ↦ rw e (
            Quiet-update w.slots i (arm now interval)
              (λ s at used mine.
                absurd (apart i refl (ap (λ r. (w.timers r).timer) (sym mine) ∙ own i s at used)))
              quiet)
      ]

  osal_timer_destroy-Quiet :
      (w : World) (q : ℕ) → Quiet w.slots → Quiet ((osal_timer_destroy w q).0.slots)
  unfolding osal_timer_destroy
  osal_timer_destroy-Quiet w q quiet = elim (Option-cases (slot_of w q)) [
    | inl n ↦ rw n quiet
    | inr (i, f) ↦ rw f (Quiet-update w.slots i (λ s. empty_slot) (λ s at used mine. refl) quiet)
  ]

  collect-Quiet : (now : ℕ) (slots : List Slot) → Quiet slots → Quiet ((collect now slots).0)
  collect-Quiet now slots quiet i t at used mine =
      let (s, was, e) = collect-slots now slots i t at in
      let taken : s.used ≡ true = ground (arith, e, used) in
      let same : s.timer ≡ p = ground (arith, e, mine) in
      let off = quiet i s was taken same in ground (arith, e, off)

  Move-Quiet :
      {v w : World} (m : Move v w) → LeavesAlone p m → Owned v → Quiet v.slots → Quiet w.slots
  unfolding osal_timer_mod osal_timer_stop
  Move-Quiet (Move.clear w) apart own quiet =
      λ i s at used mine. absurd (ground (arith, used, cleared-Owned w 32 i s at))
  Move-Quiet (Move.init w q spawned) apart own quiet = osal_timer_init-Quiet w q spawned quiet
  Move-Quiet (Move.adapt_init w q func argument interval spawned free) apart own quiet =
      osal_adapt_timer_init-Quiet w q func argument interval spawned quiet
  Move-Quiet (Move.rearm w q interval now) apart own quiet = elim (Bool-cases (interval == 0)) [
    | inl e ↦ rw e quiet
    | inr e ↦ rw e (mod_at-Quiet w q interval now (slot_of w q) apart own quiet)
  ]
  Move-Quiet (Move.stop w q) apart own quiet = stop_at-Quiet w (slot_of w q) quiet
  Move-Quiet (Move.destroy w q) apart own quiet = osal_timer_destroy-Quiet w q quiet
  Move-Quiet (Move.expire_due w now) apart own quiet = collect-Quiet now w.slots quiet

  Unarmed-Quiet : {v w : World} → Unarmed p v w → Owned v → Quiet v.slots → Quiet w.slots
  Unarmed-Quiet (Unarmed.here w) own quiet = quiet
  Unarmed-Quiet (Unarmed.next u v w move apart rest) own quiet =
      Unarmed-Quiet rest (Move-Owned move own) (Move-Quiet move apart own quiet)

-- From a table of 32 slots in which each used slot is named by the handle of its timer: after a
-- timer that is not null is stopped, through any operations and collections that do not arm the slot
-- that its handle names, and in which the adapter initialises only timers that own no slot, no
-- collection takes that timer, at whatever time.
pub stopped_silent :
    (w v : World) (p now : ℕ)
    → Owned w
    → length w.slots ≡ 32
    → p ≢ 0
    → Unarmed p ((osal_timer_stop w p).0) v
    → ¬ Memᴰ p ((collect now v.slots).1)
stopped_silent w v p now own size live path m =
    let quiet =
      Unarmed-Quiet p path (Move-Owned (Move.stop w p) own) (stopped-Quiet p w own size live) in
    let (i, s, at, d, mine) = due_slot now v.slots p m in
    let taken : s.used ≡ true = ground (arith, d, Bool-cases s.used) in
    let off = quiet i s at taken mine in ground (arith, d, off)
