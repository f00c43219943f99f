-- ===== src/Timer/Firing.antt =====
-- When an armed timer fires.
use mathlib.Core.List.{Memᴰ}
use hisi_rf_ws.Common.{
  ℕ, zero, suc, ◌+◌, ◌%◌, ◌≤◌, ◌<◌, ◌≡◌, ◌≢◌, ◌↔◌, inl, inr, refl, sym, ◌∙◌, ap, subst, List, [],
  ◌∷◌, Option, none, some, true, false, arith, get_elem?, Bool-cases, length, u64_mod,
  if◌then◌else◌, lt_of_get_elem?,
}
use hisi_rf_ws.Timer.{
  Slot, World, update, slot_of, slot_at, arm, osal_timer_mod, stop_at, is_due, expire, collect,
}
use hisi_rf_ws.Timer.Owners.{
  Owned, Same, Same-update, Same-collect, due_slot, slot_due, collect-slots, slot_of-eq,
  get_elem?-update_self,
}

abbrev due : ℕ → List Slot → List ℕ
due now slots = (collect now slots).1

pub Same-stop_at : (w : World) (o : Option ℕ) → Same w.slots (stop_at w o).0.slots
Same-stop_at w none = λ i t at used. (t, at, used, refl)
Same-stop_at w (some i) =
    Same-update w.slots i (λ s. record s { active = false }) (λ s. (refl, refl))

-- The place of a due entry under the timer `p`.
placed :
    (w : World) (slots : List Slot) (now p : ℕ)
    → Owned w
    → length w.slots ≡ 32
    → p ≢ 0
    → Same w.slots slots
    → Memᴰ p (due now slots)
    → (j : ℕ) × (t : Slot) × (get_elem? slots j ≡ some t)
      × (is_due now t ≡ true)
      × ((w.timers p).timer ≡ j + 1)
      × (slot_of w p ≡ some j)
placed w slots now p own size live same m =
    let (j, t, at, d, is_p) = due_slot now slots p m in
    let (s, there, used, e) = same j t at (ground (arith, d, Bool-cases t.used)) in
    let handle = ap (λ q. (w.timers q).timer) (sym (e ∙ is_p)) ∙ own j s there used in
    (
      j,
      t,
      at,
      d,
      handle,
      slot_of-eq w p j live handle (omega (arith, lt_of_get_elem? w.slots j there, size)),
    )

slot_at-eq :
    (slots : List Slot) (i : ℕ) (s : Slot) → get_elem? slots i ≡ some s → slot_at slots i ≡ s
slot_at-eq [] i s at = absurd (ground (arith, at))
slot_at-eq (x ∷ xs) zero s at = ground (arith, at)
slot_at-eq (x ∷ xs) (suc i) s at = slot_at-eq xs i s at

get_elem?-update :
    (xs : List Slot) (i : ℕ) (f : Slot → Slot) (s : Slot)
    → get_elem? xs i ≡ some s
    → get_elem? (update xs i f) i ≡ some (f s)
get_elem?-update [] i f s at = absurd (ground (arith, at))
get_elem?-update (x ∷ xs) zero f s at = ap some (ap f (ground (arith, at)))
get_elem?-update (x ∷ xs) (suc i) f s at = get_elem?-update xs i f s at

-- A one-shot slot whose deadline has passed is not due after a collection.
expired :
    (now later : ℕ) (x t : Slot) (n : ℕ)
    → n % u64_mod ≤ now
    → x.deadline ≡ n % u64_mod
    → x.periodic ≡ false
    → x.active ≡ true
    → t ≡ (if is_due now x then expire now x else x)
    → ¬ (is_due later t ≡ true)
expired now later x t n low deadline once active e d = elim (Bool-cases x.used) [
  | inl u ↦
      let off : t.active ≡ false = ground (arith, e, u, deadline, once, active) in
      ground (arith, d, off)
  | inr u ↦ let off : t.used ≡ false = ground (arith, e, u, once) in ground (arith, d, off)
]

module _ (w : World) (p i interval start : ℕ) (s : Slot) (own : Owned w)
    (size : length w.slots ≡ 32) (live : p ≢ 0) (at : get_elem? w.slots i ≡ some s)
    (used : s.used ≡ true) (mine : s.timer ≡ p) (some_time : 0 < interval)
    (in_range : start + interval < u64_mod) where
  handle : (w.timers p).timer ≡ i + 1
  handle = ap (λ q. (w.timers q).timer) (sym mine) ∙ own i s at used

  mod-slots : (osal_timer_mod w p interval start).0.slots ≡ update w.slots i (arm start interval)
  unfolding osal_timer_mod
  mod-slots =
      let found =
        slot_of-eq w p i live handle (omega (arith, lt_of_get_elem? w.slots i at, size)) in
      let taken : (slot_at w.slots i).used ≡ true =
        ap (λ (x : Slot). x.used) (slot_at-eq w.slots i s at) ∙ used in
      ground (arith, found, taken)

  abbrev armed : List Slot
  armed = update w.slots i (arm start interval)

  -- A due entry under `p` is the armed slot.
  armed-slot :
      (now : ℕ) (slots : List Slot)
      → Same w.slots slots
      → Memᴰ p (due now slots)
      → (t : Slot) × (get_elem? slots i ≡ some t) × (is_due now t ≡ true)
  armed-slot now slots same m =
      let (j, t, there, d, h, found) = placed w slots now p own size live same m in
      let e : j ≡ i = omega (arith, h, handle) in (t, ap (get_elem? slots) (sym e) ∙ there, d)

  Same-armed : Same w.slots (update w.slots i (arm start interval))
  Same-armed = Same-update w.slots i (arm start interval) (λ x. (refl, refl))

  -- A registered timer that is armed for `interval` from `start`, with a sum below 2^64, is among
  -- those that a collection at `now` fires exactly when that time has passed.
  pub mod_fires :
      (now : ℕ)
      → Memᴰ p ((collect now ((osal_timer_mod w p interval start).0.slots)).1)
        ↔ (start + interval ≤ now)
  mod_fires now = rw mod-slots (to, from)
    where
      to : Memᴰ p (due now armed) → start + interval ≤ now
      to m =
          let (t, there, d) = armed-slot now armed Same-armed m in
          let (x, was, e) = get_elem?-update_self w.slots i (arm start interval) t there in
          let same : t.deadline ≡ (start + interval) % u64_mod = ap (λ (y : Slot). y.deadline) e in
          let passed : t.deadline ≤ now = ground (arith, d) in omega (arith, passed, same)

      from : start + interval ≤ now → Memᴰ p (due now armed)
      from late =
          let passed : (start + interval) % u64_mod ≤ now = omega arith in
          let d : is_due now (arm start interval s) ≡ true = ground (arith, used, passed) in
          subst (λ q. Memᴰ q (due now armed)) mine
            (slot_due now armed i (arm start interval s)
              (get_elem?-update w.slots i (arm start interval) s at) d)

  -- Once it has fired, it does not fire again unless it is armed again.
  pub mod_fires_once :
      (now later : ℕ)
      → start + interval ≤ now
      → ¬ Memᴰ p ((collect later ((collect now ((osal_timer_mod w p interval start).0.slots)).0)).1)
  mod_fires_once now later passed = rw mod-slots again
    where
      again : ¬ Memᴰ p (due later ((collect now armed).0))
      again m =
          let chain : Same w.slots ((collect now armed).0) = λ j t there u.
            let (x, was, ux, e) = Same-collect now armed j t there u in
            let (y, first, uy, f) = Same-armed j x was ux in (y, first, uy, f ∙ e) in
          let (t, there, d) = armed-slot later ((collect now armed).0) chain m in
          let (x, was, e) = collect-slots now armed i t there in
          let (y, first, f) = get_elem?-update_self w.slots i (arm start interval) x was in
          let low : (start + interval) % u64_mod ≤ now = omega arith in
          expired now later x t (start + interval) low (ap (λ (z : Slot). z.deadline) f)
            (ap (λ (z : Slot). z.periodic) f) (ap (λ (z : Slot). z.active) f) e d
