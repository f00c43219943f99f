-- ===== src/Timer/Owners.antt =====
-- Which timer owns a slot, and when a timer fires.
use mathlib.Core.List.{Memᴰ}
use native.Mathlib.Decide.{ℕ_discrete}
use hisi_rf_ws.Common.{
  ℕ, zero, suc, ◌+◌, ◌<◌, ◌≡◌, ◌≢◌, inl, inr, refl, sym, ◌∙◌, ap, subst, List, [], ◌∷◌, some, Bool,
  true, false, arith, get_elem?, Bool-cases, if◌then◌else◌,
}
use hisi_rf_ws.Timer.{Slot, World, OsalTimer, update, slot_of, is_due, expire, collect}

pub get_elem?-update_ne :
    (xs : List Slot) (i j : ℕ) (f : Slot → Slot)
    → i ≢ j
    → get_elem? (update xs i f) j ≡ get_elem? xs j
get_elem?-update_ne [] i j f h = refl
get_elem?-update_ne (x ∷ xs) zero zero f h = absurd (h refl)
get_elem?-update_ne (x ∷ xs) zero (suc j) f h = refl
get_elem?-update_ne (x ∷ xs) (suc i) zero f h = refl
get_elem?-update_ne (x ∷ xs) (suc i) (suc j) f h = get_elem?-update_ne xs i j f (λ e. h (ap suc e))

-- What stands at the place of a change is the change of what stood there.
pub get_elem?-update_self :
    (xs : List Slot) (i : ℕ) (f : Slot → Slot) (t : Slot)
    → get_elem? (update xs i f) i ≡ some t
    → (s : Slot) × (get_elem? xs i ≡ some s) × (t ≡ f s)
get_elem?-update_self [] i f t h = absurd (ground (arith, h))
get_elem?-update_self (x ∷ xs) zero f t h = (x, refl, ground (arith, h))
get_elem?-update_self (x ∷ xs) (suc i) f t h = get_elem?-update_self xs i f t h

-- A used slot is the one that the handle of its timer names.
abbrev pub Owned : World → Type 0
Owned w =
    (i : ℕ) (s : Slot)
    → get_elem? w.slots i ≡ some s
    → s.used ≡ true
    → (w.timers s.timer).timer ≡ i + 1

-- The slots agree in what they are used for.
abbrev pub Same : List Slot → List Slot → Type 0
Same xs ys =
    (i : ℕ) (t : Slot)
    → get_elem? ys i ≡ some t
    → t.used ≡ true
    → (s : Slot) × (get_elem? xs i ≡ some s) × (s.used ≡ true) × (s.timer ≡ t.timer)

pub Same-update :
    (xs : List Slot) (i : ℕ) (f : Slot → Slot)
    → ((s : Slot) → ((f s).used ≡ s.used) × ((f s).timer ≡ s.timer))
    → Same xs (update xs i f)
Same-update xs i f same j t at used = elim (ℕ_discrete i j) [
  | no apart ↦ (t, sym (get_elem?-update_ne xs i j f apart) ∙ at, used, refl)
  | yes here ↦
      let (s, there, e) =
        get_elem?-update_self xs i f t (ap (get_elem? (update xs i f)) here ∙ at) in
      (
        s,
        ap (get_elem? xs) (sym here) ∙ there,
        sym (same s).0 ∙ ap (λ (x : Slot). x.used) (sym e) ∙ used,
        sym (same s).1 ∙ ap (λ (x : Slot). x.timer) (sym e),
      )
]

pub Same-Owned :
    (w : World) (slots : List Slot) (timers : ℕ → OsalTimer) (b : Bool)
    → ((p : ℕ) → (timers p).timer ≡ (w.timers p).timer)
    → Same w.slots slots
    → Owned w
    → Owned (record { slots = slots; timers = timers; worker_started = b })
Same-Owned w slots timers b handles same own i t at used =
    let (s, there, u, e) = same i t at used in
    handles t.timer ∙ ap (λ q. (w.timers q).timer) (sym e) ∙ own i s there u

pub collect_skip :
    (now : ℕ) (s : Slot) (rest : List Slot)
    → is_due now s ≡ false
    → (collect now (s ∷ rest)).1 ≡ (collect now rest).1
unfolding collect
collect_skip now s rest e = rw e refl

pub collect_due :
    (now : ℕ) (s : Slot) (rest : List Slot)
    → is_due now s ≡ true
    → (collect now (s ∷ rest)).1 ≡ s.timer ∷ (collect now rest).1
unfolding collect
collect_due now s rest e = rw e refl

-- The timers that are collected are those of the due slots.
pub due_slot :
    (now : ℕ) (slots : List Slot) (p : ℕ)
    → Memᴰ p (collect now slots).1
    → (i : ℕ) × (s : Slot) × (get_elem? slots i ≡ some s) × (is_due now s ≡ true) × (s.timer ≡ p)
unfolding collect
due_slot now [] p m = elim m [ ]
due_slot now (s ∷ rest) p m = elim (Bool-cases (is_due now s)) [
  | inr e ↦
      let (i, t, at, d, same) =
        due_slot now rest p (subst (Memᴰ p) (collect_skip now s rest e) m) in
      (suc i, t, at, d, same)
  | inl e ↦ elim (subst (Memᴰ p) (collect_due now s rest e) m) [
    | Memᴰ.head h ↦ (0, s, refl, e, sym h)
    | Memᴰ.tail r ↦ let (i, t, at, d, same) = due_slot now rest p r in (suc i, t, at, d, same)
  ]
]

pub slot_due :
    (now : ℕ) (slots : List Slot) (i : ℕ) (s : Slot)
    → get_elem? slots i ≡ some s
    → is_due now s ≡ true
    → Memᴰ s.timer (collect now slots).1
unfolding collect
slot_due now [] i s at d = absurd (ground (arith, at))
slot_due now (x ∷ rest) zero s at d =
    let same : x ≡ s = ground (arith, at) in
    subst (Memᴰ s.timer) (sym (collect_due now x rest (rw same d)))
      (Memᴰ.head (ap (λ (y : Slot). y.timer) (sym same)))
slot_due now (x ∷ rest) (suc i) s at d = elim (Bool-cases (is_due now x)) [
  | inl e ↦
      subst (Memᴰ s.timer) (sym (collect_due now x rest e)) (Memᴰ.tail (slot_due now rest i s at d))
  | inr e ↦ subst (Memᴰ s.timer) (sym (collect_skip now x rest e)) (slot_due now rest i s at d)
]

-- The slots after a collection.
pub collect-slots :
    (now : ℕ) (slots : List Slot) (i : ℕ) (t : Slot)
    → get_elem? (collect now slots).0 i ≡ some t
    → (s : Slot) × (get_elem? slots i ≡ some s) × (t ≡ (if is_due now s then expire now s else s))
unfolding collect
collect-slots now [] i t at = absurd (ground (arith, at))
collect-slots now (s ∷ rest) zero t at = (s, refl, ground (arith, at))
collect-slots now (s ∷ rest) (suc i) t at = collect-slots now rest i t (ground (arith, at))

pub Same-collect : (now : ℕ) (slots : List Slot) → Same slots (collect now slots).0
Same-collect now slots i t at used =
    let (s, there, e) = collect-slots now slots i t at in
    (s, there, ground (arith, e, used), ground (arith, e))

-- The slot of a timer that owns one is found through its handle.
pub slot_of-eq :
    (w : World) (p j : ℕ) → p ≢ 0 → (w.timers p).timer ≡ j + 1 → j < 32 → slot_of w p ≡ some j
unfolding slot_of
slot_of-eq w p j live handle fits = ground (arith, live, handle)
