-- ===== src/Timer/Delay.antt =====
-- How long the worker may sleep.
use hisi_rf_ws.Common.{
  ℕ, zero, suc, ◌+◌, ◌-◌, ◌≤◌, ◌≡◌, inl, inr, refl, List, [], ◌∷◌, Option, none, some, Bool, true,
  ◌&&◌, arith, min, max, get_elem?, Bool-cases,
}
use hisi_rf_ws.Timer.{Slot, nearer, nearest, next_delay_ms}

abbrev pub is_armed : Slot → Bool
is_armed s = s.used && s.active

-- From a distance, the search gives one that is no longer.
nearest-some :
    (now : ℕ) (slots : List Slot) (b : ℕ)
    → (d : ℕ) × (nearest now slots (some b) ≡ some d) × (d ≤ b)
unfolding nearest
nearest-some now [] b = (b, refl, omega arith)
nearest-some now (s ∷ rest) b = elim (Bool-cases (is_armed s)) [
  | inl e ↦
      let (d, at, less) = nearest-some now rest (min b (s.deadline - now)) in
      (d, rw e at, omega (arith, less))
  | inr e ↦ let (d, at, less) = nearest-some now rest b in (d, rw e at, less)
]

nearest_armed :
    (now : ℕ) (slots : List Slot) (best : Option ℕ) (i : ℕ) (s : Slot)
    → get_elem? slots i ≡ some s
    → is_armed s ≡ true
    → (d : ℕ) × (nearest now slots best ≡ some d) × (d ≤ s.deadline - now)
unfolding nearest
nearest_armed now [] best i s at armed = absurd (ground (arith, at))
nearest_armed now (x ∷ rest) none zero s at armed =
    let (d, found, less) = nearest-some now rest (s.deadline - now) in
    (d, ground (arith, at, armed, found), less)
nearest_armed now (x ∷ rest) (some b) zero s at armed =
    let (d, found, less) = nearest-some now rest (min b (s.deadline - now)) in
    (d, ground (arith, at, armed, found), omega (arith, less))
nearest_armed now (x ∷ rest) best (suc i) s at armed = elim (Bool-cases (is_armed x)) [
  | inl e ↦
      let (d, found, less) = nearest_armed now rest (nearer best (x.deadline - now)) i s at armed in
      (d, rw e found, less)
  | inr e ↦ let (d, found, less) = nearest_armed now rest best i s at armed in (d, rw e found, less)
]

-- Whatever timers are armed, a worker that sleeps for `next_delay_ms` sleeps at least 1 ms, and wakes
-- no later than the deadline of each armed timer, or after 1 ms if that has passed.
pub wakes_in_time :
    (slots : List Slot) (now i : ℕ) (s : Slot)
    → get_elem? slots i ≡ some s
    → is_armed s ≡ true
    → (1 ≤ next_delay_ms slots now) × (now + next_delay_ms slots now ≤ max s.deadline (now + 1))
unfolding next_delay_ms
wakes_in_time slots now i s at armed =
    let (d, found, less) = nearest_armed now slots none i s at armed in
    rw found (omega arith, omega (arith, less))
