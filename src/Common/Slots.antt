-- ===== src/Common/Slots.antt =====
-- Fixed tables of optional entries, `[Option<A>; N]`, and what a table holds, by counting.
use Prim.Native.Nat.{ℕ, zero, suc, ◌+◌, ◌≤◌}
use mathlib.Core.Path.{◌≡◌, refl}
use mathlib.Core.Bool.{Bool, true, false, ◌||◌}
use mathlib.Core.List.{List, [], ◌∷◌}
use mathlib.Core.Logic.{inl, inr}
use mathlib.Core.Option
use mathlib.Core.Option.{Option, none, some}
use native.Mathlib.Omega.{arith}
use hisi_rf_ws.Common.Tests.{if◌then◌else◌, Bool-cases, Option-cases}
use hisi_rf_ws.Common.Lists.{length, get_elem?, set, replicate}

abbrev pub bit : Bool → ℕ
bit true = 1
bit false = 0

module _ {ℓ} {A : Type ℓ} where
  abbrev pub holds : (A → Bool) → Option A → Bool
  holds p none = false
  holds p (some a) = p a

  abbrev pub is_none : Option A → Bool
  is_none none = true
  is_none (some a) = false

  abbrev shift : Option (ℕ × A) → Option (ℕ × A)
  shift none = none
  shift (some (i, a)) = some (suc i, a)

module _ {ℓ} {A : Type ℓ} where
  -- `slots.iter_mut().flatten().find(p)`: the first entry that satisfies `p`, with its place.
  unfoldable pub find_slot : (A → Bool) → List (Option A) → Option (ℕ × A)
  find_slot p [] = none
  find_slot p (none ∷ xs) = shift (find_slot p xs)
  find_slot p (some a ∷ xs) = if p a then some (0, a) else shift (find_slot p xs)

  -- `slots.iter().flatten().any(p)`
  unfoldable pub any_slot : (A → Bool) → List (Option A) → Bool
  any_slot p [] = false
  any_slot p (x ∷ xs) = holds p x || any_slot p xs

  -- `slots.iter().position(Option::is_none)`
  unfoldable pub free_slot : List (Option A) → Option ℕ
  free_slot [] = none
  free_slot (none ∷ xs) = some 0
  free_slot (some a ∷ xs) = Option.map suc (free_slot xs)

  -- how many entries satisfy `p`
  unfoldable pub count_slots : (A → Bool) → List (Option A) → ℕ
  count_slots p [] = 0
  count_slots p (x ∷ xs) = bit (holds p x) + count_slots p xs

module _ {ℓ} {A : Type ℓ} where
  -- A write to a slot changes each count by what it removes and what it adds.
  pub count_slots-set :
      (p : A → Bool) (xs : List (Option A)) (i : ℕ) (old v : Option A)
      → get_elem? xs i ≡ some old
      → count_slots p (set xs i v) + bit (holds p old) ≡ count_slots p xs + bit (holds p v)
  unfolding count_slots
  count_slots-set p [] i old v h = ground arith
  count_slots-set p (x ∷ xs) zero old v h = ground arith
  count_slots-set p (x ∷ xs) (suc i) old v h = omega (arith, count_slots-set p xs i old v h)

  pub count_slots-clear : (p : A → Bool) (n : ℕ) → count_slots p (replicate n none) ≡ 0
  unfolding count_slots
  count_slots-clear p zero = refl
  count_slots-clear p (suc n) = omega (arith, count_slots-clear p n)

  pub count_slots-le-length : (p : A → Bool) (xs : List (Option A)) → count_slots p xs ≤ length xs
  unfolding count_slots
  count_slots-le-length p [] = omega arith
  count_slots-le-length p (none ∷ xs) = omega (arith, count_slots-le-length p xs)
  count_slots-le-length p (some a ∷ xs) = elim (Bool-cases (p a)) [
    | inl e ↦ rw e (omega (arith, count_slots-le-length p xs))
    | inr e ↦ rw e (omega (arith, count_slots-le-length p xs))
  ]

  -- A weaker test counts at least as many.
  pub count_slots_mono :
      (p q : A → Bool) (xs : List (Option A))
      → ((a : A) → p a ≡ true → q a ≡ true)
      → count_slots p xs ≤ count_slots q xs
  unfolding count_slots
  count_slots_mono p q [] h = omega arith
  count_slots_mono p q (none ∷ xs) h = omega (arith, count_slots_mono p q xs h)
  count_slots_mono p q (some a ∷ xs) h = ground (arith, count_slots_mono p q xs h, h a)

  pub count_slots_of_any :
      (p : A → Bool) (xs : List (Option A)) → any_slot p xs ≡ false → count_slots p xs ≡ 0
  unfolding count_slots any_slot
  count_slots_of_any p [] h = refl
  count_slots_of_any p (x ∷ xs) h = ground (arith, count_slots_of_any p xs)

  -- What the search finds stands at its place and satisfies the test.
  pub find_slot-some :
      (p : A → Bool) (xs : List (Option A)) {i : ℕ} {a : A}
      → find_slot p xs ≡ some (i, a)
      → (get_elem? xs i ≡ some (some a)) × (p a ≡ true)
  unfolding find_slot
  find_slot-some p [] h = ground arith
  find_slot-some p (none ∷ xs) h = elim (Option-cases (find_slot p xs)) [
    | inl e ↦ ground arith
    | inr r ↦ ground (arith, find_slot-some p xs r.1)
  ]
  find_slot-some p (some b ∷ xs) h = elim (Option-cases (find_slot p xs)) [
    | inl e ↦ ground arith
    | inr r ↦ ground (arith, find_slot-some p xs r.1)
  ]

  -- A failed search means that no entry satisfies the test.
  pub find_slot-none :
      (p : A → Bool) (xs : List (Option A)) → find_slot p xs ≡ none → count_slots p xs ≡ 0
  unfolding find_slot count_slots
  find_slot-none p [] h = refl
  find_slot-none p (none ∷ xs) h = ground (arith, find_slot-none p xs)
  find_slot-none p (some b ∷ xs) h = ground (arith, find_slot-none p xs)

  pub free_slot-some :
      (xs : List (Option A)) {i : ℕ} → free_slot xs ≡ some i → get_elem? xs i ≡ some none
  unfolding free_slot
  free_slot-some [] h = ground arith
  free_slot-some (none ∷ xs) h = ground arith
  free_slot-some (some b ∷ xs) h = elim (Option-cases (free_slot xs)) [
    | inl e ↦ ground arith
    | inr r ↦ ground (arith, free_slot-some xs r.1)
  ]

  -- No free slot: the table is full.
  pub free_slot-none :
      (xs : List (Option A)) → free_slot xs ≡ none → count_slots (λ _. true) xs ≡ length xs
  unfolding free_slot count_slots
  free_slot-none [] h = refl
  free_slot-none (none ∷ xs) h = ground arith
  free_slot-none (some b ∷ xs) h = ground (arith, free_slot-none xs)

  pub count_slots_pos :
      (p : A → Bool) (xs : List (Option A)) (i : ℕ) (a : A)
      → get_elem? xs i ≡ some (some a)
      → p a ≡ true
      → 1 ≤ count_slots p xs
  unfolding count_slots
  count_slots_pos p [] i a at h = ground arith
  count_slots_pos p (x ∷ xs) zero a at h = ground arith
  count_slots_pos p (x ∷ xs) (suc i) a at h = omega (arith, count_slots_pos p xs i a at h)

  -- A test that at most one entry passes finds that entry.
  pub find_slot_of_unique :
      (p : A → Bool) (xs : List (Option A)) (i : ℕ) (a : A)
      → get_elem? xs i ≡ some (some a)
      → p a ≡ true
      → count_slots p xs ≤ 1
      → find_slot p xs ≡ some (i, a)
  unfolding count_slots find_slot
  find_slot_of_unique p [] i a at h one = ground arith
  find_slot_of_unique p (none ∷ xs) zero a at h one = ground arith
  find_slot_of_unique p (none ∷ xs) (suc i) a at h one =
      rw (find_slot_of_unique p xs i a at h (omega arith))
  find_slot_of_unique p (some b ∷ xs) zero a at h one = ground arith
  find_slot_of_unique p (some b ∷ xs) (suc i) a at h one = elim (Bool-cases (p b)) [
    | inl e ↦ absurd (ground (arith, count_slots_pos p xs i a))
    | inr e ↦ rw (e, find_slot_of_unique p xs i a at h (ground arith))
  ]
