-- ===== src/Common/Columns.antt =====
-- Arrays of plain values: searching, counting, and reading with a default.
use Prim.Native.Nat.{ℕ, zero, suc, ◌+◌, ◌≤◌}
use mathlib.Core.Path.{◌≡◌, refl}
use mathlib.Core.Bool.{Bool, true, false}
use mathlib.Core.Logic.{inl, inr}
use mathlib.Core.List.{List, [], ◌∷◌}
use mathlib.Core.Option
use mathlib.Core.Option.{Option, none, some}
use native.Mathlib.Omega.{arith}
use hisi_rf_ws.Common.Tests.{if◌then◌else◌, Bool-cases, Option-cases}
use hisi_rf_ws.Common.Lists.{length, get_elem?, set, replicate}
use hisi_rf_ws.Common.Slots.{bit}

module _ {ℓ} {A : Type ℓ} where
  abbrev pub get_or : List A → ℕ → A → A
  get_or [] i d = d
  get_or (x ∷ xs) zero d = x
  get_or (x ∷ xs) (suc i) d = get_or xs i d

  -- `xs.iter().position(p)`
  unfoldable pub position : (A → Bool) → List A → Option ℕ
  position p [] = none
  position p (x ∷ xs) = if p x then some 0 else Option.map suc (position p xs)

  -- how many elements satisfy `p`
  unfoldable pub count_if : (A → Bool) → List A → ℕ
  count_if p [] = 0
  count_if p (x ∷ xs) = bit (p x) + count_if p xs

module _ {ℓ} {A : Type ℓ} where
  pub count_if-set :
      (p : A → Bool) (xs : List A) (i : ℕ) (old v : A)
      → get_elem? xs i ≡ some old
      → count_if p (set xs i v) + bit (p old) ≡ count_if p xs + bit (p v)
  unfolding count_if
  count_if-set p [] i old v h = ground arith
  count_if-set p (x ∷ xs) zero old v h = ground arith
  count_if-set p (x ∷ xs) (suc i) old v h = omega (arith, count_if-set p xs i old v h)

  pub count_if-replicate :
      (p : A → Bool) (n : ℕ) (a : A) → p a ≡ false → count_if p (replicate n a) ≡ 0
  unfolding count_if
  count_if-replicate p zero a h = refl
  count_if-replicate p (suc n) a h = ground (arith, count_if-replicate p n a h)

  pub count_if-le-length : (p : A → Bool) (xs : List A) → count_if p xs ≤ length xs
  unfolding count_if
  count_if-le-length p [] = omega arith
  count_if-le-length p (x ∷ xs) = ground (arith, count_if-le-length p xs)

  pub position-some :
      (p : A → Bool) (xs : List A) {i : ℕ}
      → position p xs ≡ some i
      → (x : A) × (get_elem? xs i ≡ some x) × (p x ≡ true)
  unfolding position
  position-some p [] h = absurd (ground arith)
  position-some p (x ∷ xs) {i} h = elim (Bool-cases (p x)) [
    | inl e ↦ (x, ground arith, e)
    | inr e ↦ elim (Option-cases (position p xs)) [
      | inl n ↦ absurd (ground arith)
      | inr r ↦ let (y, at, good) = position-some p xs r.1 in (y, ground arith, good)
    ]
  ]

  pub count_if_pos :
      (p : A → Bool) (xs : List A) (i : ℕ) (x : A)
      → get_elem? xs i ≡ some x
      → p x ≡ true
      → 1 ≤ count_if p xs
  unfolding count_if
  count_if_pos p [] i x at h = ground arith
  count_if_pos p (y ∷ xs) zero x at h = ground arith
  count_if_pos p (y ∷ xs) (suc i) x at h = omega (arith, count_if_pos p xs i x at h)

  -- A test that at most one element passes finds that element.
  pub position_of_unique :
      (p : A → Bool) (xs : List A) (i : ℕ) (x : A)
      → get_elem? xs i ≡ some x
      → p x ≡ true
      → count_if p xs ≤ 1
      → position p xs ≡ some i
  unfolding count_if position
  position_of_unique p [] i x at h one = ground arith
  position_of_unique p (y ∷ xs) zero x at h one = ground arith
  position_of_unique p (y ∷ xs) (suc i) x at h one = elim (Bool-cases (p y)) [
    | inl e ↦ absurd (ground (arith, count_if_pos p xs i x))
    | inr e ↦ rw (e, position_of_unique p xs i x at h (ground arith))
  ]

  -- A failed search means that no element passes the test.
  pub position-none :
      (p : A → Bool) (xs : List A) (i : ℕ) (x : A)
      → position p xs ≡ none
      → get_elem? xs i ≡ some x
      → p x ≡ false
  unfolding position
  position-none p [] i x h at = absurd (ground (arith, at))
  position-none p (y ∷ ys) zero x h at = elim (Bool-cases (p y)) [
    | inl e ↦ absurd (ground (arith, h, e))
    | inr e ↦ ground (arith, e, at)
  ]
  position-none p (y ∷ ys) (suc i) x h at = elim (Option-cases (position p ys)) [
    | inl n ↦ position-none p ys i x n at
    | inr f ↦ absurd (ground (arith, h, f, Bool-cases (p y)))
  ]
