-- ===== src/Common/Rings.antt =====
-- Arrays used as rings: the entries from a head on, in order, and what a write or a step of the
-- head does to them.
use Prim.Native.Nat.{ℕ, zero, suc, ◌+◌, ◌-◌, ◌%◌, ◌≤◌, ◌<◌}
use mathlib.Core.Path.{◌≡◌, refl, ap, ap₂, sym, ◌∙◌}
use mathlib.Core.Logic.{◌≢◌, ◌⊎◌, inl, inr}
use mathlib.Core.List.{List, [], ◌∷◌, ◌++◌}
use native.Mathlib.Nat.{mod-eq_of_lt, mod-eq-sub-mod, mod-lt}
use native.Mathlib.Decide.{dec_lt}
use native.Mathlib.Omega.{arith}
use hisi_rf_ws.Common.Lists.{length, set}
use hisi_rf_ws.Common.Columns.{get_or}

module _ {ℓ} {A : Type ℓ} where
  -- The values of `f` below `n`.
  abbrev pub tabulate : ℕ → (ℕ → A) → List A
  tabulate zero f = []
  tabulate (suc n) f = f 0 ∷ tabulate n (λ k. f (suc k))

  pub tabulate_ext :
      (n : ℕ) (f g : ℕ → A) → ((k : ℕ) → k < n → f k ≡ g k) → tabulate n f ≡ tabulate n g
  tabulate_ext zero f g h = refl
  tabulate_ext (suc n) f g h =
      ap₂ ◌∷◌ (h 0 (omega arith))
        (tabulate_ext n (λ k. f (suc k)) (λ k. g (suc k)) (λ k p. h (suc k) (omega arith)))

  pub tabulate_snoc : (n : ℕ) (f : ℕ → A) → tabulate (suc n) f ≡ tabulate n f ++ (f n ∷ [])
  tabulate_snoc zero f = refl
  tabulate_snoc (suc n) f = ap (λ xs. f 0 ∷ xs) (tabulate_snoc n (λ k. f (suc k)))

  pub get_or-set_same :
      (xs : List A) (i : ℕ) (v d : A) → i < length xs → get_or (set xs i v) i d ≡ v
  get_or-set_same [] i v d h = elim h [ ]
  get_or-set_same (x ∷ xs) zero v d h = refl
  get_or-set_same (x ∷ xs) (suc i) v d h = get_or-set_same xs i v d (omega arith)

  pub get_or-set_other :
      (xs : List A) (i j : ℕ) (v d : A) → i ≢ j → get_or (set xs i v) j d ≡ get_or xs j d
  get_or-set_other [] i j v d h = refl
  get_or-set_other (x ∷ xs) zero zero v d h = absurd (h refl)
  get_or-set_other (x ∷ xs) zero (suc j) v d h = refl
  get_or-set_other (x ∷ xs) (suc i) zero v d h = refl
  get_or-set_other (x ∷ xs) (suc i) (suc j) v d h = get_or-set_other xs i j v d (λ e. h (ap suc e))

-- An index below twice the size of the ring.
pub wrap_cases :
    (size n : ℕ)
    → n < size + size
    → ((n < size) × (n % size ≡ n)) ⊎ ((size ≤ n) × (n % size ≡ n - size))
wrap_cases size n h = elim (dec_lt n size) [
  | yes p ↦ inl (p, mod-eq_of_lt p)
  | no p ↦ inr (
    omega arith,
    mod-eq-sub-mod {n = n} {m = size} (omega arith) ∙ mod-eq_of_lt {n = n - size} (omega arith),
  )
]

pub wrap_next :
    (size h k : ℕ) → h < size → k < size → ((h + 1) % size + k) % size ≡ (h + suc k) % size
wrap_next size h k hh hk = elim (wrap_cases size (h + 1) (omega arith)) [
  | inl a ↦ ap (λ n. n % size) (omega (arith, a))
  | inr a ↦ elim (wrap_cases size (h + suc k) (omega arith)) [
    | inl b ↦ absurd (omega (arith, a, b))
    | inr b ↦
        rw (a.1)
          (omega (arith, a, b, mod-eq_of_lt {n = h + 1 - size + k} {m = size} (omega (arith, a))))
  ]
]

pub wrap_apart : (size h k n : ℕ) → h < size → k < n → n < size → (h + n) % size ≢ (h + k) % size
wrap_apart size h k n hh hk hn =
    let a = wrap_cases size (h + n) (omega arith) in
    let b = wrap_cases size (h + k) (omega arith) in λ e. ground (arith, a, b, e)

module _ {ℓ} {A : Type ℓ} where
  -- The `n` entries from index `h` on, round the end of the array.
  abbrev pub ring_items : List A → A → ℕ → ℕ → ℕ → List A
  ring_items xs d size h n = tabulate n (λ k. get_or xs ((h + k) % size) d)

  -- A write just behind the last entry adds it to them.
  pub ring_items-push :
      (xs : List A) (d : A) (size h n : ℕ) (v : A)
      → size ≡ length xs
      → h < size
      → n < size
      → ring_items (set xs ((h + n) % size) v) d size h (suc n)
        ≡ ring_items xs d size h n ++ (v ∷ [])
  ring_items-push xs d size h n v fits hh hn =
      let f = λ (k : ℕ). get_or (set xs ((h + n) % size) v) ((h + k) % size) d in
      tabulate_snoc n f
      ∙ ap₂ (λ ys y. ys ++ (y ∷ []))
          (tabulate_ext n f (λ k. get_or xs ((h + k) % size) d)
            (λ k p.
              get_or-set_other xs ((h + n) % size) ((h + k) % size) v d
                (wrap_apart size h k n hh p hn)))
          (get_or-set_same xs ((h + n) % size) v d
            (omega (arith, mod-lt (h + n) {m = size} (omega arith))))

  -- A step of the head drops the first entry.
  pub ring_items-pop :
      (xs : List A) (d : A) (size h n : ℕ)
      → h < size
      → n < size
      → ring_items xs d size h (suc n) ≡ get_or xs h d ∷ ring_items xs d size ((h + 1) % size) n
  ring_items-pop xs d size h n hh hn =
      ap₂ ◌∷◌ (ap (λ i. get_or xs i d) (ap (λ i. i % size) (omega arith) ∙ mod-eq_of_lt hh)) (
        tabulate_ext n (λ k. get_or xs ((h + suc k) % size) d)
          (λ k. get_or xs (((h + 1) % size + k) % size) d)
          (λ k p. ap (λ i. get_or xs i d) (sym (wrap_next size h k hh (omega arith)))))

  -- A write elsewhere leaves them.
  pub ring_items-set :
      (xs : List A) (d : A) (size h n i : ℕ) (v : A)
      → ((k : ℕ) → k < n → i ≢ (h + k) % size)
      → ring_items (set xs i v) d size h n ≡ ring_items xs d size h n
  ring_items-set xs d size h n i v away =
      tabulate_ext n (λ k. get_or (set xs i v) ((h + k) % size) d)
        (λ k. get_or xs ((h + k) % size) d)
        (λ k p. get_or-set_other xs i ((h + k) % size) v d (away k p))
