-- ===== src/Common/Masks.antt =====
-- Masks on words: what `bit_and` keeps of a number.
use Prim.Native.Nat.{
  ℕ, zero, suc, ◌+◌, ◌*◌, ◌/◌, ◌%◌, ◌-◌, ◌≤◌, min, bit_and, bit_and-bitwise, digits,
}
use mathlib.Core.Path.{◌≡◌, refl, ap, ◌∙◌}
use native.Mathlib.Omega.{arith}

-- The digits in common, read up to `n` of them.
abbrev common : ℕ → ℕ → ℕ → ℕ
common n a b = digits (λ c. zero) min n a b

common_more : (n a b : ℕ) → a ≤ n → common (suc n) a b ≡ common n a b
common_more zero zero b h = refl
common_more zero (suc a) b h = absurd (omega arith)
common_more (suc n) zero b h = refl
common_more (suc n) (suc a) b h = omega (arith, common_more n (suc a / 2) (b / 2) (omega arith))

common_stable : (k a b : ℕ) → common (k + a) a b ≡ common a a b
common_stable zero a b = ap (λ n. common n a b) (omega arith)
common_stable (suc k) a b =
    ap (λ n. common n a b) {y = suc (k + a)} (omega arith)
    ∙ common_more (k + a) a b (omega arith)
    ∙ common_stable k a b

pub bit_and-halves : (a b : ℕ) → bit_and a b ≡ bit_and (a / 2) (b / 2) * 2 + min (a % 2) (b % 2)
bit_and-halves zero b = omega (arith, bit_and-bitwise 0 b, bit_and-bitwise 0 (b / 2))
bit_and-halves (suc a) b =
    let half = suc a / 2 in
    let rest : common a half (b / 2) ≡ common half half (b / 2) =
      ap (λ n. common n half (b / 2)) {y = (a - half) + half} (omega arith)
      ∙ common_stable (a - half) half (b / 2) in
    omega (arith, bit_and-bitwise (suc a) b, bit_and-bitwise half (b / 2), rest)

bit_and-le_below : (n a b : ℕ) → a ≤ n → (bit_and a b ≤ a) × (bit_and a b ≤ b)
bit_and-le_below n zero b h =
    (omega (arith, bit_and-bitwise 0 b), omega (arith, bit_and-bitwise 0 b))
bit_and-le_below zero (suc a) b h = absurd (omega arith)
bit_and-le_below (suc n) (suc a) b h =
    let (l, r) = bit_and-le_below n (suc a / 2) (b / 2) (omega arith) in
    (omega (arith, bit_and-halves (suc a) b, l), omega (arith, bit_and-halves (suc a) b, r))

pub bit_and-le_left : (a b : ℕ) → bit_and a b ≤ a
bit_and-le_left a b = (bit_and-le_below a a b (omega arith)).0

pub bit_and-le_right : (a b : ℕ) → bit_and a b ≤ b
bit_and-le_right a b = (bit_and-le_below a a b (omega arith)).1

bit_and-half : (a b : ℕ) → bit_and a b / 2 ≡ bit_and (a / 2) (b / 2)
bit_and-half a b = omega (arith, bit_and-halves a b)

bit_and-right_comm_below : (n a k m : ℕ) → a ≤ n → bit_and (bit_and a k) m ≡ bit_and (bit_and a m) k
bit_and-right_comm_below n zero k m h = omega (
  arith,
  bit_and-le_left (bit_and 0 k) m,
  bit_and-le_left (bit_and 0 m) k,
  bit_and-le_left 0 k,
  bit_and-le_left 0 m,
)
bit_and-right_comm_below zero (suc a) k m h = absurd (omega arith)
bit_and-right_comm_below (suc n) (suc a) k m h =
    let s = suc a in
    omega (
      arith,
      bit_and-halves (bit_and s k) m,
      bit_and-halves (bit_and s m) k,
      bit_and-halves s k,
      bit_and-halves s m,
      ap (λ x. bit_and x (m / 2)) (bit_and-half s k),
      ap (λ x. bit_and x (k / 2)) (bit_and-half s m),
      bit_and-right_comm_below n (s / 2) (k / 2) (m / 2) (omega arith),
    )

pub bit_and-right_comm : (a k m : ℕ) → bit_and (bit_and a k) m ≡ bit_and (bit_and a m) k
bit_and-right_comm a k m = bit_and-right_comm_below a a k m (omega arith)
