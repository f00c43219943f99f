-- ===== src/Common/Words.antt =====
-- Machine integers. A word is a natural number, and the arithmetic writes its wrap-around out.
use Prim.Native.Nat.{ℕ, ◌+◌, ◌-◌, ◌%◌, ◌^◌, ◌<◌}
use mathlib.Core.Path.{◌≡◌}
use mathlib.Core.Bool.{Bool, true, false}
use mathlib.Core.Option.{Option, none, some}
use native.Mathlib.Omega.{arith}
use hisi_rf_ws.Common.Tests.{if◌then◌else◌, ltb}

abbrev pub u32_mod : ℕ
u32_mod = 2 ^ 32

abbrev pub u64_mod : ℕ
u64_mod = 2 ^ 64

abbrev pub u32_max : ℕ
u32_max = 2 ^ 32 - 1

abbrev pub u64_max : ℕ
u64_max = 2 ^ 64 - 1

-- `value += 1` and `value -= 1` on a u32 (release arithmetic wraps).
abbrev pub inc32 : ℕ → ℕ
inc32 n = (n + 1) % u32_mod

abbrev pub dec32 : ℕ → ℕ
dec32 n = (n + u32_mod - 1) % u32_mod

abbrev pub inc64 : ℕ → ℕ
inc64 n = (n + 1) % u64_mod

abbrev pub dec64 : ℕ → ℕ
dec64 n = (n + u64_mod - 1) % u64_mod

-- `checked_add(1)` and `saturating_add(1)` on a u64.
abbrev pub checked_inc64 : ℕ → Option ℕ
checked_inc64 n = if ltb n u64_max then some (n + 1) else none

abbrev pub saturating_inc64 : ℕ → ℕ
saturating_inc64 n = if ltb n u64_max then n + 1 else n

abbrev pub saturating_inc32 : ℕ → ℕ
saturating_inc32 n = if ltb n u32_max then n + 1 else n

-- An `i32`, as an integer: `negsuc n` is -(n + 1).
pub data ℤ : Type 0 where
  pos : ℕ → ℤ
  negsuc : ℕ → ℤ

-- `status == 0`
abbrev pub is_zero : ℤ → Bool
is_zero (pos n) = if ltb 0 n then false else true
is_zero (negsuc n) = false

-- `status as i32` for a u32: two's complement.
abbrev pub as_i32 : ℕ → ℤ
as_i32 n = if ltb n (2 ^ 31) then pos n else negsuc (2 ^ 32 - 1 - n)

pub as_i32_zero : (n : ℕ) → n < u32_mod → is_zero (as_i32 n) ≡ true → n ≡ 0
as_i32_zero n h e = ground arith
