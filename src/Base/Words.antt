-- ===== src/Base/Words.antt =====
-- Unsigned machine words of `w` bits, as the language's integer types have them.
use Prim.Native.Nat.{ℕ, zero, suc, ◌+◌, ◌-◌, ◌*◌, ◌%◌, ◌^◌, ◌≤◌, ◌<◌, min}
use mathlib.Core.Path.{◌≡◌, refl}
use native.Mathlib.Nat.{mul-le-mul_left}
use native.Mathlib.Decide.{dec_le}
use native.Mathlib.Omega.{arith}

-- The largest value, `uN::MAX`.
abbrev pub max_value : ℕ → ℕ
max_value w = 2 ^ w - 1

-- `a + b` on a word, which wraps in a build without overflow checks.
unfoldable pub wrapping_add : ℕ → ℕ → ℕ → ℕ
wrapping_add w a b = (a + b) % 2 ^ w

-- `a.saturating_add(b)` and `a.saturating_mul(b)`.
unfoldable pub saturating_add : ℕ → ℕ → ℕ → ℕ
saturating_add w a b = min (a + b) (max_value w)

unfoldable pub saturating_mul : ℕ → ℕ → ℕ → ℕ
saturating_mul w a b = min (a * b) (max_value w)

-- `n.saturated_into()`: the value where it fits, the largest value where it does not.
unfoldable pub saturated_into : ℕ → ℕ → ℕ
saturated_into w n = min n (max_value w)

pub wrapping_add-eq : (w a b : ℕ) → a + b < 2 ^ w → wrapping_add w a b ≡ a + b
unfolding wrapping_add
wrapping_add-eq w a b h = grind arith

-- A sum of two numbers that fit wraps at most once.
pub wrapping_add-wraps :
    (w a b : ℕ) → a < 2 ^ w → b < 2 ^ w → 2 ^ w ≤ a + b → wrapping_add w a b + 2 ^ w ≡ a + b
unfolding wrapping_add
wrapping_add-wraps w a b ha hb h = grind arith

pub saturating_mul_mono :
    (w a m n : ℕ)
    → m ≤ n
    → saturating_mul w a (saturated_into w m) ≤ saturating_mul w a (saturated_into w n)
unfolding saturating_mul saturated_into
saturating_mul_mono w a m n h =
    omega
      (arith, mul-le-mul_left {m = min m (max_value w)} {n = min n (max_value w)} a (omega arith))

-- A positive factor: what saturates before the product saturates in it.
pub saturating_mul-saturated_into :
    (w a n : ℕ) → 0 < a → saturating_mul w a (saturated_into w n) ≡ min (a * n) (2 ^ w - 1)
unfolding saturating_mul saturated_into
saturating_mul-saturated_into w zero n h = absurd (omega (arith, h))
saturating_mul-saturated_into w (suc a) n h = elim (dec_le n (2 ^ w - 1)) [
  | yes le ↦ let e : min n (2 ^ w - 1) ≡ n = omega (arith, le) in rw e refl
  | no gt ↦
      let e : min n (2 ^ w - 1) ≡ 2 ^ w - 1 = omega (arith, gt) in
      rw e (saturated (2 ^ w - 1) (omega (arith, gt)))
]
  where
    saturated : (m : ℕ) → m < n → min (suc a * m) m ≡ min (suc a * n) m
    saturated m lt = grind arith

-- A positive amount times a positive count is positive, unless the words have no bit.
pub saturating_mul-pos :
    (w a n : ℕ) → 1 < 2 ^ w → 0 < a → 0 < n → 0 < saturating_mul w a (saturated_into w n)
unfolding saturating_mul saturated_into
saturating_mul-pos w a n hw ha hn = grind arith
