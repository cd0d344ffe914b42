-- ===== src/Base/Bits.antt =====
-- `|` of disjoint fields and `&` with a mask, as arithmetic; and checks over small ranges.
use Prim.Native.Nat.{
  ℕ, zero, suc, ◌+◌, ◌*◌, ◌/◌, ◌%◌, ◌^◌, ◌≤◌, ◌<◌, max, bit_or, digits, bit_or-bitwise,
}
use mathlib.Core.Path.{◌≡◌, refl, ap}
use mathlib.Core.Bool.{Bool, true, ◌&&◌}
use mathlib.Core.Logic.{inl, inr}
use native.Mathlib.Nat.{pow-suc}
use native.Mathlib.Omega.{arith}
use vpn_core.Base.Tests.{◌==◌, Bool-cases}

-- `x >> k` and `x & (2 ** k - 1)`.
abbrev pub shr : ℕ → ℕ → ℕ
shr x k = x / 2 ^ k

abbrev pub low_bits : ℕ → ℕ → ℕ
low_bits x k = x % 2 ^ k

-- `x << k`.
abbrev pub shl : ℕ → ℕ → ℕ
shl x k = x * 2 ^ k

abbrev or_digits : ℕ → ℕ → ℕ → ℕ
or_digits n a b = digits (λ y. y) max n a b

or_digits_fuel :
    (left right x y : ℕ) → x ≤ left → x ≤ right → or_digits left x y ≡ or_digits right x y
or_digits_fuel (suc left) (suc right) (suc x) y le_left le_right =
    omega (arith, or_digits_fuel left right (suc x / 2) (y / 2) (omega arith) (omega arith))
or_digits_fuel (suc left) (suc right) zero y le_left le_right = refl
or_digits_fuel (suc left) zero (suc x) y le_left le_right = absurd (omega arith)
or_digits_fuel (suc left) zero zero y le_left le_right = refl
or_digits_fuel zero (suc right) (suc x) y le_left le_right = absurd (omega arith)
or_digits_fuel zero (suc right) zero y le_left le_right = refl
or_digits_fuel zero zero x y le_left le_right = refl

-- The lowest digit of a disjunction, and the rest.
pub bit_or_step : (x y : ℕ) → bit_or x y ≡ bit_or (x / 2) (y / 2) * 2 + max (x % 2) (y % 2)
bit_or_step (suc x) y = omega (
  arith,
  or_digits_fuel x (suc x / 2) (suc x / 2) (y / 2) (omega arith) (omega arith),
  bit_or-bitwise (suc x / 2) (y / 2),
  bit_or-bitwise (suc x) y,
)
bit_or_step zero y = omega (arith, bit_or-bitwise 0 (y / 2), bit_or-bitwise 0 y)

bit_or-zero_fuel : (fuel x : ℕ) → x ≤ fuel → bit_or x 0 ≡ x
bit_or-zero_fuel (suc fuel) (suc x) le =
    omega (arith, bit_or-zero_fuel fuel (suc x / 2) (omega arith), bit_or_step (suc x) 0)
bit_or-zero_fuel zero (suc x) le = absurd (omega arith)
bit_or-zero_fuel fuel zero le = refl

-- `(q << k) | r` is a sum where `r` fits in `k` bits.
pub bit_or-shl : (k q r : ℕ) → r < 2 ^ k → bit_or (shl q k) r ≡ shl q k + r
bit_or-shl zero q r fits = ground (arith, bit_or-zero_fuel q q)
bit_or-shl (suc k) q r fits = ground (
  arith,
  bit_or_step (q * 2 ^ suc k) r,
  pow-suc 2 k,
  ap (λ (t : ℕ). q * t) (pow-suc 2 k),
  bit_or-shl k q (r / 2),
)

-- A test that holds of every number below a bound, decided by evaluation.
unfoldable pub holds_below : (ℕ → Bool) → ℕ → Bool
holds_below test zero = true
holds_below test (suc bound) = holds_below test bound && test bound

pub holds_below_lem :
    (test : ℕ → Bool) (bound value : ℕ)
    → value < bound
    → holds_below test bound ≡ true
    → test value ≡ true
unfolding holds_below
holds_below_lem test zero value less all = absurd (omega arith)
holds_below_lem test (suc bound) value less all = elim (Bool-cases (value == bound)) [
  | inl here ↦ ground (arith, holds_below_lem test bound value)
  | inr below ↦ ground (arith, holds_below_lem test bound value)
]
