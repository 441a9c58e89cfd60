-- ===== src/Base/Bits.antt =====
-- Laws of the bit operations at variables, from their definition digit by digit.
use Prim.Native.Nat.{
  ℕ, zero, suc, ◌+◌, ◌-◌, ◌*◌, ◌/◌, ◌%◌, ◌^◌, ◌≤◌, ◌<◌, min, max, bit_and, bit_or, digits,
  bit_and-bitwise, bit_or-bitwise,
}
use mathlib.Core.Path.{◌≡◌, refl, ap, ◌∙◌}
use native.Mathlib.Nat.{pow-suc, one-le-pow}
use native.Mathlib.Omega.{arith}

-- Fuel beyond the first number changes nothing: one unit of it, then any amount.
module _ (rest : ℕ → ℕ) (op : ℕ → ℕ → ℕ) where
  one_unit : (x y fuel : ℕ) → x ≤ fuel → digits rest op (suc fuel) x y ≡ digits rest op fuel x y
  one_unit zero y zero le = refl
  one_unit zero y (suc fuel) le = refl
  one_unit (suc x) y zero le = absurd (omega arith)
  one_unit (suc x) y (suc fuel) le =
      let low = op (suc x % 2) (y % 2) in
      ap (λ t. t * 2 + low) (one_unit (suc x / 2) (y / 2) fuel (omega arith))

  spare_units :
      (spare fuel more x y : ℕ)
      → more ≡ fuel + spare
      → x ≤ fuel
      → digits rest op more x y ≡ digits rest op fuel x y
  spare_units zero fuel more x y e le = ap (λ k. digits rest op k x y) (omega (arith, e))
  spare_units (suc spare) fuel zero x y e le = absurd (omega (arith, e))
  spare_units (suc spare) fuel (suc more) x y e le =
      one_unit x y more (omega (arith, e, le))
      ∙ spare_units spare fuel more x y (omega (arith, e)) le

  halved :
      (x y : ℕ)
      → digits rest op x (suc x / 2) (y / 2) ≡ digits rest op (suc x / 2) (suc x / 2) (y / 2)
  halved x y =
      spare_units (x - suc x / 2) (suc x / 2) x (suc x / 2) (y / 2) (omega arith) (omega arith)

zero-bit_or : (b : ℕ) → bit_or 0 b ≡ b
zero-bit_or b = bit_or-bitwise 0 b

zero-bit_and : (b : ℕ) → bit_and 0 b ≡ 0
zero-bit_and b = bit_and-bitwise 0 b

bit_or-halves : (x y : ℕ) → bit_or x y ≡ max (x % 2) (y % 2) + 2 * bit_or (x / 2) (y / 2)
bit_or-halves zero y = omega (arith, zero-bit_or (y / 2), zero-bit_or y)
bit_or-halves (suc x) y =
    omega
      (arith, bit_or-bitwise (suc x / 2) (y / 2), bit_or-bitwise (suc x) y, halved (λ t. t) max x y)

bit_and-halves : (x y : ℕ) → bit_and x y ≡ min (x % 2) (y % 2) + 2 * bit_and (x / 2) (y / 2)
bit_and-halves zero y = omega (arith, zero-bit_and (y / 2), zero-bit_and y)
bit_and-halves (suc x) y = omega (
  arith,
  bit_and-bitwise (suc x / 2) (y / 2),
  bit_and-bitwise (suc x) y,
  halved (λ t. zero) min x y,
)

bit_or-zero_below : (n a : ℕ) → a ≤ n → bit_or a 0 ≡ a
bit_or-zero_below n zero h = zero-bit_or 0
bit_or-zero_below zero (suc a) h = absurd (omega arith)
bit_or-zero_below (suc n) (suc a) h =
    omega (arith, bit_or-halves (suc a) 0, bit_or-zero_below n (suc a / 2) (omega arith))

bit_and-zero_below : (n a : ℕ) → a ≤ n → bit_and a 0 ≡ 0
bit_and-zero_below n zero h = zero-bit_and 0
bit_and-zero_below zero (suc a) h = absurd (omega arith)
bit_and-zero_below (suc n) (suc a) h =
    omega (arith, bit_and-halves (suc a) 0, bit_and-zero_below n (suc a / 2) (omega arith))

bit_or_at : (k q a r : ℕ) → a ≡ q * 2 ^ k → r < 2 ^ k → bit_or a r ≡ a + r
bit_or_at zero q a r e h =
    let none_left : r ≡ 0 = omega arith in
    rw none_left (omega (arith, bit_or-zero_below a a (omega arith)))
bit_or_at (suc k) q a r e h =
    let doubled : q * 2 ^ suc k ≡ q * 2 ^ k * 2 = ap (λ t. q * t) (pow-suc 2 k) ∙ omega arith in
    let power : 2 ^ suc k ≡ 2 ^ k * 2 = pow-suc 2 k in
    omega (arith, bit_or-halves a r, bit_or_at k q (a / 2) (r / 2) (omega arith) (omega arith))

-- A number whose low k bits are clear, or-ed with one of k bits.
pub bit_or_fields : (k q r : ℕ) → r < 2 ^ k → bit_or (q * 2 ^ k) r ≡ q * 2 ^ k + r
bit_or_fields k q r h = bit_or_at k q (q * 2 ^ k) r refl h

bit_and_at : (k q a r m : ℕ) → a ≡ q * 2 ^ k + r → r < 2 ^ k → suc m ≡ 2 ^ k → bit_and a m ≡ r
bit_and_at zero q a r m e h l =
    let none_left : m ≡ 0 = omega arith in
    rw none_left (omega (arith, bit_and-zero_below a a (omega arith)))
bit_and_at (suc k) q a r m e h l =
    let doubled : q * 2 ^ suc k ≡ q * 2 ^ k * 2 = ap (λ t. q * t) (pow-suc 2 k) ∙ omega arith in
    let power : 2 ^ suc k ≡ 2 ^ k * 2 = pow-suc 2 k in
    omega (
      arith,
      bit_and-halves a m,
      bit_and_at k q (a / 2) (r / 2) (m / 2) (omega arith) (omega arith) (omega arith),
    )

-- The mask of the low k bits is the remainder by 2 ^ k.
pub bit_and_mask : (k a : ℕ) → bit_and a (2 ^ k - 1) ≡ a % 2 ^ k
bit_and_mask k a =
    let some_power : 1 ≤ 2 ^ k = one-le-pow k 2 (omega arith) in
    bit_and_at k (a / 2 ^ k) a (a % 2 ^ k) (2 ^ k - 1) (grind arith) (grind arith) (omega arith)

-- `x & ~7` on 64 bits.
pub bit_and_not_seven : (a : ℕ) → a < 2 ^ 64 → bit_and a (2 ^ 64 - 8) ≡ a / 8 * 8
bit_and_not_seven a h = omega (
  arith,
  bit_and-halves a (2 ^ 64 - 8),
  bit_and-halves (a / 2) (2 ^ 63 - 4),
  bit_and-halves (a / 2 / 2) (2 ^ 62 - 2),
  bit_and_mask 61 (a / 2 / 2 / 2),
)
