-- ===== src/Base/BitOr.antt =====
-- `|` of a number and one whose bits stand higher.
use Prim.Native.Nat.{ℕ, zero, suc, ◌+◌, ◌*◌, ◌/◌, ◌%◌, ◌^◌, ◌<◌, max, bit_or, bit_or-bitwise}
use mathlib.Core.Path.{◌≡◌, ap, ◌∙◌}
use native.Mathlib.Nat.{pow-suc}
use native.Mathlib.Omega.{arith}
use aegis_hass.Base.Bits.{lowest_digit, pow_suc_mul}

or_step : (x y : ℕ) → bit_or x y ≡ max (x % 2) (y % 2) + 2 * bit_or (x / 2) (y / 2)
or_step (suc x) y = simp bit_or-bitwise (lowest_digit (λ u. u) max x y)
or_step zero y = simp bit_or-bitwise (omega arith)

zero-bit_or : (y : ℕ) → bit_or 0 y ≡ y
zero-bit_or y = simp bit_or-bitwise

-- Bits that do not meet add up.
pub bit_or-disjoint : (k x y : ℕ) → x < 2 ^ k → bit_or x (y * 2 ^ k) ≡ x + y * 2 ^ k
bit_or-disjoint zero x y h =
    let low : x ≡ 0 = omega arith in
    let high : y * 1 ≡ y = omega arith in rw (low, high) (omega (arith, zero-bit_or y))
bit_or-disjoint (suc k) x y h =
    let high : ℕ = y * 2 ^ k in
    let half : high * 2 / 2 ≡ high = omega arith in
    let small : x / 2 < 2 ^ k = omega (arith, pow-suc 2 k) in
    let upper : bit_or (x / 2) (high * 2 / 2) ≡ x / 2 + high =
      ap (bit_or (x / 2)) half ∙ bit_or-disjoint k (x / 2) y small in
    rw (pow_suc_mul k y) (omega (arith, or_step x (high * 2), upper))
