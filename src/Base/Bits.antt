-- ===== src/Base/Bits.antt =====
-- Laws of the bit operations at variables.
use Prim.Native.Nat.{
  ℕ, zero, suc, ◌+◌, ◌*◌, ◌/◌, ◌%◌, ◌^◌, ◌-◌, ◌≤◌, ◌<◌, min, bit_and, bit_xor, digits, bitwise,
  bit_and-bitwise, bit_xor-bitwise, differ,
}
use mathlib.Core.Path.{◌≡◌, refl, ap, sym, ◌∙◌}
use native.Mathlib.Nat.{pow-suc, mod-lt, mod-eq_of_lt, div-add-mod', mul-add-mod_self_right}
use mathlib.Core.Bool.{Bool, true, ◌&&◌}
use native.Mathlib.Omega.{arith}

-- Over a small range every value is checked by evaluation.
unfoldable pub all_below : ℕ → (ℕ → Bool) → Bool
all_below zero p = true
all_below (suc n) p = p n && all_below n p

pub all_below_sound :
    (p : ℕ → Bool) (bound x : ℕ) → x < bound → all_below bound p ≡ true → p x ≡ true
unfolding all_below
all_below_sound p (suc k) x below checked = ground (arith, all_below_sound p k x)
all_below_sound p zero x below checked = absurd (omega arith)

-- The digits of `x` need no more than `x` fuel.
spare_fuel :
    (pad : ℕ → ℕ) (op : ℕ → ℕ → ℕ) (x y k l : ℕ)
    → x ≤ k
    → x ≤ l
    → digits pad op k x y ≡ digits pad op l x y
spare_fuel pad op zero y zero zero hk hl = refl
spare_fuel pad op zero y zero (suc l) hk hl = refl
spare_fuel pad op zero y (suc k) zero hk hl = refl
spare_fuel pad op zero y (suc k) (suc l) hk hl = refl
spare_fuel pad op (suc x) y zero l hk hl = absurd (omega arith)
spare_fuel pad op (suc x) y (suc k) zero hk hl = absurd (omega arith)
spare_fuel pad op (suc x) y (suc k) (suc l) hk hl =
    ap (λ (higher : ℕ). higher * 2 + op (suc x % 2) (y % 2))
      (spare_fuel pad op (suc x / 2) (y / 2) k l (omega arith) (omega arith))

pub lowest_digit :
    (pad : ℕ → ℕ) (op : ℕ → ℕ → ℕ) (x y : ℕ)
    → bitwise pad op (suc x) y ≡ op (suc x % 2) (y % 2) + 2 * bitwise pad op (suc x / 2) (y / 2)
lowest_digit pad op x y =
    let half : suc x / 2 ≤ x = omega arith in
    omega (arith, spare_fuel pad op (suc x / 2) (y / 2) x (suc x / 2) half (omega arith))

pub and_step : (x y : ℕ) → bit_and x y ≡ min (x % 2) (y % 2) + 2 * bit_and (x / 2) (y / 2)
and_step (suc x) y = simp bit_and-bitwise (lowest_digit (λ u. 0) min x y)
and_step zero y = simp bit_and-bitwise (omega arith)

differ-bits : (p q : ℕ) → p < 2 → q < 2 → differ p q ≡ (p + q) % 2
differ-bits zero q hp hq = omega arith
differ-bits (suc zero) zero hp hq = refl
differ-bits (suc zero) (suc zero) hp hq = refl
differ-bits (suc zero) (suc (suc q)) hp hq = absurd (omega arith)
differ-bits (suc (suc p)) q hp hq = absurd (omega arith)

pub zero-bit_xor : (b : ℕ) → bit_xor 0 b ≡ b
zero-bit_xor b = simp bit_xor-bitwise

-- The law for the lowest digit; the other laws go by it.
pub bit_xor_step : (a b : ℕ) → bit_xor a b ≡ bit_xor (a / 2) (b / 2) * 2 + (a + b) % 2
bit_xor_step zero b = omega (arith, zero-bit_xor b, zero-bit_xor (b / 2))
bit_xor_step (suc a) b = omega (
  arith,
  bit_xor-bitwise (suc a) b,
  bit_xor-bitwise (suc a / 2) (b / 2),
  lowest_digit (λ u. u) differ a b,
  differ-bits (suc a % 2) (b % 2),
)

xor_comm_fuel : (n a b : ℕ) → a ≤ n → b ≤ n → bit_xor a b ≡ bit_xor b a
xor_comm_fuel zero a b p q = ground arith
xor_comm_fuel (suc n) a b p q = omega (
  arith,
  bit_xor_step a b,
  bit_xor_step b a,
  xor_comm_fuel n (a / 2) (b / 2) (omega arith) (omega arith),
)

pub xor_comm : (a b : ℕ) → bit_xor a b ≡ bit_xor b a
xor_comm a b = xor_comm_fuel (a + b) a b (omega arith) (omega arith)

pub xor-zero : (a : ℕ) → bit_xor a 0 ≡ a
xor-zero a = omega (arith, xor_comm a 0, zero-bit_xor a)

-- Halving commutes with `^`.
pub xor-half : (a b : ℕ) → bit_xor a b / 2 ≡ bit_xor (a / 2) (b / 2)
xor-half a b = omega (arith, bit_xor_step a b)

pub xor-double : (a b : ℕ) → bit_xor (a * 2) (b * 2) ≡ bit_xor a b * 2
xor-double a b =
    let e : a * 2 / 2 ≡ a = omega arith in
    let f : b * 2 / 2 ≡ b = omega arith in ground (arith, bit_xor_step (a * 2) (b * 2))

xor_assoc_fuel :
    (n a b c : ℕ) → a ≤ n → b ≤ n → c ≤ n → bit_xor (bit_xor a b) c ≡ bit_xor a (bit_xor b c)
xor_assoc_fuel zero a b c p q r = ground (arith, xor-zero 0)
xor_assoc_fuel (suc n) a b c p q r = ground (
  arith,
  bit_xor_step a b,
  bit_xor_step b c,
  bit_xor_step (bit_xor a b) c,
  bit_xor_step a (bit_xor b c),
  xor-half a b,
  xor-half b c,
  xor_assoc_fuel n (a / 2) (b / 2) (c / 2) (omega arith) (omega arith) (omega arith),
)

pub xor_assoc : (a b c : ℕ) → bit_xor (bit_xor a b) c ≡ bit_xor a (bit_xor b c)
xor_assoc a b c = xor_assoc_fuel (a + b + c) a b c (omega arith) (omega arith) (omega arith)

xor_self_fuel : (n a : ℕ) → a ≤ n → bit_xor a a ≡ 0
xor_self_fuel zero a p = ground (arith, xor-zero 0)
xor_self_fuel (suc n) a p = omega (arith, bit_xor_step a a, xor_self_fuel n (a / 2) (omega arith))

pub xor_self : (a : ℕ) → bit_xor a a ≡ 0
xor_self a = xor_self_fuel a a (omega arith)

pub xor_cancel : (a b : ℕ) → bit_xor a (bit_xor a b) ≡ b
xor_cancel a b = sym (xor_assoc a a b) ∙ ap (λ t. bit_xor t b) (xor_self a) ∙ zero-bit_xor b

pub xor_left_injective : (a b c : ℕ) → bit_xor a b ≡ bit_xor a c → b ≡ c
xor_left_injective a b c e = sym (xor_cancel a b) ∙ ap (bit_xor a) e ∙ xor_cancel a c

pub pow_suc_mul : (k a : ℕ) → a * 2 ^ suc k ≡ a * 2 ^ k * 2
pow_suc_mul k a = omega (arith, ap (λ (t : ℕ). a * t) (pow-suc 2 k))

pub xor_right_comm : (a b c : ℕ) → bit_xor (bit_xor a b) c ≡ bit_xor (bit_xor a c) b
xor_right_comm a b c = xor_assoc a b c ∙ ap (bit_xor a) (xor_comm b c) ∙ sym (xor_assoc a c b)

pub xor_right_injective : (a b c : ℕ) → bit_xor a c ≡ bit_xor b c → a ≡ b
xor_right_injective a b c e = xor_left_injective c a b (xor_comm c a ∙ e ∙ xor_comm b c)

-- `(x ^ y) * 2^k`, `(x ^ y) / 2^k` and `(x ^ y) % 2^k`.
pub xor-mul_pow : (k a b : ℕ) → bit_xor (a * 2 ^ k) (b * 2 ^ k) ≡ bit_xor a b * 2 ^ k
xor-mul_pow zero a b = ground arith
xor-mul_pow (suc k) a b = ground (
  arith,
  pow_suc_mul k a,
  pow_suc_mul k b,
  pow_suc_mul k (bit_xor a b),
  xor-double (a * 2 ^ k) (b * 2 ^ k),
  xor-mul_pow k a b,
)

-- Two fields side by side are combined field by field.
pub xor_fields :
    (k p q r s : ℕ)
    → r < 2 ^ k
    → s < 2 ^ k
    → bit_xor (p * 2 ^ k + r) (q * 2 ^ k + s) ≡ bit_xor p q * 2 ^ k + bit_xor r s
xor_fields zero p q r s hr hs = ground (arith, xor-zero 0)
xor_fields (suc k) p q r s hr hs = ground (
  arith,
  pow-suc 2 k,
  pow_suc_mul k p,
  pow_suc_mul k q,
  pow_suc_mul k (bit_xor p q),
  bit_xor_step (p * 2 ^ suc k + r) (q * 2 ^ suc k + s),
  bit_xor_step r s,
  xor_fields k p q (r / 2) (s / 2) (omega arith) (omega arith),
)

pub xor-lt : (k r s : ℕ) → r < 2 ^ k → s < 2 ^ k → bit_xor r s < 2 ^ k
xor-lt zero r s hr hs = ground (arith, xor-zero 0)
xor-lt (suc k) r s hr hs =
    ground
      (arith, pow-suc 2 k, bit_xor_step r s, xor-lt k (r / 2) (s / 2) (omega arith) (omega arith))

pub pow_pos : (k : ℕ) → 0 < 2 ^ k
pow_pos zero = omega arith
pow_pos (suc k) = omega (arith, pow-suc 2 k, pow_pos k)

pub mod-pow-suc : (k x : ℕ) → x % 2 ^ suc k ≡ x / 2 % 2 ^ k * 2 + x % 2
mod-pow-suc k x =
    let m : ℕ = 2 ^ k in
    let q : ℕ = x / 2 / m in
    let t : ℕ = x / 2 % m * 2 + x % 2 in
    let small : t < 2 ^ suc k = omega (arith, pow-suc 2 k, mod-lt (x / 2) (pow_pos k)) in
    let split : x ≡ q * 2 ^ suc k + t = omega (arith, div-add-mod' (x / 2) m, pow_suc_mul k q) in
    ap (λ (n : ℕ). n % 2 ^ suc k) split
    ∙ mul-add-mod_self_right q (2 ^ suc k) t
    ∙ mod-eq_of_lt small

and_zero_from : (bound x : ℕ) → x ≤ bound → bit_and x 0 ≡ 0
and_zero_from bound zero h = refl
and_zero_from (suc bound) (suc x) h =
    let upper = and_zero_from bound (suc x / 2) (omega arith) in
    omega (arith, and_step (suc x) 0, upper)
and_zero_from zero (suc x) h = absurd (omega arith)

pub bit_and-zero : (a : ℕ) → bit_and a 0 ≡ 0
bit_and-zero a = and_zero_from a a (omega arith)

-- A mask of `k` ones is the remainder by `2 ^ k`.
pub bit_and_mask : (k a : ℕ) → bit_and a (2 ^ k - 1) ≡ a % 2 ^ k
bit_and_mask zero a = ground (arith, bit_and-zero a)
bit_and_mask (suc k) a = ground (
  arith,
  pow-suc 2 k,
  pow_pos k,
  mod-pow-suc k a,
  and_step a (2 ^ suc k - 1),
  bit_and_mask k (a / 2),
)

pub mask16-lt : (a : ℕ) → bit_and a 0xFFFF < 2 ^ 16
mask16-lt a = omega (arith, bit_and_mask 16 a)
