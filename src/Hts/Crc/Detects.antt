-- ===== src/Hts/Crc/Detects.antt =====
-- What `crc16` of api/hts/protocol.py tells apart.
use mathlib.Core.List.{foldl, foldl-append}
use aegis_hass.Base.{
  ℕ, zero, suc, ◌+◌, ◌-◌, ◌*◌, ◌^◌, ◌≤◌, ◌<◌, bit_xor, ◌≡◌, sym, ◌∙◌, ltb, Bool-cases, inl, inr, [],
  ◌∷◌, ◌++◌, Bytes, IsByte, All, All-append, arith,
}
use aegis_hass.Base.Bits.{
  xor_left_injective, xor_right_injective, xor_fields, xor-zero, zero-bit_xor, xor-lt, bit_xor_step,
  xor_assoc,
}
use aegis_hass.Hts.Crc.{crc16}
use aegis_hass.Hts.Crc.Bitwise.{
  shift_bit, shift_bits, shift_bit-lt, bitwise_step, bitwise_step-lt, crc16_bitwise,
  crc16-crc16_bitwise, shift_bits-low, shift_bits-lt,
}

-- The polynomial is odd, so the low bit of the shifted register tells whether a bit fell out.
shift_bit_low : (x : ℕ) → x < 2 ^ 15 → shift_bit x ≡ x * 2
unfolding shift_bit
shift_bit_low x h = ground arith

shift_bit_high : (x : ℕ) → 2 ^ 15 ≤ x → shift_bit x ≡ bit_xor (x * 2 - 0x10000) 0x1021
unfolding shift_bit
shift_bit_high x h = ground arith

shift_bit_injective : (x y : ℕ) → x < 2 ^ 16 → y < 2 ^ 16 → shift_bit x ≡ shift_bit y → x ≡ y
shift_bit_injective x y hx hy e = elim (Bool-cases (ltb x 0x8000)) [
  | inl p ↦ ground (
    arith,
    p,
    shift_bit_low x,
    shift_bit_low y,
    shift_bit_high y,
    bit_xor_step (y * 2 - 0x10000) 0x1021,
  )
  | inr p ↦ ground (
    arith,
    p,
    shift_bit_high x,
    shift_bit_low y,
    shift_bit_high y,
    bit_xor_step (x * 2 - 0x10000) 0x1021,
    xor_right_injective (x * 2 - 0x10000) (y * 2 - 0x10000) 0x1021,
  )
]

shift_bits_injective :
    (n x y : ℕ) → x < 2 ^ 16 → y < 2 ^ 16 → shift_bits n x ≡ shift_bits n y → x ≡ y
unfolding shift_bits
shift_bits_injective zero x y hx hy e = e
shift_bits_injective (suc n) x y hx hy e =
    shift_bit_injective x y hx hy
      (shift_bits_injective n (shift_bit x) (shift_bit y) (shift_bit-lt x hx) (shift_bit-lt y hy) e)

-- Two registers that one byte brings together were equal.
bitwise_step_injective :
    (x y b : ℕ) → x < 2 ^ 16 → y < 2 ^ 16 → b < 256 → bitwise_step x b ≡ bitwise_step y b → x ≡ y
unfolding bitwise_step
bitwise_step_injective x y b hx hy hb e = xor_right_injective x y (b * 2 ^ 8) (
    shift_bits_injective 8 _ _ (xor-lt 16 x (b * 2 ^ 8) hx (omega arith))
      (xor-lt 16 y (b * 2 ^ 8) hy (omega arith)) e)

loop_injective :
    (x y : ℕ) (ys : Bytes)
    → x < 2 ^ 16
    → y < 2 ^ 16
    → All IsByte ys
    → foldl bitwise_step x ys ≡ foldl bitwise_step y ys
    → x ≡ y
loop_injective x y [] hx hy h e = e
loop_injective x y (b ∷ ys) hx hy (hb, hys) e = bitwise_step_injective x y b hx hy hb (
    loop_injective (bitwise_step x b) (bitwise_step y b) ys (bitwise_step-lt x b hx hb)
      (bitwise_step-lt y b hy hb) hys e)

-- Two bytes in a row enter the register as one 16-bit word.
two_steps :
    (x a b : ℕ)
    → x < 2 ^ 16
    → a < 256
    → b < 256
    → bitwise_step (bitwise_step x a) b ≡ shift_bits 8 (shift_bits 8 (bit_xor x (a * 256 + b)))
unfolding bitwise_step
two_steps x a b hx ha hb =
    let pair : bit_xor (a * 256) b ≡ a * 256 + b =
      ground (arith, xor_fields 8 a 0 0 b, xor-zero a, zero-bit_xor b) in
    let inner : bit_xor x (a * 256) < 2 ^ 16 = xor-lt 16 x (a * 256) hx (omega arith) in
    rw (← pair, ← xor_assoc x (a * 256) b, shift_bits-low (bit_xor x (a * 256)) b inner hb)

two_steps_injective :
    (x a b c d : ℕ)
    → x < 2 ^ 16
    → a < 256
    → b < 256
    → c < 256
    → d < 256
    → bitwise_step (bitwise_step x a) b ≡ bitwise_step (bitwise_step x c) d
    → (a ≡ c) × (b ≡ d)
two_steps_injective x a b c d hx ha hb hc hd e =
    let w : ℕ = bit_xor x (a * 256 + b) in
    let v : ℕ = bit_xor x (c * 256 + d) in
    let hw : w < 2 ^ 16 = xor-lt 16 x (a * 256 + b) hx (omega arith) in
    let hv : v < 2 ^ 16 = xor-lt 16 x (c * 256 + d) hx (omega arith) in
    let shifted : shift_bits 8 (shift_bits 8 w) ≡ shift_bits 8 (shift_bits 8 v) =
      sym (two_steps x a b hx ha hb) ∙ e ∙ two_steps x c d hx hc hd in
    let same : w ≡ v =
      shift_bits_injective 8 w v hw hv
        (shift_bits_injective 8 _ _ (shift_bits-lt 8 w hw) (shift_bits-lt 8 v hv) shifted) in
    omega (arith, xor_left_injective x (a * 256 + b) (c * 256 + d) same)

loop-lt : (x : ℕ) (xs : Bytes) → x < 2 ^ 16 → All IsByte xs → foldl bitwise_step x xs < 2 ^ 16
loop-lt x [] hx h = hx
loop-lt x (b ∷ xs) hx (hb, h) = loop-lt (bitwise_step x b) xs (bitwise_step-lt x b hx hb) h

-- Two byte strings that differ in no more than two neighbouring bytes have different checksums:
-- where the checksums agree, so do the two bytes.
pub crc16_detects_burst :
    (xs ys : Bytes) (a b c d : ℕ)
    → All IsByte xs
    → All IsByte ys
    → All IsByte (a ∷ b ∷ c ∷ d ∷ [])
    → crc16 (xs ++ (a ∷ b ∷ ys)) ≡ crc16 (xs ++ (c ∷ d ∷ ys))
    → (a ≡ c) × (b ≡ d)
crc16_detects_burst xs ys a b c d hx hy (ha, (hb, (hc, (hd, _)))) e =
    two_steps_injective state a b c d state-lt ha hb hc hd (
      loop_injective _ _ ys (bitwise_step-lt _ b (bitwise_step-lt _ a state-lt ha) hb)
        (bitwise_step-lt _ d (bitwise_step-lt _ c state-lt hc) hd) hy
        (sym (split a b ha hb) ∙ e ∙ split c d hc hd))
  where
    state : ℕ
    state = foldl bitwise_step 0xA001 xs

    state-lt : state < 2 ^ 16
    state-lt = loop-lt 0xA001 xs (omega arith) hx

    split :
        (p q : ℕ)
        → p < 256
        → q < 256
        → crc16 (xs ++ (p ∷ q ∷ ys)) ≡ foldl bitwise_step (bitwise_step (bitwise_step state p) q) ys
    split p q hp hq =
        crc16-crc16_bitwise _ (All-append IsByte xs (p ∷ q ∷ ys) hx (hp, (hq, hy)))
        ∙ unfold crc16_bitwise in foldl-append bitwise_step 0xA001 xs (p ∷ q ∷ ys)
