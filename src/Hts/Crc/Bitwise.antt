-- ===== src/Hts/Crc/Bitwise.antt =====
-- The table-driven `crc16` against the CRC that shifts one bit at a time.
use mathlib.Core.List.{foldl}
use aegis_hass.Base.{
  ℕ, zero, suc, ◌+◌, ◌-◌, ◌*◌, ◌/◌, ◌%◌, ◌^◌, ◌≤◌, ◌<◌, bit_and, bit_xor, ◌≡◌, refl, sym, true, ltb,
  ◌==◌, ==_iff, if◌then◌else◌, Bool-cases, inl, inr, [], ◌∷◌, Bytes, IsByte, All, arith,
}
use aegis_hass.Base.Bits.{
  all_below, all_below_sound, xor_right_comm, pow_pos, pow_suc_mul, xor-zero, xor_fields, xor-lt,
  bit_and_mask, mask16-lt, xor-double, zero-bit_xor,
}
use aegis_hass.Hts.Crc.{crc_entry, crc_step, crc16}

-- One shift of the 16-bit register by the polynomial x^16 + x^12 + x^5 + 1.
unfoldable pub shift_bit : ℕ → ℕ
shift_bit x = if ltb x 0x8000 then x * 2 else bit_xor (x * 2 - 0x10000) 0x1021

unfoldable pub shift_bits : ℕ → ℕ → ℕ
shift_bits zero x = x
shift_bits (suc n) x = shift_bits n (shift_bit x)

-- The byte enters the high half of the register, then eight shifts.
unfoldable pub bitwise_step : ℕ → ℕ → ℕ
bitwise_step crc byte = shift_bits 8 (bit_xor crc (byte * 2 ^ 8))

unfoldable pub crc16_bitwise : Bytes → ℕ
unfolding bitwise_step
crc16_bitwise = foldl bitwise_step 0xA001

low_case :
    (x c : ℕ) → x < 2 ^ 15 → c < 2 ^ 15 → shift_bit (bit_xor x c) ≡ bit_xor (shift_bit x) (c * 2)
unfolding shift_bit
low_case x c hx hc = ground (arith, xor-lt 15 x c, xor-double x c)

high_case :
    (r c : ℕ)
    → r < 2 ^ 15
    → c < 2 ^ 15
    → shift_bit (bit_xor (1 * 2 ^ 15 + r) c) ≡ bit_xor (shift_bit (1 * 2 ^ 15 + r)) (c * 2)
unfolding shift_bit
high_case r c hr hc = ground (
  arith,
  xor_fields 15 1 0 r c,
  xor-zero 1,
  xor-double r c,
  xor_right_comm (r * 2) (c * 2) 0x1021,
)

pub shift_bit-lt : (x : ℕ) → x < 2 ^ 16 → shift_bit x < 2 ^ 16
unfolding shift_bit
shift_bit-lt x hx = ground (arith, xor-lt 16 (x * 2 - 0x10000) 0x1021)

-- A shift is linear in what does not reach the top bit.
shift_bit-xor :
    (x c : ℕ) → x < 2 ^ 16 → c < 2 ^ 15 → shift_bit (bit_xor x c) ≡ bit_xor (shift_bit x) (c * 2)
shift_bit-xor x c hx hc = elim (Bool-cases (ltb x 0x8000)) [
  | inl low ↦ low_case x c (ground arith) hc
  | inr high ↦
      let r : ℕ = x - 2 ^ 15 in
      let e : x ≡ 1 * 2 ^ 15 + r = ground arith in rw e (high_case r c (omega arith) hc)
]

shift_bits-xor :
    (n x c : ℕ)
    → x < 2 ^ 16
    → c * 2 ^ n < 2 ^ 16
    → shift_bits n (bit_xor x c) ≡ bit_xor (shift_bits n x) (c * 2 ^ n)
unfolding shift_bits
shift_bits-xor zero x c hx hc = ground arith
shift_bits-xor (suc n) x c hx hc =
    let e : c * 2 * 2 ^ n ≡ c * 2 ^ suc n = omega (arith, pow_suc_mul n c) in
    let wide : c * 1 ≤ c * 2 ^ n = grind (arith, pow_pos n) in
    let small : c < 2 ^ 15 = omega (arith, pow_suc_mul n c) in
    rw (shift_bit-xor x c hx small, ← e)
      (shift_bits-xor n (shift_bit x) (c * 2) (shift_bit-lt x hx) (omega arith))

table_check : all_below 256 (λ i. crc_entry i == shift_bits 8 (i * 256)) ≡ true
unfolding all_below shift_bits shift_bit crc_entry
table_check = refl

crc_entry-shift_bits : (i : ℕ) → i < 256 → crc_entry i ≡ shift_bits 8 (i * 256)
crc_entry-shift_bits i h = (==_iff _ _).0 (all_below_sound _ 256 i h table_check)

pub shift_bits-lt : (n x : ℕ) → x < 2 ^ 16 → shift_bits n x < 2 ^ 16
unfolding shift_bits
shift_bits-lt zero x h = h
shift_bits-lt (suc n) x h = shift_bits-lt n (shift_bit x) (shift_bit-lt x h)

-- A byte that enters below the top eight bits only is shifted out of their way.
pub shift_bits-low :
    (x c : ℕ)
    → x < 2 ^ 16
    → c < 256
    → shift_bits 8 (bit_xor x c) ≡ bit_xor (shift_bits 8 x) (c * 256)
shift_bits-low x c hx hc = shift_bits-xor 8 x c hx (omega arith)

-- The table's index and the low byte, after the byte has entered the register.
entered :
    (h l b : ℕ)
    → h < 256
    → l < 256
    → b < 256
    → bit_xor (h * 256 + l) (b * 2 ^ 8) ≡ bit_xor (bit_xor h b * 256) l
entered h l b hh hl hb = ground (
  arith,
  xor_fields 8 h b l 0,
  xor-zero l,
  xor_fields 8 (bit_xor h b) 0 0 l,
  xor-zero (bit_xor h b),
  zero-bit_xor l,
)

-- What is left of the register above 16 bits is masked away.
masked :
    (t h l : ℕ)
    → t < 2 ^ 16
    → l < 256
    → bit_and (bit_xor t ((h * 256 + l) * 2 ^ 8)) 0xFFFF ≡ bit_xor t (l * 256)
masked t h l ht hl = ground (
  arith,
  bit_and_mask 16 (bit_xor t ((h * 256 + l) * 2 ^ 8)),
  xor_fields 16 0 h t (l * 256),
  zero-bit_xor h,
  xor-lt 16 t (l * 256),
)

step_parts :
    (h l b : ℕ)
    → h < 256
    → l < 256
    → b < 256
    → crc_step (h * 256 + l) b ≡ bitwise_step (h * 256 + l) b
unfolding crc_step bitwise_step
step_parts h l b hh hl hb =
    let i : ℕ = bit_xor h b in
    let small : i < 256 = xor-lt 8 h b hh hb in
    let index : bit_xor (bit_and ((h * 256 + l) / 2 ^ 8) 0xFF) (bit_and b 0xFF) ≡ i =
      ground (arith, bit_and_mask 8 ((h * 256 + l) / 2 ^ 8), bit_and_mask 8 b) in
    let entry : crc_entry i ≡ shift_bits 8 (i * 256) = crc_entry-shift_bits i small in
    let wide : shift_bits 8 (i * 256) < 2 ^ 16 = shift_bits-lt 8 (i * 256) (omega arith) in
    rw (index, entry, masked _ h l wide hl, entered h l b hh hl hb)
      (sym (shift_bits-low (i * 256) l (omega arith) hl))

-- One lookup does what eight shifts do.
pub crc_step-bitwise_step :
    (crc b : ℕ) → crc < 2 ^ 16 → b < 256 → crc_step crc b ≡ bitwise_step crc b
crc_step-bitwise_step crc b hc hb =
    let e : crc ≡ crc / 256 * 256 + crc % 256 = omega arith in
    rw e (step_parts (crc / 256) (crc % 256) b (omega arith) (omega arith) hb)

pub bitwise_step-lt : (crc b : ℕ) → crc < 2 ^ 16 → b < 256 → bitwise_step crc b < 2 ^ 16
unfolding bitwise_step
bitwise_step-lt crc b hc hb = shift_bits-lt 8 _ (xor-lt 16 crc (b * 2 ^ 8) hc (omega arith))

crc_loop-bitwise :
    (crc : ℕ) (xs : Bytes)
    → crc < 2 ^ 16
    → All IsByte xs
    → foldl crc_step crc xs ≡ foldl bitwise_step crc xs
crc_loop-bitwise crc [] hc hx = refl
crc_loop-bitwise crc (b ∷ xs) hc (hb, hx) =
    rw (crc_step-bitwise_step crc b hc hb)
      (crc_loop-bitwise (bitwise_step crc b) xs (bitwise_step-lt crc b hc hb) hx)

-- On every byte string the table-driven checksum is the CRC that shifts the register one bit at a
-- time by the polynomial 0x1021, from the start value 0xA001.
pub crc16-crc16_bitwise : (xs : Bytes) → All IsByte xs → crc16 xs ≡ crc16_bitwise xs
unfolding crc16 crc16_bitwise
crc16-crc16_bitwise xs hx = crc_loop-bitwise 0xA001 xs (omega arith) hx

crc_step-lt : (crc b : ℕ) → crc_step crc b < 2 ^ 16
unfolding crc_step
crc_step-lt crc b = mask16-lt _

crc_loop-lt : (crc : ℕ) (xs : Bytes) → crc < 2 ^ 16 → foldl crc_step crc xs < 2 ^ 16
crc_loop-lt crc [] h = h
crc_loop-lt crc (b ∷ xs) h = crc_loop-lt (crc_step crc b) xs (crc_step-lt crc b)

-- A checksum fits two bytes, whatever it is taken of.
pub crc16-lt : (xs : Bytes) → crc16 xs < 2 ^ 16
unfolding crc16
crc16-lt xs = crc_loop-lt 0xA001 xs (omega arith)
