-- ===== src/Push/Wire/Varint.antt =====
-- The varints that `_read_varint` of notification_event_parser.py reads.
use aegis_hass.Base.{
  ℕ, zero, suc, ◌+◌, ◌*◌, ◌/◌, ◌%◌, ◌^◌, ◌≤◌, ◌<◌, bit_and, ◌≡◌, refl, ap, ◌∙◌, true, false,
  Bool-cases, inl, inr, ◌==◌, ltb, leb, if◌then◌else◌, some, [], ◌∷◌, ◌++◌, Bytes, arith,
}
use aegis_hass.Base.Bits.{bit_and_mask, all_below, all_below_sound}
use native.Mathlib.Numerals.{towards_suc}
use aegis_hass.Base.BitOr.{bit_or-disjoint}
use aegis_hass.Push.Wire.{read_varint_from, read_varint}

-- The protobuf encoding of a number in at most `k + 1` groups of seven bits.
pub put_varint : ℕ → ℕ → Bytes
put_varint zero n = n ∷ []
put_varint (suc k) n = if ltb n 128 then n ∷ [] else (128 + n % 128) ∷ put_varint k (n / 128)

continues_table : all_below 256 (λ b. if bit_and b 0x80 == 0 then ltb b 128 else leb 128 b) ≡ true
unfolding all_below
continues_table = refl

last_group : (b : ℕ) → b < 128 → (bit_and b 0x80 == 0) ≡ true
last_group b h = elim (Bool-cases (bit_and b 0x80 == 0)) [
  | inl e ↦ e
  | inr e ↦ let row = all_below_sound _ 256 b (omega arith) continues_table in ground arith
]

more_groups : (b : ℕ) → b < 128 → (bit_and (128 + b) 0x80 == 0) ≡ false
more_groups b h = elim (Bool-cases (bit_and (128 + b) 0x80 == 0)) [
  | inl e ↦ let row = all_below_sound _ 256 (128 + b) (omega arith) continues_table in ground arith
  | inr e ↦ e
]

group_bits : (b : ℕ) → bit_and b 0x7F ≡ b % 128
group_bits b = bit_and_mask 7 b

-- What `k + 1` groups hold.
abbrev pub varint_limit : ℕ → ℕ
varint_limit zero = 128
varint_limit (suc k) = 128 * varint_limit k

pow_shift : (s : ℕ) → 2 ^ (s + 7) ≡ 128 * 2 ^ s
pow_shift s = simp towards_suc (omega arith)

below_next : (p low value : ℕ) → low < 128 → value < p → value + low * p < 128 * p
below_next p low value hl hv = grind arith

groups_add : (p n value : ℕ) → (value + n % 128 * p) + n / 128 * (128 * p) ≡ value + n * p
groups_add p n value =
    let split : (n / 128 * 128 + n % 128) * p ≡ n * p = ap (λ (t : ℕ). t * p) (omega arith) in
    grind arith

read_last :
    (n value shift : ℕ) (rest : Bytes)
    → n < 128
    → value < 2 ^ shift
    → read_varint_from value shift (n ∷ rest) ≡ some (value + n * 2 ^ shift, rest)
unfolding read_varint_from
read_last n value shift rest hn hv =
    let sum = bit_or-disjoint shift value n hv in
    let bits : bit_and n 0x7F ≡ n = omega (arith, group_bits n) in
    rw (last_group n hn, bits, sum) refl

read_more :
    (n value shift : ℕ) (rest : Bytes)
    → value < 2 ^ shift
    → shift + 7 ≤ 63
    → read_varint_from value shift ((128 + n % 128) ∷ rest)
      ≡ read_varint_from (value + n % 128 * 2 ^ shift) (shift + 7) rest
unfolding read_varint_from
read_more n value shift rest hv hs =
    let sum = bit_or-disjoint shift value (n % 128) hv in
    let bits : bit_and (128 + n % 128) 0x7F ≡ n % 128 = omega (arith, group_bits (128 + n % 128)) in
    let room : ltb 63 (shift + 7) ≡ false = ground arith in
    rw (more_groups (n % 128) (omega arith), bits, sum, room) refl

read_put :
    (k n value shift : ℕ) (rest : Bytes)
    → n < varint_limit k
    → value < 2 ^ shift
    → shift + 7 * k ≤ 63
    → read_varint_from value shift (put_varint k n ++ rest) ≡ some (value + n * 2 ^ shift, rest)
unfolding put_varint
read_put zero n value shift rest hn hv hs = read_last n value shift rest hn hv
read_put (suc k) n value shift rest hn hv hs = elim (Bool-cases (ltb n 128)) [
  | inl e ↦ rw e (read_last n value shift rest (ground arith) hv)
  | inr e ↦
      let p : ℕ = 2 ^ shift in
      let next : value + n % 128 * p < 2 ^ (shift + 7) =
        rw (pow_shift shift) (below_next p (n % 128) value (omega arith) hv) in
      let later =
        read_put k (n / 128) (value + n % 128 * p) (shift + 7) rest (omega arith) next
          (omega arith) in
      let sum : value + n % 128 * p + n / 128 * 2 ^ (shift + 7) ≡ value + n * p =
        rw (pow_shift shift) (groups_add p n value) in
      rw e (read_more n value shift _ hv (omega arith) ∙ later ∙ ap (λ t. some (t, rest)) sum)
]

-- `_read_varint` reads back every number below 2 ^ 70 that is written in at most ten groups, with
-- what follows it.
pub read_varint-put_varint :
    (n : ℕ) (rest : Bytes) → n < 2 ^ 70 → read_varint (put_varint 9 n ++ rest) ≡ some (n, rest)
unfolding read_varint
read_varint-put_varint n rest h =
    read_put 9 n 0 0 rest h (omega arith) (omega arith) ∙ ap (λ t. some (t, rest)) (omega arith)
