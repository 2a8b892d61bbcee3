-- ===== src/Hts/HubState/Values/Printed.antt =====
-- The addresses and versions that api/hts/hub_state.py prints.
use aegis_hass.Base.{
  ℕ, ◌+◌, ◌*◌, ◌/◌, ◌%◌, ◌^◌, ◌≤◌, ◌<◌, bit_and, ◌≡◌, ◌≢◌, ◌⊎◌, ap, ◌∙◌, true, false, ltb, leb,
  ◌==◌, ◌&&◌, [], ◌∷◌, ◌++◌, length, Bytes, IsByte, All, from_bytes, arith,
}
use aegis_hass.Base.Bits.{bit_and_mask}
use aegis_hass.Base.Decimal.{show, dot, read_dotted, read_dotted-show, read_dotted-show_last}
use aegis_hass.Hts.HubState.Values.{ip_val, version_val}

read_three :
    (a b c : ℕ) → read_dotted 0 (show a ++ (dot ∷ (show b ++ (dot ∷ show c)))) ≡ a ∷ b ∷ c ∷ []
read_three a b c =
    read_dotted-show a _
    ∙ ap (λ t. a ∷ t) (read_dotted-show b _ ∙ ap (λ t. b ∷ t) (read_dotted-show_last c))

four_bytes : (a b c d : ℕ) → from_bytes (a ∷ b ∷ c ∷ d ∷ []) ≡ ((a * 256 + b) * 256 + c) * 256 + d
unfolding from_bytes
four_bytes a b c d = omega arith

-- An address is printed as its four bytes in decimal: reading the dotted text gives them back,
-- whatever follows the first four bytes of the value.
pub read_dotted-ip_val :
    (a b c d : ℕ) (rest : Bytes)
    → All IsByte (a ∷ b ∷ c ∷ d ∷ [])
    → read_dotted 0 (ip_val (a ∷ b ∷ c ∷ d ∷ rest)) ≡ a ∷ b ∷ c ∷ d ∷ []
unfolding ip_val
read_dotted-ip_val a b c d rest (ha, (hb, (hc, (hd, _)))) =
    let v : ℕ = from_bytes (a ∷ b ∷ c ∷ d ∷ []) in
    let e : v ≡ ((a * 256 + b) * 256 + c) * 256 + d = four_bytes a b c d in
    let long : ltb (length (a ∷ b ∷ c ∷ d ∷ rest)) 4 ≡ false = ground arith in
    let first : bit_and (v / 2 ^ 24) 0xFF ≡ a = omega (arith, bit_and_mask 8 (v / 2 ^ 24)) in
    let second : bit_and (v / 2 ^ 16) 0xFF ≡ b = omega (arith, bit_and_mask 8 (v / 2 ^ 16)) in
    let third : bit_and (v / 2 ^ 8) 0xFF ≡ c = omega (arith, bit_and_mask 8 (v / 2 ^ 8)) in
    let fourth : bit_and v 0xFF ≡ d = omega (arith, bit_and_mask 8 v) in
    rw (long, first, second, third, fourth)
      (read_dotted-show a _ ∙ ap (λ t. a ∷ t) (read_three b c d))

-- A version is printed exactly for four bytes that hold a number from 100000 to 9999999, and its
-- three components, read back, make up that number: major * 100000 + minor * 1000 + patch, the
-- minor below 100 and the patch below 1000.
pub read_dotted-version_val :
    (val : Bytes)
    → length val ≡ 4
    → 100_000 ≤ from_bytes val
    → from_bytes val < 10_000_000
    → (major : ℕ) × (minor : ℕ) × (patch : ℕ) × (read_dotted 0 (version_val val)
        ≡ major ∷ minor ∷ patch ∷ [])
      × (major * 100_000 + minor * 1_000 + patch ≡ from_bytes val)
      × (1 ≤ major)
      × (major < 100)
      × (minor < 100)
      × (patch < 1_000)
unfolding version_val
read_dotted-version_val val h lo hi =
    let v : ℕ = from_bytes val in
    let sized : (length val == 4) ≡ true = ground arith in
    let ranged : (leb 100_000 v && ltb v 10_000_000) ≡ true = ground arith in
    (
      v / 100_000,
      v % 100_000 / 1_000,
      v % 100_000 % 1_000,
      rw (sized, ranged) (read_three (v / 100_000) (v % 100_000 / 1_000) (v % 100_000 % 1_000)),
      omega arith,
      omega arith,
      omega arith,
      omega arith,
      omega arith,
    )

-- Every other value is printed as the empty text, which callers read as unknown.
pub version_val_unknown :
    (val : Bytes)
    → (length val ≢ 4) ⊎ ((from_bytes val < 100_000) ⊎ (10_000_000 ≤ from_bytes val))
    → version_val val ≡ []
unfolding version_val
version_val_unknown val h = ground arith
