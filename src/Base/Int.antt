-- ===== src/Base/Int.antt =====
-- Python's `int` where it may be negative.
use aegis_hass.Base.{ℕ, ◌-◌, ◌^◌, leb, ltb, if◌then◌else◌, ◌*◌}

-- `negsuc n` is -(n + 1).
pub data ℤ : Type 0 where
  pos : ℕ → ℤ
  negsuc : ℕ → ℤ

-- a - b, as an integer.
unfoldable pub sub_ℕ : ℕ → ℕ → ℤ
sub_ℕ a b = if leb b a then pos (a - b) else negsuc (b - a - 1)

-- A number of `w` bits in two's complement.
unfoldable pub signed : ℕ → ℕ → ℤ
signed w n = if ltb (n * 2) (2 ^ w) then pos n else negsuc (2 ^ w - n - 1)
