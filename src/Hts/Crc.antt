-- ===== src/Hts/Crc.antt =====
-- The checksum of api/hts/protocol.py: the table and `crc16`.
mod Table
pub mod Bitwise
pub mod Detects
pub use Table.{crc_table}
use mathlib.Core.List.{foldl}
use aegis_hass.Base.{ℕ, ◌+◌, ◌*◌, ◌/◌, ◌^◌, bit_and, bit_xor, get_or, Bytes}

crc_entry : ℕ → ℕ
crc_entry i = get_or crc_table i 0

-- One round of the loop: `x >> 8` is `x / 2 ^ 8` and `x << 8` is `x * 2 ^ 8`.
unfoldable pub crc_step : ℕ → ℕ → ℕ
unfolding crc_entry
crc_step crc byte =
    bit_and
      (bit_xor (crc_entry (bit_xor (bit_and (crc / 2 ^ 8) 0xFF) (bit_and byte 0xFF))) (crc * 2 ^ 8))
      0xFFFF

unfoldable pub crc16 : Bytes → ℕ
unfolding crc_step
crc16 = foldl crc_step 0xA001
