-- ===== src/Base/Text.antt =====
-- Python's `str` as a list of code points, and hexadecimal spellings of bytes.
use Prim.Native.Nat.{ℕ, ◌+◌, ◌-◌, ◌*◌, ◌/◌, ◌%◌, ◌<◌}
use Prim.Native.Char.{code}
use Prim.Native.String.{String}
use mathlib.Core.Path.{◌≡◌, refl}
use mathlib.Core.Bool.{◌&&◌}
use mathlib.Core.Option.{Option, none, some}
use mathlib.Core.List.{List, [], ◌∷◌}
use native.Mathlib.Omega.{arith}
use aegis_hass.Base.Tests.{leb, ltb, if◌then◌else◌}
use aegis_hass.Base.Lists.{All, length}
use aegis_hass.Base.ByteStrings.{Bytes, IsByte}

abbrev pub Text : Type 0
Text = List ℕ

-- A literal's code points.
abbrev pub codes : String → Text
codes String.[] = []
codes (String.◌∷◌ c s) = code c ∷ codes s

unfoldable pub hex_digit : ℕ → ℕ
hex_digit d = if ltb d 10 then 48 + d else 55 + d

-- `b.hex().upper()`.
unfoldable pub hex_upper : Bytes → Text
hex_upper [] = []
hex_upper (b ∷ rest) = hex_digit (b / 16) ∷ hex_digit (b % 16) ∷ hex_upper rest

-- The value of a hexadecimal digit of either case.
unfoldable pub hex_value : ℕ → Option ℕ
hex_value c =
    if leb 48 c && leb c 57
    then some (c - 48)
    else if leb 65 c && leb c 70
    then some (c - 55)
    else if leb 97 c && leb c 102
    then some (c - 87)
    else none

abbrev join_digits : Option ℕ → Option ℕ → Option Bytes → Option Bytes
join_digits (some h) (some l) (some rest) = some ((h * 16 + l) ∷ rest)
join_digits _ _ _ = none

-- `bytes.fromhex(s)` on a text without spaces; `none` is its `ValueError`.
unfoldable pub from_hex : Text → Option Bytes
from_hex [] = some []
from_hex (h ∷ []) = none
from_hex (h ∷ l ∷ rest) = join_digits (hex_value h) (hex_value l) (from_hex rest)

hex_value-hex_digit : (d : ℕ) → d < 16 → hex_value (hex_digit d) ≡ some d
unfolding hex_value hex_digit
hex_value-hex_digit d h = ground arith

-- The spelling of a byte string determines it.
pub from_hex-hex_upper : (xs : Bytes) → All IsByte xs → from_hex (hex_upper xs) ≡ some xs
unfolding from_hex hex_upper
from_hex-hex_upper [] h = refl
from_hex-hex_upper (b ∷ xs) (hb, h) =
    let byte : b / 16 * 16 + b % 16 ≡ b = omega arith in
    rw (
      hex_value-hex_digit (b / 16) (omega arith),
      hex_value-hex_digit (b % 16) (omega arith),
      from_hex-hex_upper xs h,
      byte,
    )

pub length-hex_upper : (xs : Bytes) → length (hex_upper xs) ≡ 2 * length xs
unfolding hex_upper
length-hex_upper [] = refl
length-hex_upper (b ∷ xs) = omega (arith, length-hex_upper xs)
