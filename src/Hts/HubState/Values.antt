-- ===== src/Hts/HubState/Values.antt =====
-- The value decoders of api/hts/hub_state.py.
pub mod Printed
use aegis_hass.Base.{
  ℕ, ◌+◌, ◌*◌, ◌/◌, ◌%◌, ◌^◌, bit_and, Bool, not, ◌&&◌, ◌==◌, ltb, leb, if◌then◌else◌, Option, none,
  some, List, [], ◌∷◌, ◌++◌, length, get_or, take, is_nonempty, Bytes, from_bytes,
}
use aegis_hass.Base.Decimal.{show, dot}
use aegis_hass.Base.Text.{Text}
use aegis_hass.Base.Utf8.{decode}

-- `f"{a}.{b}.{c}.{d}"`, shifts and masks as in `_int_to_ip`.
unfoldable pub int_to_ip : ℕ → Text
int_to_ip val =
    show (bit_and (val / 2 ^ 24) 0xFF)
    ++ (dot
        ∷ (show (bit_and (val / 2 ^ 16) 0xFF)
            ++ (dot ∷ (show (bit_and (val / 2 ^ 8) 0xFF) ++ (dot ∷ show (bit_and val 0xFF))))))

unfoldable pub byte_val : Bytes → ℕ
byte_val [] = 0
byte_val (b ∷ rest) = b

unfoldable pub bool_val : Bytes → Bool
unfolding byte_val
bool_val val = not (byte_val val == 0)

-- The components of the packed firmware version.
unfoldable pub version_text : ℕ → Text
version_text packed =
    let rest : ℕ = packed % 100_000 in
    show (packed / 100_000) ++ (dot ∷ (show (rest / 1_000) ++ (dot ∷ show (rest % 1_000))))

unfoldable pub version_val : Bytes → Text
unfolding version_text
version_val val =
    if length val == 4
    then if leb 100_000 (from_bytes val) && ltb (from_bytes val) 10_000_000
      then version_text (from_bytes val)
      else []
    else []

-- `val[:val.find(b"\x00")]`, or the whole value.
unfoldable pub until_zero : Bytes → Bytes
until_zero [] = []
until_zero (b ∷ rest) = if b == 0 then [] else b ∷ until_zero rest

unfoldable pub str_val : Bytes → Text
unfolding until_zero
str_val val = decode (until_zero val)

unfoldable pub ip_val : Bytes → Text
unfolding int_to_ip
ip_val val = if ltb (length val) 4 then [] else int_to_ip (from_bytes (take 4 val))

-- `_int_be_val` on a value that is there.
unfoldable pub int_be_val : Bytes → Option ℕ
int_be_val val = if is_nonempty val then some (from_bytes val) else none
