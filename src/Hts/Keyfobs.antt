-- ===== src/Hts/Keyfobs.antt =====
-- api/hts/keyfobs.py. `str.isprintable` is a parameter.
pub mod Superset
use aegis_hass.Base.{
  ℕ, ◌+◌, ◌*◌, ◌/◌, ◌%◌, Bool, true, false, not, ◌&&◌, ltb, if◌then◌else◌, Option, none, some, List,
  [], ◌∷◌, ◌++◌, is_nonempty, Bytes,
}
use aegis_hass.Base.Kv.{lookup, has_key}
use aegis_hass.Base.Text.{Text, hex_value, hex_digit}
use aegis_hass.Hts.HubState.Values.{bool_val, str_val, int_be_val}

-- KEYFOB_SHAPE.
abbrev pub keyfob_shape : List ℕ
keyfob_shape =
    0x02 ∷ 0x07 ∷ 0x08 ∷ 0x09 ∷ 0x0A ∷ 0x0B ∷ 0x0C ∷ 0x0D ∷ 0x0E ∷ 0x0F ∷ 0x10 ∷ 0x11 ∷ 0x13 ∷ 0x14
    ∷ 0x16 ∷ []

-- `_USER_ROW_MARKER_SUBKEYS`.
abbrev pub user_row_markers : List ℕ
user_row_markers = 0x01 ∷ 0x03 ∷ []

abbrev pub min_device_id : ℕ
min_device_id = 0x10000

pub record Keyfob : Type 0 where
  pub id : Text
  pub hub_id : Text
  pub name : Text
  pub index : Option ℕ
  pub active : Bool
  pub flags_hex : Text

-- `frozenset(kv) >= keys`.
unfoldable pub has_all : List ℕ → List (ℕ × Bytes) → Bool
has_all [] kv = true
has_all (key ∷ keys) kv = has_key key kv && has_all keys kv

-- `int(text, 16)` on a text of hexadecimal digits; `none` is its `ValueError`.
abbrev pub add_digit : ℕ → Option ℕ → Option ℕ
add_digit high none = none
add_digit high (some low) = some (high * 16 + low)

abbrev pub more_digits : Option ℕ → Text → Option ℕ
more_digits none text = none
more_digits (some high) [] = some high
more_digits (some high) (c ∷ text) = more_digits (add_digit high (hex_value c)) text

unfoldable pub hex_int : Text → Option ℕ
hex_int [] = none
hex_int (c ∷ text) = more_digits (hex_value c) text

-- `int(device_id_hex, 16) < _MIN_DEVICE_ID`, or no number.
abbrev pub is_marker_id : Option ℕ → Bool
is_marker_id none = true
is_marker_id (some id) = ltb id min_device_id

abbrev pub or_empty : Option Bytes → Bytes
or_empty none = []
or_empty (some value) = value

abbrev pub index_of : Option Bytes → Option ℕ
index_of none = none
index_of (some value) = int_be_val value

-- `bytes.hex()`, in lower case.
abbrev pub hex_digit_lower : ℕ → ℕ
hex_digit_lower d = if ltb d 10 then 48 + d else 87 + d

abbrev pub hex_lower : Bytes → Text
hex_lower [] = []
hex_lower (b ∷ bytes) = hex_digit_lower (b / 16) ∷ hex_digit_lower (b % 16) ∷ hex_lower bytes

unfoldable pub flags_hex_of : List (ℕ × Bytes) → Text
flags_hex_of kv =
    hex_lower (or_empty (lookup 0x0B kv))
    ++ (58
        ∷ (hex_lower (or_empty (lookup 0x0C kv))
            ++ (58
                ∷ (hex_lower (or_empty (lookup 0x0D kv))
                    ++ (58 ∷ hex_lower (or_empty (lookup 0x0E kv)))))))

-- `not name or not name.isprintable()`, negated.
abbrev pub is_shown : (Text → Bool) → Text → Bool
is_shown isprintable name = is_nonempty name && isprintable name

abbrev pub name_of : List (ℕ × Bytes) → Text
name_of kv = str_val (or_empty (lookup 0x02 kv))

unfoldable pub parse_keyfob : (Text → Bool) → Text → Text → List (ℕ × Bytes) → Option Keyfob
parse_keyfob isprintable device_id_hex hub_id kv =
    if not (has_all keyfob_shape kv)
    then none
    else if has_all user_row_markers kv
    then none
    else if is_marker_id (hex_int device_id_hex)
    then none
    else if not (is_shown isprintable (name_of kv))
    then none
    else some (record {
      id = device_id_hex;
      hub_id = hub_id;
      name = name_of kv;
      index = index_of (lookup 0x0A kv);
      active = bool_val (or_empty (lookup 0x0B kv));
      flags_hex = flags_hex_of kv;
    })

unfoldable pub looks_like_keyfob_candidate : (Text → Bool) → Text → List (ℕ × Bytes) → Bool
looks_like_keyfob_candidate isprintable device_id_hex kv =
    if not (has_key 0x02 kv && has_key 0x0A kv)
    then false
    else if has_all user_row_markers kv
    then false
    else if is_marker_id (hex_int device_id_hex)
    then false
    else is_shown isprintable (name_of kv)
