-- ===== src/Hts/Client/Sessions.antt =====
-- The account's sessions: `ClientSession` and `_parse_client_sessions` of api/hts/client.py.
pub mod Records
use aegis_hass.Base.{
  ℕ, Bool, true, false, not, ◌&&◌, ◌==◌, if◌then◌else◌, Option, none, some, List, [], ◌∷◌, ◌++◌,
  map, length, is_nonempty, drop, Bytes, ◌=ᵇ◌, from_bytes,
}
use aegis_hass.Base.Int.{ℤ, pos, signed}
use aegis_hass.Base.Kv.{lookup}
use aegis_hass.Base.Text.{Text}
use aegis_hass.Base.Utf8.{decode}
use aegis_hass.Hts.Client.Rows.{Dict, put_key}

pub record ClientSession : Type 0 where
  pub session_id : Option ℤ
  pub device_model : Text
  pub operating_system : Text
  pub application : Text
  pub version : Text
  pub created_at : Option ℤ
  pub expires_at : Option ℤ
  pub last_active_at : Option ℤ
  pub is_current : Bool
  pub is_self_identity : Bool

-- `_CLIENT_SESSION_RECORD_SEPARATOR`.
abbrev pub separator : Bytes
separator = 0xfe ∷ 0xfe ∷ []

-- `if record: records.append(record)`.
abbrev pub close_record : Dict → List Dict
close_record record_kv = if is_nonempty record_kv then record_kv ∷ [] else []

abbrev pub is_pair : Bytes → Bytes → Bool
is_pair param value = length param == 1 && not (value =ᵇ separator)

-- The loop: the records that are appended from here on.
unfoldable pub session_records : Dict → List Bytes → List Dict
session_records record_kv [] = close_record record_kv
session_records record_kv (param ∷ []) = close_record record_kv
session_records record_kv (param ∷ value ∷ rest) = elim (param =ᵇ separator) [
  | true ↦ close_record record_kv ++ session_records [] (value ∷ rest)
  | false ↦ elim (is_pair param value) [
    | true ↦ session_records (put_key param value record_kv) rest
    | false ↦ session_records record_kv (value ∷ rest)
  ]
]

-- `text` and `timestamp`.
abbrev pub text_of : Option Bytes → Text
text_of none = []
text_of (some value) = decode value

abbrev pub timestamp_of : Option Bytes → Option ℤ
timestamp_of none = none
timestamp_of (some value) = if length value == 8 then some (signed 64 (from_bytes value)) else none

abbrev pub is_one : Option Bytes → Bool
is_one none = false
is_one (some value) = value =ᵇ (1 ∷ [])

-- `last_active not in (None, 0)`.
abbrev pub is_active : Option ℤ → Bool
is_active none = false
is_active (some (pos n)) = not (n == 0)
is_active (some (ℤ.negsuc n)) = true

unfoldable pub session_of : Dict → ClientSession
session_of values =
    let last_active = timestamp_of (lookup 0x06 values) in
    let is_self = is_one (lookup 0x07 values) in
    record {
      session_id = timestamp_of (lookup 0x01 values);
      device_model = text_of (lookup 0x03 values);
      operating_system = text_of (lookup 0x04 values);
      application = text_of (lookup 0x0A values);
      version = text_of (lookup 0x09 values);
      created_at = timestamp_of (lookup 0x01 values);
      expires_at = timestamp_of (lookup 0x05 values);
      last_active_at = last_active;
      is_current = is_self && is_active last_active;
      is_self_identity = is_self;
    }

unfoldable pub parse_client_sessions : List Bytes → List ClientSession
parse_client_sessions params = map session_of (session_records [] (drop 1 params))
