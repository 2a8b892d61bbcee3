-- ===== src/Hts/HubState/Readings.antt =====
-- `DeviceReadings`, `parse_device_readings` and `parse_device_temperature_c` of api/hts/hub_state.py.
-- A float reading is modelled by its exact number of thousandths, which is what `round(x, 3)` keeps.
pub mod Deltas
use aegis_hass.Base.{
  ℕ, ◌+◌, ◌*◌, Bool, true, false, ◌||◌, leb, if◌then◌else◌, Option, none, some, List, [], ◌∷◌,
  Bytes, ◌=ᵇ◌, is_nonempty,
}
use aegis_hass.Base.Int.{ℤ, pos, negsuc, signed}
use aegis_hass.Base.Kv.{lookup}
use aegis_hass.Base.Text.{Text, codes}
use aegis_hass.Hts.HubState.Values.{byte_val, int_be_val}

pub record DeviceReadings : Type 0 where
  pub current_ma : Option ℕ
  pub power_consumed_wh : Option ℕ
  pub voltage_v : Option ℕ
  pub power_w : Option ℕ

abbrev pub no_readings : DeviceReadings
no_readings = record {
  current_ma = none;
  power_consumed_wh = none;
  voltage_v = none;
  power_w = none;
}

-- The field names of the key maps.
pub data Field : Type 0 where
  current_ma power_consumed_wh voltage_v power_w : Field

-- Sub-key, field, and the scale in thousandths.
abbrev pub KeyMap : Type 0
KeyMap = List (ℕ × Field × ℕ)

unfoldable pub wallswitch_key_map : KeyMap
wallswitch_key_map =
    (0x35, voltage_v, 1000) ∷ (0x42, current_ma, 1000) ∷ (0x43, power_consumed_wh, 1000) ∷ []

-- `{**_WALLSWITCH_KEY_MAP, DEVICE_KEY_VOLTAGE_V: ("voltage_v", 0.001)}`.
unfoldable pub relay_key_map : KeyMap
relay_key_map =
    (0x35, voltage_v, 1) ∷ (0x42, current_ma, 1000) ∷ (0x43, power_consumed_wh, 1000) ∷ []

unfoldable pub outlet_key_map : KeyMap
outlet_key_map =
    (0x3F, power_w, 1000)
    ∷ (0x40, power_consumed_wh, 1000)
    ∷ (0x41, current_ma, 10000)
    ∷ (0x42, voltage_v, 1000)
    ∷ []

abbrev pub is_one_of : Text → List Text → Bool
is_one_of t [] = false
is_one_of t (u ∷ us) = if t =ᵇ u then true else is_one_of t us

-- `_DEVICE_READINGS_KEY_MAP.get(device_type)`.
unfoldable pub readings_key_map : Text → Option KeyMap
readings_key_map device_type =
    if device_type =ᵇ codes "relay"
    then some relay_key_map
    else if is_one_of device_type (
        codes "wall_switch"
        ∷ codes "relay_fibra_base"
        ∷ codes "socket"
        ∷ codes "socket_b"
        ∷ codes "socket_g"
        ∷ codes "socket_type_g_plus"
        ∷ [])
    then some wallswitch_key_map
    else if is_one_of device_type (codes "socket_outlet_type_e" ∷ codes "socket_outlet_type_f" ∷ [])
    then some outlet_key_map
    else none

-- `round(raw * scale, 3)`, or the old value where the row has none.
abbrev pub scaled : ℕ → Option ℕ → Option ℕ → Option ℕ
scaled scale old none = old
scaled scale old (some raw) = some (raw * scale)

abbrev pub reading : ℕ → Option ℕ → Option Bytes → Option ℕ
reading scale old none = old
reading scale old (some bytes) = scaled scale old (int_be_val bytes)

abbrev pub set_reading : Field → ℕ → Option Bytes → DeviceReadings → DeviceReadings
set_reading current_ma scale o r = record r { current_ma = reading scale r.current_ma o }
set_reading power_consumed_wh scale o r = record r {
  power_consumed_wh = reading scale r.power_consumed_wh o;
}
set_reading voltage_v scale o r = record r { voltage_v = reading scale r.voltage_v o }
set_reading power_w scale o r = record r { power_w = reading scale r.power_w o }

-- The loop over `key_map.items()`.
unfoldable pub apply_key_map : KeyMap → List (ℕ × Bytes) → DeviceReadings → DeviceReadings
apply_key_map [] kv r = r
apply_key_map ((sub_key, field, scale) ∷ rest) kv r =
    apply_key_map rest kv (set_reading field scale (lookup sub_key kv) r)

abbrev pub readings_base : Option DeviceReadings → DeviceReadings
readings_base none = no_readings
readings_base (some r) = r

abbrev pub map_row :
    Option KeyMap → List (ℕ × Bytes) → Option DeviceReadings → Option DeviceReadings
map_row none kv existing = none
map_row (some key_map) kv existing = some (apply_key_map key_map kv (readings_base existing))

unfoldable pub parse_device_readings :
    Text → List (ℕ × Bytes) → Option DeviceReadings → Option DeviceReadings
parse_device_readings device_type kv existing = map_row (readings_key_map device_type) kv existing

-- HTS_TEMPERATURE_DEVICE_TYPES.
abbrev pub temperature_device_types : List Text
temperature_device_types =
    codes "motion_protect_curtain_outdoor_plus"
    ∷ codes "motion_protect_curtain_outdoor_base"
    ∷ codes "motion_protect_outdoor"
    ∷ codes "motion_cam_outdoor_phod"
    ∷ codes "street_siren"
    ∷ codes "street_siren_plus_g3"
    ∷ codes "street_siren_double_deck"
    ∷ codes "street_siren_s_double_deck"
    ∷ codes "street_siren_double_deck_fibra"
    ∷ codes "street_siren_fibra"
    ∷ codes "home_siren"
    ∷ codes "home_siren_g3"
    ∷ codes "home_siren_s"
    ∷ codes "home_siren_fibra"
    ∷ []

-- `-40 <= value <= 85`.
abbrev pub is_plausible : ℤ → Bool
is_plausible (pos n) = leb n 85
is_plausible (negsuc n) = leb (n + 1) 40

abbrev pub temperature_of : Bytes → Option ℤ
temperature_of raw =
    if is_nonempty raw
    then if is_plausible (signed 8 (byte_val raw)) then some (signed 8 (byte_val raw)) else none
    else none

abbrev pub temperature_at : Option Bytes → Option ℤ
temperature_at none = none
temperature_at (some raw) = temperature_of raw

unfoldable pub parse_device_temperature_c : Text → List (ℕ × Bytes) → Option ℤ
unfolding signed byte_val
parse_device_temperature_c device_type kv =
    if is_one_of device_type temperature_device_types then temperature_at (lookup 0x02 kv) else none
