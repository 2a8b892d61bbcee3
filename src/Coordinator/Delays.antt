-- ===== src/Coordinator/Delays.antt =====
-- The delay settings of the detectors: `parse_arm_delays` of delay_states.py, and
-- `_track_arm_delays`, `_space_arm_delays` and the longest delays of coordinator.py.
pub mod Longest
use aegis_hass.Base.{
  ℕ, max, Bool, true, false, not, ◌&&◌, ◌||◌, ◌==◌, if◌then◌else◌, Option, none, some, List, [],
  ◌∷◌, take, Bytes, ◌=ᵇ◌, from_bytes,
}
use aegis_hass.Base.Kv.{lookup, has_key}
use aegis_hass.Base.Text.{Text}
use aegis_hass.Base.TextMap.{get, set}
use aegis_hass.Coordinator.Models.{Space, ArmDelays, Coordinator}

abbrev pub key_arm_delay_seconds : ℕ
key_arm_delay_seconds = 0xAC

abbrev pub key_alarm_delay_seconds : ℕ
key_alarm_delay_seconds = 0xAD

abbrev pub key_delays_in_night_mode : ℕ
key_delays_in_night_mode = 0xAE

unfoldable pub u16 : Option Bytes → ℕ
u16 none = 0
u16 (some value) = from_bytes (take 2 value)

-- `None if not night else bool(night[0])`.
abbrev pub night_flag : Option Bytes → Option Bool
night_flag none = none
night_flag (some []) = none
night_flag (some (b ∷ rest)) = some (not (b == 0))

unfoldable pub parse_arm_delays : List (ℕ × Bytes) → Option ArmDelays
parse_arm_delays kv =
    if not (has_key key_arm_delay_seconds kv) && not (has_key key_alarm_delay_seconds kv)
    then none
    else some (record {
      arm_delay_seconds = u16 (lookup key_arm_delay_seconds kv);
      alarm_delay_seconds = u16 (lookup key_alarm_delay_seconds kv);
      in_night_mode = night_flag (lookup key_delays_in_night_mode kv);
    })

-- `_track_arm_delays`: the comparison with the stored value only spares writing it again.
abbrev pub store_delays : Text → Option ArmDelays → Coordinator → Coordinator
store_delays device_id none c = c
store_delays device_id (some delays) c = record c {
  device_arm_delays = set device_id delays c.device_arm_delays;
}

unfoldable pub track_arm_delays : Text → List (ℕ × Bytes) → Coordinator → Coordinator
track_arm_delays device_id kv c = store_delays device_id (parse_arm_delays kv) c

-- `(device := devices.get(device_id)) is not None and device.hub_id == hub_id`.
abbrev pub is_on_hub : Text → Option Text → Bool
is_on_hub hub_id none = false
is_on_hub hub_id (some device_hub) = device_hub =ᵇ hub_id

unfoldable pub hub_arm_delays : Text → List (Text × Text) → List (Text × ArmDelays) → List ArmDelays
hub_arm_delays hub_id devices [] = []
hub_arm_delays hub_id devices ((device_id, delays) ∷ rest) =
    if is_on_hub hub_id (get device_id devices)
    then delays ∷ hub_arm_delays hub_id devices rest
    else hub_arm_delays hub_id devices rest

abbrev pub space_delays :
    Option Space → List (Text × Text) → List (Text × ArmDelays) → List ArmDelays
space_delays none devices delays = []
space_delays (some space) devices delays = hub_arm_delays space.hub_id devices delays

unfoldable pub space_arm_delays : Text → Coordinator → List ArmDelays
space_arm_delays space_id c = space_delays (get space_id c.spaces) c.device_hubs c.device_arm_delays

abbrev pub is_set : Option Bool → Bool
is_set none = false
is_set (some b) = b

-- The loop of `max(..., default=0)`.
unfoldable pub longest_exit : Bool → List ArmDelays → ℕ
longest_exit night [] = 0
longest_exit night (d ∷ rest) =
    if not night || is_set d.in_night_mode
    then max d.arm_delay_seconds (longest_exit night rest)
    else longest_exit night rest

unfoldable pub longest_entry : List ArmDelays → ℕ
longest_entry [] = 0
longest_entry (d ∷ rest) = max d.alarm_delay_seconds (longest_entry rest)

unfoldable pub space_exit_delay_seconds : Text → Bool → Coordinator → ℕ
space_exit_delay_seconds space_id night c = longest_exit night (space_arm_delays space_id c)

unfoldable pub space_entry_delay_seconds : Text → Coordinator → ℕ
space_entry_delay_seconds space_id c = longest_entry (space_arm_delays space_id c)
