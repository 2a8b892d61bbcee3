-- ===== src/Coordinator/Rows.antt =====
-- What an HTS row does to a device in coordinator.py: `_maybe_apply_hts_device_tamper`,
-- `_withdraw_hts_case_tamper`, `_maybe_track_hts_bypass_state`, `_maybe_apply_hts_contact_state`,
-- `_maybe_fire_button_press` and `_maybe_nudge_space_security`. A button's event entity is taken to
-- be there, and which devices are buttons is a parameter.
pub mod Tamper
pub mod Presses
use aegis_hass.Base.{
  ℕ, suc, ◌+◌, Bool, true, false, not, ◌&&◌, ◌||◌, ◌==◌, ltb, leb, if◌then◌else◌, Option, none,
  some, List, [], ◌∷◌, ◌++◌, is_nonempty, length, take, Bytes, ◌=ᵇ◌, from_bytes,
}
use aegis_hass.Base.Kv.{lookup}
use aegis_hass.Base.Text.{Text, codes}
use aegis_hass.Base.TextMap.{get, set, pop, has_text}
use aegis_hass.Coordinator.Writes.{discard}

-- The value of a status: a Boolean, or another one, known by a number and by its truth.
pub data Status : Type 0 where
  flag : Bool → Status
  opaque : ℕ → Bool → Status

-- `bool(statuses.get(key))`.
abbrev pub is_true : Option Status → Bool
is_true none = false
is_true (some (flag b)) = b
is_true (some (opaque number b)) = b

-- The fields of a `Device` that rows read or write, with its id and hub.
pub record Device : Type 0 where
  pub id : Text
  pub hub_id : Text
  pub device_type : Text
  pub bypassed : Bool
  pub statuses : List (Text × Status)

-- The coordinator's attributes that rows write, with the presses fired, newest first, and the
-- numbers of snapshot requests and of `async_set_updated_data` calls.
pub record Rows : Type 0 where
  pub devices : List (Text × Device)
  pub hts_bypass_state : List (Text × (Bool × ℕ))
  pub carried_deactivation_ids : List Text
  pub space_security_arm_flags : List (Text × ℕ)
  pub button_press_epochs : List (Text × ℕ)
  pub presses : List (Text × ℕ)
  pub snapshot_requests : ℕ
  pub updates : ℕ

abbrev pub case_tamper_key : Text
case_tamper_key = codes "hts_case_tamper"

abbrev pub tamper_key : Text
tamper_key = codes "tamper"

-- `_TAMPER_SOURCE_KEYS.values()`.
abbrev pub tamper_source_keys : List Text
tamper_source_keys =
    codes "lid_opened" ∷ codes "smart_bracket_unlocked" ∷ codes "case_drilling" ∷ []

-- `any(statuses.get(key) for key in keys)`.
unfoldable pub any_true : List Text → List (Text × Status) → Bool
any_true [] statuses = false
any_true (key ∷ keys) statuses = is_true (get key statuses) || any_true keys statuses

unfoldable pub without_hts_case_tamper : List (Text × Status) → List (Text × Status)
without_hts_case_tamper statuses =
    let remaining = pop case_tamper_key statuses in
    if any_true tamper_source_keys remaining then remaining else pop tamper_key remaining

-- `self.devices[device_id] = replace(device, statuses=statuses)`, and the listeners are told.
abbrev pub store_statuses : Text → Device → List (Text × Status) → Rows → Rows
store_statuses device_id device statuses s = record s {
  devices = set device_id (record device { statuses = statuses }) s.devices;
  updates = suc s.updates;
}

unfoldable pub withdraw_hts_case_tamper : Text → Device → Rows → Rows
withdraw_hts_case_tamper device_id device s =
    if is_true (get case_tamper_key device.statuses)
    then store_statuses device_id device (without_hts_case_tamper device.statuses) s
    else s

abbrev pub tamper_routed_device_types : List Text
tamper_routed_device_types = codes "motion_protect_curtain" ∷ codes "transmitter" ∷ []

abbrev pub value_of : Option Bytes → List Bytes
value_of none = []
value_of (some value) = value ∷ []

-- `present.values()`.
abbrev pub present : List (ℕ × Bytes) → List Bytes
present kv = value_of (lookup 0x04 kv) ++ value_of (lookup 0x0F kv)

-- `states`: whether each of the values 00 and 01 is 01.
unfoldable pub tamper_states : List Bytes → List Bool
tamper_states [] = []
tamper_states (value ∷ values) =
    if value =ᵇ (0x01 ∷ [])
    then true ∷ tamper_states values
    else if value =ᵇ (0x00 ∷ [])
    then false ∷ tamper_states values
    else tamper_states values

abbrev pub any : List Bool → Bool
any [] = false
any (b ∷ bs) = b || any bs

unfoldable pub tamper_on : Text → Device → Rows → Rows
tamper_on device_id device s =
    if is_true (get case_tamper_key device.statuses) && is_true (get tamper_key device.statuses)
    then s
    else store_statuses device_id device
        (set case_tamper_key (flag true) (set tamper_key (flag true) device.statuses)) s

unfoldable pub apply_hts_device_tamper : Text → Device → List (ℕ × Bytes) → Rows → Rows
apply_hts_device_tamper device_id device kv s =
    let states = tamper_states (present kv) in
    if not (is_nonempty (present kv))
    then s
    else if not (has_text device.device_type tamper_routed_device_types)
    then withdraw_hts_case_tamper device_id device s
    else if not (is_nonempty states)
    then s
    else if any states
    then tamper_on device_id device s
    else withdraw_hts_case_tamper device_id device s

-- `any(byte != 0 for byte in raw)`.
unfoldable pub any_nonzero : Bytes → Bool
any_nonzero [] = false
any_nonzero (b ∷ raw) = not (b == 0) || any_nonzero raw

-- `DEACTIVATION_STATUS_KEYS` and `DEACTIVATED_KEY`.
abbrev pub deactivation_keys : List Text
deactivation_keys =
    codes "temporary_deactivation_whole"
    ∷ codes "temporary_deactivation_tamper"
    ∷ codes "one_time_deactivation_whole"
    ∷ codes "one_time_deactivation_tamper"
    ∷ codes "temporary_deactivation_alarms"
    ∷ codes "temporary_deactivation_timer"
    ∷ codes "temporary_deactivation"
    ∷ codes "one_time_deactivation"
    ∷ codes "deactivated"
    ∷ []

unfoldable pub without_keys : List Text → List (Text × Status) → List (Text × Status)
without_keys keys [] = []
without_keys keys ((key, value) ∷ statuses) =
    if has_text key keys
    then without_keys keys statuses
    else (key, value) ∷ without_keys keys statuses

abbrev pub or_device : Option Device → Device → Device
or_device none device = device
or_device (some current) device = current

abbrev pub track_bypass : Text → Device → Option Bytes → ℕ → Rows → Rows
track_bypass device_id device none now s = s
track_bypass device_id device (some raw) now s =
    let deactivated = any_nonzero raw in
    let seen : Rows = record s {
      hts_bypass_state = set device_id (deactivated, now) s.hts_bypass_state;
    } in
    let current = or_device (get device_id s.devices) device in
    if deactivated || not (has_text device_id s.carried_deactivation_ids)
    then seen
    else record seen {
      carried_deactivation_ids = discard device_id s.carried_deactivation_ids;
      devices =
          set device_id
            (record current {
              statuses = without_keys deactivation_keys current.statuses;
              bypassed = false;
            })
            s.devices;
      updates = suc s.updates;
    }

unfoldable pub track_hts_bypass_state : Text → Device → List (ℕ × Bytes) → ℕ → Rows → Rows
track_hts_bypass_state device_id device kv now s =
    track_bypass device_id device (lookup 0xB7 kv) now s

abbrev pub contact_state_device_types : List Text
contact_state_device_types = codes "wire_input_mt" ∷ codes "wire_input_rs" ∷ []

abbrev pub contact_key : Text
contact_key = codes "external_contact_open"

-- 00 is open and 01 is closed; any other value says nothing.
abbrev pub contact_open : Option Bytes → Option Bool
contact_open none = none
contact_open (some raw) =
    if raw =ᵇ (0x00 ∷ []) then some true else if raw =ᵇ (0x01 ∷ []) then some false else none

-- `statuses.get(key) is value`.
abbrev pub is_flag : Bool → Option Status → Bool
is_flag true (some (flag b)) = b
is_flag false (some (flag b)) = not b
is_flag value _ = false

abbrev pub store_contact : Text → Device → Option Bool → Rows → Rows
store_contact device_id device none s = s
store_contact device_id device (some value) s =
    if is_flag value (get contact_key device.statuses)
    then s
    else store_statuses device_id device (set contact_key (flag value) device.statuses) s

abbrev pub contact_of_device : Text → Option Device → List (ℕ × Bytes) → Rows → Rows
contact_of_device device_id none kv s = s
contact_of_device device_id (some device) kv s =
    if not (has_text device.device_type contact_state_device_types)
    then s
    else store_contact device_id device (contact_open (lookup 0x33 kv)) s

unfoldable pub apply_hts_contact_state : Text → List (ℕ × Bytes) → Rows → Rows
apply_hts_contact_state device_id kv s = contact_of_device device_id (get device_id s.devices) kv s
