-- ===== src/Coordinator/Rows/Presses.antt =====
-- Button presses and the arm flags of a hub's security objects, in coordinator.py.
use aegis_hass.Base.{
  ℕ, suc, Bool, true, false, not, ◌&&◌, ◌==◌, ltb, leb, if◌then◌else◌, Option, none, some, List, [],
  ◌∷◌, length, take, Bytes, ◌=ᵇ◌, from_bytes,
}
use aegis_hass.Base.Kv.{lookup}
use aegis_hass.Base.Text.{Text, codes}
use aegis_hass.Base.TextMap.{get, set}
use aegis_hass.Coordinator.Rows.{Device, Rows}

-- `_HTS_EPOCH_MIN` and `_HTS_EPOCH_MAX`.
abbrev pub hts_epoch_min : ℕ
hts_epoch_min = 1420070400

abbrev pub hts_epoch_max : ℕ
hts_epoch_max = 4102444800

-- The epoch that a row reports, where it is a plausible one.
abbrev pub press_epoch : Option Bytes → Option ℕ
press_epoch none = none
press_epoch (some raw) =
    if not (length raw == 4)
    then none
    else if leb hts_epoch_min (from_bytes raw) && leb (from_bytes raw) hts_epoch_max
    then some (from_bytes raw)
    else none

-- `previous is None or seconds <= previous`, negated.
abbrev pub is_press : Option ℕ → ℕ → Bool
is_press none seconds = false
is_press (some previous) seconds = ltb previous seconds

abbrev pub note_press : Text → Option ℕ → Rows → Rows
note_press device_id none s = s
note_press device_id (some seconds) s =
    let previous = get device_id s.button_press_epochs in
    record s {
      button_press_epochs = set device_id seconds s.button_press_epochs;
      presses = if is_press previous seconds then (device_id, seconds) ∷ s.presses else s.presses;
    }

unfoldable pub fire_button_press : (Device → Bool) → Text → Device → List (ℕ × Bytes) → Rows → Rows
fire_button_press is_button_press device_id device kv s =
    if is_button_press device then note_press device_id (press_epoch (lookup 0x39 kv)) s else s

-- A hub's own security object: six zeros lead its id.
abbrev pub is_security_id : Text → Bool
is_security_id id = length id == 8 && (take 6 id =ᵇ codes "000000" && not (id =ᵇ codes "00000000"))

-- `previous is not None and previous != arm`.
abbrev pub is_flip : Option ℕ → ℕ → Bool
is_flip none arm = false
is_flip (some previous) arm = not (previous == arm)

abbrev pub nudge : Text → Option Bytes → Rows → Bool × Rows
nudge device_id none s = (false, s)
nudge device_id (some []) s = (false, s)
nudge device_id (some (arm ∷ [])) s = (
  true,
  record s {
    space_security_arm_flags = set device_id arm s.space_security_arm_flags;
    snapshot_requests =
        if is_flip (get device_id s.space_security_arm_flags) arm
        then suc s.snapshot_requests
        else s.snapshot_requests;
  },
)
nudge device_id (some (arm ∷ more ∷ rest)) s = (true, s)

-- Whether the row is a security object's, and the state after it.
unfoldable pub nudge_space_security : Text → List (ℕ × Bytes) → Rows → Bool × Rows
nudge_space_security device_id kv s =
    if is_security_id device_id then nudge device_id (lookup 0x06 kv) s else (false, s)
