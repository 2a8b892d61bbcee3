-- ===== src/Coordinator/Models.antt =====
-- The data of api/models.py, const.py and delay_states.py that `AjaxCobrandedCoordinator` of
-- coordinator.py keeps for its spaces. Times are milliseconds.
pub mod States
use aegis_hass.Base.{ℕ, Bool, ◌==◌, List, Option, ◌||◌}
use aegis_hass.Base.Text.{Text}

pub data SecurityState : Type 0 where
  state_none : SecurityState
  armed : SecurityState
  disarmed : SecurityState
  night_mode : SecurityState
  partially_armed : SecurityState
  awaiting_exit_timer : SecurityState
  awaiting_second_stage : SecurityState
  two_stage_incomplete : SecurityState
  awaiting_vds : SecurityState

-- An `IntEnum` is compared by its value.
abbrev pub value : SecurityState → ℕ
value state_none = 0
value armed = 1
value disarmed = 2
value night_mode = 3
value partially_armed = 4
value awaiting_exit_timer = 5
value awaiting_second_stage = 6
value two_stage_incomplete = 7
value awaiting_vds = 8

unfoldable pub same_state : SecurityState → SecurityState → Bool
same_state a b = value a == value b

-- `state in (SecurityState.DISARMED, SecurityState.NONE)`.
unfoldable pub is_disarmed : SecurityState → Bool
is_disarmed state = same_state state disarmed || same_state state state_none

pub data ConnectionStatus : Type 0 where
  status_unspecified : ConnectionStatus
  online : ConnectionStatus
  offline : ConnectionStatus

pub data ChimeStatus : Type 0 where
  chime_unspecified : ChimeStatus
  enabled : ChimeStatus
  can_be_enabled : ChimeStatus
  malfunction : ChimeStatus
  disabled : ChimeStatus

pub data MonitoringCompanyStatus : Type 0 where
  company_unspecified : MonitoringCompanyStatus
  pending_approval : MonitoringCompanyStatus
  approved : MonitoringCompanyStatus
  pending_deletion : MonitoringCompanyStatus

pub record MonitoringCompany : Type 0 where
  pub name : Text
  pub status : MonitoringCompanyStatus
  pub hex_id : Text

pub record Group : Type 0 where
  pub id : Text
  pub space_id : Text
  pub name : Text
  pub security_state : SecurityState
  pub sorting_key : Text

pub record Space : Type 0 where
  pub id : Text
  pub hub_id : Text
  pub name : Text
  pub security_state : SecurityState
  pub connection_status : ConnectionStatus
  pub malfunctions_count : ℕ
  pub monitoring_companies : List MonitoringCompany
  pub monitoring_companies_loaded : Bool
  pub groups : List Group
  pub group_mode_enabled : Bool
  pub night_mode_enabled : Bool
  pub chime_status : ChimeStatus

pub record ArmDelays : Type 0 where
  pub arm_delay_seconds : ℕ
  pub alarm_delay_seconds : ℕ
  pub in_night_mode : Option Bool

pub data DelayKind : Type 0 where
  arming : DelayKind
  pending : DelayKind

pub record DelayOverlay : Type 0 where
  pub kind : DelayKind
  pub ends_at : ℕ
  pub from_hub : Bool

-- An overlay with the identity that `is` compares, and a handle of `call_later` with its callback's
-- arguments.
pub record Installed : Type 0 where
  pub object : ℕ
  pub overlay : DelayOverlay

pub record Timer : Type 0 where
  pub due : ℕ
  pub space_id : Text
  pub object : ℕ

-- `dt_util.utcnow()` and the event loop's clock.
pub record Clock : Type 0 where
  pub utc : ℕ
  pub loop : ℕ

-- The attributes of the coordinator that a space's state is computed from, with the event loop's
-- pending timers by their handles and the number of `async_set_updated_data` calls.
pub record Coordinator : Type 0 where
  pub space_ids : List Text
  pub spaces : List (Text × Space)
  pub device_hubs : List (Text × Text)
  pub device_arm_delays : List (Text × ArmDelays)
  pub delay_panel_states : Bool
  pub delay_overlays : List (Text × Installed)
  pub delay_overlay_cancels : List (Text × ℕ)
  pub last_security_states : List (Text × SecurityState)
  pub optimistic_space_states : List (Text × (ℕ × SecurityState))
  pub alarmed_space_ids : List Text
  pub timers : List (ℕ × Timer)
  pub next_handle : ℕ
  pub updates : ℕ
