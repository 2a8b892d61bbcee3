-- ===== src/Coordinator/Writes/Panel.antt =====
-- The state that the alarm panel of alarm_control_panel.py shows: `alarm_state`, `_hub_state` and
-- `map_security_state`.
use aegis_hass.Base.{not, ◌&&◌, if◌then◌else◌, Option, none, some}
use aegis_hass.Base.Text.{Text}
use aegis_hass.Base.TextMap.{get, has_text}
use aegis_hass.Coordinator.Models.{
  SecurityState, state_none, armed, disarmed, night_mode, partially_armed, awaiting_exit_timer,
  awaiting_second_stage, two_stage_incomplete, awaiting_vds, same_state, is_disarmed, Space, arming,
  pending, Installed, Coordinator,
}

-- `AlarmControlPanelState`, as far as the panel shows it.
pub data PanelState : Type 0 where
  panel_disarmed : PanelState
  panel_armed_away : PanelState
  panel_armed_night : PanelState
  panel_armed_custom_bypass : PanelState
  panel_arming : PanelState
  panel_pending : PanelState
  panel_triggered : PanelState

unfoldable pub map_security_state : SecurityState → PanelState
map_security_state armed = panel_armed_away
map_security_state disarmed = panel_disarmed
map_security_state night_mode = panel_armed_night
map_security_state partially_armed = panel_armed_custom_bypass
map_security_state awaiting_exit_timer = panel_arming
map_security_state awaiting_second_stage = panel_arming
map_security_state two_stage_incomplete = panel_arming
map_security_state awaiting_vds = panel_arming
map_security_state state_none = panel_disarmed

unfoldable pub hub_state : Space → PanelState
hub_state space =
    if same_state space.security_state partially_armed && space.night_mode_enabled
    then panel_armed_night
    else map_security_state space.security_state

-- What the overlay makes of the state, in a space that is not disarmed.
abbrev pub overlay_state : Option Installed → Space → PanelState
overlay_state none space = hub_state space
overlay_state (some installed) space = elim installed.overlay.kind [
  | pending ↦ panel_pending
  | arming ↦ panel_arming
]

unfoldable pub space_state : Text → Space → Coordinator → PanelState
space_state space_id space c =
    if has_text space_id c.alarmed_space_ids && not (is_disarmed space.security_state)
    then panel_triggered
    else if not (is_disarmed space.security_state)
    then overlay_state (get space_id c.delay_overlays) space
    else hub_state space

abbrev pub state_if_known : Text → Option Space → Coordinator → Option PanelState
state_if_known space_id none c = none
state_if_known space_id (some space) c = some (space_state space_id space c)

unfoldable pub alarm_state : Text → Coordinator → Option PanelState
alarm_state space_id c = state_if_known space_id (get space_id c.spaces) c
