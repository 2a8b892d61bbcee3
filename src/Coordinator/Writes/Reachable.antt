-- ===== src/Coordinator/Writes/Reachable.antt =====
-- The event loop's steps on the spaces of coordinator.py: polls, pushes, the hub's events, timers.
pub mod Preserved
pub mod Steps
pub mod Events
pub mod Sound
use aegis_hass.Base.{ℕ, ◌≤◌, ◌≡◌, Bool, false, zero, Option, some, List, [], Bytes}
use aegis_hass.Base.Kv.{lookup, remove}
use aegis_hass.Base.Text.{Text}
use aegis_hass.Coordinator.Models.{SecurityState, Space, Timer, Coordinator}
use aegis_hass.Coordinator.Delays.{track_arm_delays}
use aegis_hass.Coordinator.Overlays.{clock_at, expire_delay_overlay, on_hts_hub_event}
use aegis_hass.Coordinator.Writes.{
  apply_push_security_state, apply_push_group_security_state, note_intrusion_alarm,
  optimistic_state_update,
}
use aegis_hass.Coordinator.Writes.Refresh.{poll_spaces}
use aegis_hass.Hts.HubEvents.{HubEvent}

-- The event loop takes a timer out and runs its callback.
unfoldable pub fire : ℕ → Timer → Coordinator → Coordinator
fire handle timer c =
    expire_delay_overlay timer.space_id timer.object (record c { timers = remove handle c.timers })

-- One callback of the event loop, at some time of its clock.
pub data Callback (epoch : ℕ) : Coordinator → Coordinator → Type 0 where
  polled :
      (time : ℕ) (listed : List Space) (c : Coordinator)
      → Callback epoch c (poll_spaces (clock_at epoch time) listed c)
  pushed :
      (time : ℕ) (space_id : Text) (state : SecurityState) (c : Coordinator)
      → Callback epoch c (apply_push_security_state (clock_at epoch time) space_id state c)
  group_pushed :
      (space_id group_id : Text) (state : SecurityState) (c : Coordinator)
      → Callback epoch c (apply_push_group_security_state space_id group_id state c)
  alarm_pushed :
      (space_id : Text) (c : Coordinator) → Callback epoch c (note_intrusion_alarm space_id c)
  commanded :
      (time : ℕ) (space_id : Text) (state : SecurityState) (c : Coordinator)
      → Callback epoch c (optimistic_state_update (clock_at epoch time) space_id state c)
  hub_event :
      (time : ℕ) (event : HubEvent) (c : Coordinator)
      → Callback epoch c (on_hts_hub_event (clock_at epoch time) event c)
  settings_row :
      (device_id : Text) (kv : List (ℕ × Bytes)) (c : Coordinator)
      → Callback epoch c (track_arm_delays device_id kv c)
  devices_changed :
      (hubs : List (Text × Text)) (c : Coordinator)
      → Callback epoch c (record c { device_hubs = hubs })
  timer_due :
      (time handle : ℕ) (timer : Timer) (c : Coordinator)
      → lookup handle c.timers ≡ some timer
      → timer.due ≤ time
      → Callback epoch c (fire handle timer c)

abbrev pub started : List Text → Bool → Coordinator
started space_ids panel_states = record {
  space_ids = space_ids;
  spaces = [];
  device_hubs = [];
  device_arm_delays = [];
  delay_panel_states = panel_states;
  delay_overlays = [];
  delay_overlay_cancels = [];
  last_security_states = [];
  optimistic_space_states = [];
  alarmed_space_ids = [];
  timers = [];
  next_handle = zero;
  updates = zero;
}

pub data Reachable (epoch : ℕ) : Coordinator → Type 0 where
  begin :
      (space_ids : List Text) (panel_states : Bool)
      → Reachable epoch (started space_ids panel_states)
  then_step : (c d : Coordinator) → Reachable epoch c → Callback epoch c d → Reachable epoch d
