-- ===== src/Examples/Panels.antt =====
-- Tests of the spaces and the delays of coordinator.py on small states.
use aegis_hass.Base.{
  ℕ, ◌+◌, ◌*◌, ◌≤◌, ◌≡◌, refl, true, false, none, some, List, [], ◌∷◌, Bytes, from_bytes,
}
use aegis_hass.Base.Text.{Text}
use aegis_hass.Base.Kv.{lookup, insert, remove, has_key}
use aegis_hass.Base.TextMap.{get, set, pop, keys, has_text, IsDict}
use aegis_hass.Coordinator.Models.{
  SecurityState, armed, disarmed, same_state, is_disarmed, online, Space, chime_unspecified, arming,
  Installed, Timer, ArmDelays, Coordinator,
}
use aegis_hass.Coordinator.Delays.{
  parse_arm_delays, is_on_hub, u16, track_arm_delays, hub_arm_delays, space_arm_delays,
  longest_exit, space_exit_delay_seconds,
}
use aegis_hass.Coordinator.Delays.Longest.{space_exit_delay_seconds-track_arm_delays}
use aegis_hass.Coordinator.Overlays.{
  second, delay_overlay_grace_seconds, clock_at, cancel_delay_timer, clear_delay_overlay,
  set_delay_overlay, drop_if_untracked, drop_untracked, start_arming, sync_space, sync_spaces,
  sync_delay_overlays,
}
use aegis_hass.Coordinator.Overlays.Sync.{shown}
use aegis_hass.Coordinator.Overlays.Loop.{synced_at}
use aegis_hass.Coordinator.Overlays.Synced.{noted_at, sync_delay_overlays-SyncedAt}
use aegis_hass.Coordinator.Writes.{
  is_live, night_after, acknowledge, discard, push_to_space, apply_push_security_state,
  drop_cleared_alarms, cleared_alarms,
}
use aegis_hass.Coordinator.Writes.Refresh.{merge_space, merge_spaces, poll_spaces}
use aegis_hass.Coordinator.Writes.Disarm.{IsQuiet, apply_push_security_state-IsQuiet}
use aegis_hass.Coordinator.Writes.Poll.{
  find_space, merged_at, poll_spaces-merged_at, poll_spaces-held,
}
use aegis_hass.Coordinator.Writes.Reachable.{
  fire, Reachable, begin, then_step, started, polled, pushed, settings_row, devices_changed,
}
use aegis_hass.Coordinator.Writes.Reachable.Preserved.{IsArmedIn}
use aegis_hass.Coordinator.Writes.Reachable.Sound.{shown-IsArmedIn, fire-shown}

abbrev home_id : Text
home_id = 1 ∷ []

abbrev hub : Text
hub = 7 ∷ []

abbrev door : Text
door = 9 ∷ []

abbrev home_in : SecurityState → Space
home_in state = record {
  id = home_id;
  hub_id = hub;
  name = [];
  security_state = state;
  connection_status = online;
  malfunctions_count = 0;
  monitoring_companies = [];
  monitoring_companies_loaded = false;
  groups = [];
  group_mode_enabled = false;
  night_mode_enabled = false;
  chime_status = chime_unspecified;
}

-- A settings row with an exit delay of 30 seconds.
abbrev door_row : List (ℕ × Bytes)
door_row = (0xAC, 0 ∷ 30 ∷ []) ∷ []

abbrev door_delays : ArmDelays
door_delays = record { arm_delay_seconds = 30; alarm_delay_seconds = 0; in_night_mode = none }

abbrev begun : Coordinator
begun = started (home_id ∷ []) true

abbrev with_door : Coordinator
with_door = track_arm_delays door door_row (record begun { device_hubs = (door, hub) ∷ [] })

abbrev at_home : Coordinator
at_home = poll_spaces (clock_at 5000 1000) (home_in disarmed ∷ []) with_door

abbrev leaving : Coordinator
leaving = apply_push_security_state (clock_at 5000 2000) home_id armed at_home

leaving_reached : Reachable 5000 leaving
leaving_reached =
    then_step at_home leaving
      (then_step with_door at_home
        (then_step (record begun { device_hubs = (door, hub) ∷ [] }) with_door
          (then_step begun _ (begin (home_id ∷ []) true) (devices_changed ((door, hub) ∷ []) begun))
          (settings_row door door_row _))
        (polled 1000 (home_in disarmed ∷ []) with_door))
      (pushed 2000 home_id armed at_home)

abbrev leaving_overlay : Installed
leaving_overlay = record {
  object = 0;
  overlay = record { kind = arming; ends_at = 37000; from_hub = false };
}

leaving_shown : get home_id leaving.delay_overlays ≡ some leaving_overlay
unfolding get set pop keys has_text lookup insert remove has_key same_state is_disarmed
    parse_arm_delays u16 track_arm_delays hub_arm_delays space_arm_delays longest_exit
    space_exit_delay_seconds cancel_delay_timer clear_delay_overlay set_delay_overlay
    drop_if_untracked drop_untracked start_arming sync_space sync_spaces sync_delay_overlays
    night_after acknowledge discard push_to_space apply_push_security_state merge_space merge_spaces
    drop_cleared_alarms cleared_alarms poll_spaces from_bytes
leaving_shown = refl

shown-IsArmedIn_example : IsArmedIn leaving home_id × (leaving.delay_panel_states ≡ true)
shown-IsArmedIn_example =
    shown-IsArmedIn 5000 leaving home_id leaving_overlay leaving_reached leaving_shown

fire-shown_example :
    (timer : Timer) × (lookup 0 leaving.timers ≡ some timer)
    × (5000 + timer.due ≡ 37000 + delay_overlay_grace_seconds * second)
    × (get home_id (fire 0 timer leaving).delay_overlays ≡ none)
fire-shown_example = fire-shown 5000 leaving home_id leaving_overlay leaving_reached leaving_shown

leaving_home : get home_id leaving.spaces ≡ some (home_in armed)
unfolding get set pop keys has_text lookup insert remove has_key same_state is_disarmed
    parse_arm_delays u16 track_arm_delays hub_arm_delays space_arm_delays longest_exit
    space_exit_delay_seconds cancel_delay_timer clear_delay_overlay set_delay_overlay
    drop_if_untracked drop_untracked start_arming sync_space sync_spaces sync_delay_overlays
    night_after acknowledge discard push_to_space apply_push_security_state merge_space merge_spaces
    drop_cleared_alarms cleared_alarms poll_spaces from_bytes
leaving_home = refl

leaving_free : is_live 3000 (get home_id leaving.optimistic_space_states) ≡ false
unfolding get set pop keys has_text lookup insert remove has_key same_state is_disarmed
    parse_arm_delays u16 track_arm_delays hub_arm_delays space_arm_delays longest_exit
    space_exit_delay_seconds cancel_delay_timer clear_delay_overlay set_delay_overlay
    drop_if_untracked drop_untracked start_arming sync_space sync_spaces sync_delay_overlays
    night_after acknowledge discard push_to_space apply_push_security_state merge_space merge_spaces
    drop_cleared_alarms cleared_alarms poll_spaces from_bytes
leaving_free = refl

is_off : is_disarmed disarmed ≡ true
unfolding is_disarmed same_state
is_off = refl

apply_push_security_state-IsQuiet_example :
    IsQuiet home_id (apply_push_security_state (clock_at 5000 3000) home_id disarmed leaving)
apply_push_security_state-IsQuiet_example =
    apply_push_security_state-IsQuiet 5000 3000 home_id disarmed (home_in armed) leaving
      leaving_reached leaving_home is_off leaving_free

abbrev arming_home : Coordinator
arming_home = record with_door {
  spaces = (home_id, home_in armed) ∷ [];
  last_security_states = (home_id, disarmed) ∷ [];
}

arming-IsDict : IsDict arming_home.spaces
unfolding get
arming-IsDict = (refl, tt)

sync_delay_overlays-SyncedAt_example :
    (shown home_id (sync_delay_overlays (clock_at 5000 2000) arming_home)
      ≡ synced_at (clock_at 5000 2000) arming_home home_id (get home_id arming_home.spaces))
    × (get home_id (sync_delay_overlays (clock_at 5000 2000) arming_home).last_security_states
        ≡ noted_at (get home_id arming_home.spaces) (get home_id arming_home.last_security_states))
sync_delay_overlays-SyncedAt_example =
    sync_delay_overlays-SyncedAt (clock_at 5000 2000) arming_home home_id arming-IsDict

poll_spaces-merged_at_example :
    get home_id (poll_spaces (clock_at 5000 3000) (home_in disarmed ∷ []) arming_home).spaces
    ≡ merged_at 3000 arming_home.space_ids
        (get home_id arming_home.spaces)
        (get home_id arming_home.optimistic_space_states)
        home_id
        (find_space home_id (home_in disarmed ∷ []))
poll_spaces-merged_at_example =
    poll_spaces-merged_at (clock_at 5000 3000) (home_in disarmed ∷ []) arming_home home_id
      (refl, tt)

abbrev held_home : Coordinator
held_home = record arming_home { optimistic_space_states = (home_id, (9000, armed)) ∷ [] }

held_there : get home_id held_home.optimistic_space_states ≡ some (9000, armed)
unfolding get
held_there = refl

home_wanted : has_text home_id held_home.space_ids ≡ true
unfolding get set pop keys has_text lookup insert remove has_key same_state is_disarmed
    parse_arm_delays u16 track_arm_delays hub_arm_delays space_arm_delays longest_exit
    space_exit_delay_seconds cancel_delay_timer clear_delay_overlay set_delay_overlay
    drop_if_untracked drop_untracked start_arming sync_space sync_spaces sync_delay_overlays
    night_after acknowledge discard push_to_space apply_push_security_state merge_space merge_spaces
    drop_cleared_alarms cleared_alarms poll_spaces from_bytes
home_wanted = refl

poll_spaces-held_example :
    (shown : Space) × (get home_id
        (poll_spaces (clock_at 5000 3000) (home_in disarmed ∷ []) held_home).spaces
      ≡ some shown)
    × (shown.security_state ≡ armed)
poll_spaces-held_example =
    poll_spaces-held (clock_at 5000 3000) (home_in disarmed ∷ []) held_home (home_in disarmed) 9000
      armed (refl, tt) refl home_wanted held_there refl

door_parsed : parse_arm_delays door_row ≡ some door_delays
unfolding get set pop keys has_text lookup insert remove has_key same_state is_disarmed
    parse_arm_delays u16 track_arm_delays hub_arm_delays space_arm_delays longest_exit
    space_exit_delay_seconds cancel_delay_timer clear_delay_overlay set_delay_overlay
    drop_if_untracked drop_untracked start_arming sync_space sync_spaces sync_delay_overlays
    night_after acknowledge discard push_to_space apply_push_security_state merge_space merge_spaces
    drop_cleared_alarms cleared_alarms poll_spaces from_bytes
door_parsed = refl

door_there : is_on_hub hub (get door arming_home.device_hubs) ≡ true
unfolding get set pop keys has_text lookup insert remove has_key same_state is_disarmed
    parse_arm_delays u16 track_arm_delays hub_arm_delays space_arm_delays longest_exit
    space_exit_delay_seconds cancel_delay_timer clear_delay_overlay set_delay_overlay
    drop_if_untracked drop_untracked start_arming sync_space sync_spaces sync_delay_overlays
    night_after acknowledge discard push_to_space apply_push_security_state merge_space merge_spaces
    drop_cleared_alarms cleared_alarms poll_spaces from_bytes
door_there = refl

arming_there : get home_id arming_home.spaces ≡ some (home_in armed)
unfolding get
arming_there = refl

space_exit_delay_seconds-track_arm_delays_example :
    30 ≤ space_exit_delay_seconds home_id false (track_arm_delays door door_row arming_home)
space_exit_delay_seconds-track_arm_delays_example =
    space_exit_delay_seconds-track_arm_delays false home_id door (home_in armed) door_row
      door_delays arming_home arming_there door_there door_parsed refl
