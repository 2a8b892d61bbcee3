-- ===== src/Coordinator/Writes.antt =====
-- What writes the spaces in coordinator.py: `apply_push_security_state`,
-- `apply_push_group_security_state`, `note_intrusion_alarm` and `_drop_cleared_alarms`; and the
-- panel's optimistic write in alarm_control_panel.py.
pub mod Panel
pub mod Refresh
pub mod Reachable
pub mod Disarm
pub mod Merged
pub mod Poll
use aegis_hass.Base.{
  ℕ, ◌+◌, ◌*◌, Bool, true, false, not, ◌&&◌, ◌||◌, ◌==◌, ltb, leb, if◌then◌else◌, Option, none,
  some, List, [], ◌∷◌, map, is_nonempty, ◌=ᵇ◌,
}
use aegis_hass.Base.Text.{Text}
use aegis_hass.Base.TextMap.{get, set, pop, has_text}
use aegis_hass.Coordinator.Models.{
  SecurityState, armed, disarmed, night_mode, same_state, is_disarmed, ChimeStatus,
  chime_unspecified, Group, Space, Clock, Coordinator,
}
use aegis_hass.Coordinator.Overlays.{second, notify, clear_delay_overlay, sync_delay_overlays}

-- `bool(a == b)` on Booleans.
abbrev pub same_bool : Bool → Bool → Bool
same_bool true b = b
same_bool false b = not b

-- `set.add` and `set.discard`.
unfoldable pub add : Text → List Text → List Text
add a texts = if has_text a texts then texts else a ∷ texts

unfoldable pub discard : Text → List Text → List Text
discard a [] = []
discard a (t ∷ texts) = if t =ᵇ a then discard a texts else t ∷ discard a texts

-- `opt and opt[0] > now`.
abbrev pub is_live : ℕ → Option (ℕ × SecurityState) → Bool
is_live now none = false
is_live now (some (expiry, state)) = ltb now expiry

-- `night_mode_enabled` after a state was set.
unfoldable pub night_after : SecurityState → Bool → Bool
night_after new_state enabled =
    if same_state new_state night_mode
    then true
    else if same_state new_state armed || same_state new_state disarmed
    then false
    else enabled

-- `if new_state in (DISARMED, NONE): alarmed_space_ids.discard(space_id)`.
unfoldable pub acknowledge : Text → SecurityState → Coordinator → Coordinator
acknowledge space_id new_state c = record c {
  alarmed_space_ids =
      if is_disarmed new_state then discard space_id c.alarmed_space_ids else c.alarmed_space_ids;
}

abbrev pub with_state : SecurityState → Space → Space
with_state new_state space = record space {
  security_state = new_state;
  night_mode_enabled = night_after new_state space.night_mode_enabled;
}

abbrev pub store_space : Text → Space → Coordinator → Coordinator
store_space space_id space c = record c { spaces = set space_id space c.spaces }

unfoldable pub push_to_space : Clock → Text → SecurityState → Space → Coordinator → Coordinator
push_to_space clock space_id new_state space c =
    if is_live clock.loop (get space_id c.optimistic_space_states)
    then c
    else if same_state space.security_state new_state
        && same_bool space.night_mode_enabled (night_after new_state space.night_mode_enabled)
    then c
    else notify (sync_delay_overlays clock (store_space space_id (with_state new_state space) c))

abbrev pub push_if_known : Clock → Text → SecurityState → Option Space → Coordinator → Coordinator
push_if_known clock space_id new_state none c = c
push_if_known clock space_id new_state (some space) c =
    push_to_space clock space_id new_state space (acknowledge space_id new_state c)

unfoldable pub apply_push_security_state : Clock → Text → SecurityState → Coordinator → Coordinator
apply_push_security_state clock space_id new_state c =
    push_if_known clock space_id new_state (get space_id c.spaces) c

-- `next((g for g in groups if g.id == group_id), None)`.
unfoldable pub find_group : Text → List Group → Option Group
find_group group_id [] = none
find_group group_id (g ∷ groups) = if g.id =ᵇ group_id then some g else find_group group_id groups

abbrev pub set_group : Text → SecurityState → Group → Group
set_group group_id new_state g =
    if g.id =ᵇ group_id then record g { security_state = new_state } else g

abbrev pub push_to_group :
    Text → Text → SecurityState → Space → Option Group → Coordinator → Coordinator
push_to_group space_id group_id new_state space none c = c
push_to_group space_id group_id new_state space (some target) c =
    if same_state target.security_state new_state
    then c
    else notify (
        store_space space_id
          (record space { groups = map (set_group group_id new_state) space.groups }) c)

abbrev pub push_to_groups : Text → Text → SecurityState → Option Space → Coordinator → Coordinator
push_to_groups space_id group_id new_state none c = c
push_to_groups space_id group_id new_state (some space) c =
    push_to_group space_id group_id new_state space (find_group group_id space.groups) c

unfoldable pub apply_push_group_security_state :
    Text → Text → SecurityState → Coordinator → Coordinator
apply_push_group_security_state space_id group_id new_state c =
    push_to_groups space_id group_id new_state (get space_id c.spaces) c

abbrev pub note_in_space : Text → Option Space → Coordinator → Coordinator
note_in_space space_id none c = c
note_in_space space_id (some space) c =
    notify
      (clear_delay_overlay space_id
        (record c { alarmed_space_ids = add space_id c.alarmed_space_ids })).1

unfoldable pub note_intrusion_alarm : Text → Coordinator → Coordinator
note_intrusion_alarm space_id c = note_in_space space_id (get space_id c.spaces) c

-- `space is None or space.security_state in (DISARMED, NONE)`.
abbrev pub is_cleared : Option Space → Bool
is_cleared none = true
is_cleared (some space) = is_disarmed space.security_state

unfoldable pub cleared_alarms : List (Text × Space) → List Text → List Text
cleared_alarms spaces [] = []
cleared_alarms spaces (space_id ∷ rest) =
    if is_cleared (get space_id spaces)
    then cleared_alarms spaces rest
    else space_id ∷ cleared_alarms spaces rest

unfoldable pub drop_cleared_alarms : Coordinator → Coordinator
drop_cleared_alarms c = record c { alarmed_space_ids = cleared_alarms c.spaces c.alarmed_space_ids }

-- `_optimistic_state_update` of a panel whose coordinator keeps the state.
abbrev pub optimistic_in_space :
    Clock → Text → SecurityState → Option Space → Coordinator → Coordinator
optimistic_in_space clock space_id new_state none c = c
optimistic_in_space clock space_id new_state (some space) c =
    let stored = store_space space_id (with_state new_state space) c in
    let acknowledged : Coordinator = record stored {
      alarmed_space_ids =
          if same_state new_state disarmed
          then discard space_id stored.alarmed_space_ids
          else stored.alarmed_space_ids;
    } in
    let synced = sync_delay_overlays clock acknowledged in
    record synced {
      optimistic_space_states =
          set space_id (clock.loop + 10 * second, new_state) synced.optimistic_space_states;
    }

unfoldable pub optimistic_state_update : Clock → Text → SecurityState → Coordinator → Coordinator
optimistic_state_update clock space_id new_state c =
    optimistic_in_space clock space_id new_state (get space_id c.spaces) c
