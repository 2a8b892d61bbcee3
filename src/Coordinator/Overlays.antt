-- ===== src/Coordinator/Overlays.antt =====
-- The overlays of running delays in coordinator.py: `_set_delay_overlay`, `_expire_delay_overlay`,
-- `_cancel_delay_timer`, `_clear_delay_overlay`, `sync_delay_overlays` and `_on_hts_hub_event`.
pub mod Timed
pub mod Install
pub mod Sync
pub mod Loop
pub mod Synced
pub mod Steady
use aegis_hass.Base.{
  ℕ, ◌+◌, ◌*◌, suc, zero, Bool, true, false, not, ◌==◌, if◌then◌else◌, Option, none, some, List, [],
  ◌∷◌, ◌=ᵇ◌,
}
use aegis_hass.Base.Int.{ℤ, pos, negsuc}
use aegis_hass.Base.Kv.{insert, remove, is_some}
use aegis_hass.Base.Text.{Text}
use aegis_hass.Base.TextMap.{get, set, pop, keys}
use aegis_hass.Coordinator.Models.{
  SecurityState, night_mode, same_state, is_disarmed, Space, DelayKind, arming, pending,
  DelayOverlay, Installed, Timer, Clock, Coordinator,
}
use aegis_hass.Coordinator.Delays.{space_exit_delay_seconds, space_entry_delay_seconds}
use aegis_hass.Hts.HubEvents.{
  HubEvent, delay_seconds, hub_event_exit_delay_complete, hub_event_entry_delay_started,
}

abbrev pub second : ℕ
second = 1000

abbrev pub delay_overlay_grace_seconds : ℕ
delay_overlay_grace_seconds = 2

-- The clocks at the loop's time `loop_now`, the wall clock being `epoch` ahead.
abbrev pub clock_at : ℕ → ℕ → Clock
clock_at epoch loop_now = record { utc = epoch + loop_now; loop = loop_now }

-- `async_set_updated_data`.
abbrev pub notify : Coordinator → Coordinator
notify c = record c { updates = suc c.updates }

-- `if cancel is not None: cancel.cancel()`, on the timers.
abbrev pub without_timer : Option ℕ → List (ℕ × Timer) → List (ℕ × Timer)
without_timer none timers = timers
without_timer (some handle) timers = remove handle timers

unfoldable pub cancel_delay_timer : Text → Coordinator → Coordinator
cancel_delay_timer space_id c = record c {
  delay_overlay_cancels = pop space_id c.delay_overlay_cancels;
  timers = without_timer (get space_id c.delay_overlay_cancels) c.timers;
}

-- Whether an overlay existed, and the state after it.
unfoldable pub clear_delay_overlay : Text → Coordinator → Bool × Coordinator
clear_delay_overlay space_id c =
    let cancelled = cancel_delay_timer space_id c in
    (
      is_some (get space_id cancelled.delay_overlays),
      record cancelled { delay_overlays = pop space_id cancelled.delay_overlays },
    )

unfoldable pub set_delay_overlay : Clock → Text → DelayKind → ℕ → Bool → Coordinator → Coordinator
set_delay_overlay clock space_id kind seconds from_hub c =
    let cancelled = cancel_delay_timer space_id c in
    let handle = cancelled.next_handle in
    let overlay : DelayOverlay = record {
      kind = kind;
      ends_at = clock.utc + seconds * second;
      from_hub = from_hub;
    } in
    let timer : Timer = record {
      due = clock.loop + (seconds + delay_overlay_grace_seconds) * second;
      space_id = space_id;
      object = handle;
    } in
    notify (record cancelled {
      delay_overlays =
          set space_id (record { object = handle; overlay = overlay }) cancelled.delay_overlays;
      delay_overlay_cancels = set space_id handle cancelled.delay_overlay_cancels;
      timers = insert handle timer cancelled.timers;
      next_handle = suc handle;
    })

-- `overlays.get(space_id) is overlay`.
abbrev pub is_object : ℕ → Option Installed → Bool
is_object object none = false
is_object object (some installed) = installed.object == object

unfoldable pub expire_delay_overlay : Text → ℕ → Coordinator → Coordinator
expire_delay_overlay space_id object c =
    if is_object object (get space_id c.delay_overlays)
    then notify (clear_delay_overlay space_id c).1
    else c

-- `if space_id not in self.spaces: self._clear_delay_overlay(space_id)`.
unfoldable pub drop_if_untracked : Text → Option Space → Coordinator → Coordinator
drop_if_untracked space_id none c = (clear_delay_overlay space_id c).1
drop_if_untracked space_id (some space) c = c

-- The first loop of `sync_delay_overlays`.
unfoldable pub drop_untracked : List Text → Coordinator → Coordinator
drop_untracked [] c = c
drop_untracked (space_id ∷ rest) c =
    drop_untracked rest (drop_if_untracked space_id (get space_id c.spaces) c)

-- `if self._clear_delay_overlay(space_id): self.async_set_updated_data(...)`.
abbrev pub notify_cleared : Bool × Coordinator → Coordinator
notify_cleared (cleared, c) = record c { updates = if cleared then suc c.updates else c.updates }

-- An arm is seen when the space was last seen disarmed.
abbrev pub was_disarmed : Option SecurityState → Bool
was_disarmed none = false
was_disarmed (some previous) = is_disarmed previous

unfoldable pub start_arming : Clock → Text → ℕ → Coordinator → Coordinator
start_arming clock space_id zero c = c
start_arming clock space_id (suc seconds) c =
    set_delay_overlay clock space_id arming (suc seconds) false c

-- The body of the second loop, from `previous` on.
unfoldable pub sync_space : Clock → Text → Space → Coordinator → Coordinator
sync_space clock space_id space c =
    let previous = get space_id c.last_security_states in
    let current = space.security_state in
    let seen = record c { last_security_states = set space_id current c.last_security_states } in
    if not c.delay_panel_states
    then seen
    else if is_disarmed current
    then notify_cleared (clear_delay_overlay space_id seen)
    else if not (was_disarmed previous)
    then seen
    else start_arming clock space_id
        (space_exit_delay_seconds space_id (same_state current night_mode) seen) seen

unfoldable pub sync_spaces : Clock → List (Text × Space) → Coordinator → Coordinator
sync_spaces clock [] c = c
sync_spaces clock ((space_id, space) ∷ rest) c =
    sync_spaces clock rest (sync_space clock space_id space c)

unfoldable pub sync_delay_overlays : Clock → Coordinator → Coordinator
sync_delay_overlays clock c =
    let tracked = drop_untracked (keys c.delay_overlays) c in
    sync_spaces clock tracked.spaces tracked

-- `next((sid for sid, s in spaces.items() if s.hub_id == hub_id), None)`.
unfoldable pub space_of_hub : Text → List (Text × Space) → Option (Text × Space)
space_of_hub hub_id [] = none
space_of_hub hub_id ((space_id, space) ∷ rest) =
    if space.hub_id =ᵇ hub_id then some (space_id, space) else space_of_hub hub_id rest

abbrev pub is_arming : Option Installed → Bool
is_arming none = false
is_arming (some installed) = elim installed.overlay.kind [ arming ↦ true | pending ↦ false ]

-- The seconds to show; at 0 nothing is shown.
abbrev pub entry_seconds : Option ℤ → ℕ → ℕ
entry_seconds none settings = settings
entry_seconds (some (pos n)) settings = n
entry_seconds (some (negsuc n)) settings = 0

unfoldable pub start_pending : Clock → Text → Bool → ℕ → Coordinator → Coordinator
start_pending clock space_id from_hub zero c = c
start_pending clock space_id from_hub (suc seconds) c =
    set_delay_overlay clock space_id pending (suc seconds) from_hub c

unfoldable pub hub_event_in_space : Clock → HubEvent → Text → Space → Coordinator → Coordinator
hub_event_in_space clock event space_id space c =
    if not c.delay_panel_states
    then c
    else if event.code == hub_event_exit_delay_complete
    then (if is_arming (get space_id c.delay_overlays)
        then notify (clear_delay_overlay space_id c).1
        else c)
    else if event.code == hub_event_entry_delay_started
    then (if is_disarmed space.security_state
        then c
        else start_pending clock space_id (is_some (delay_seconds event))
            (entry_seconds (delay_seconds event) (space_entry_delay_seconds space_id c)) c)
    else c

abbrev pub hub_event_found : Clock → HubEvent → Option (Text × Space) → Coordinator → Coordinator
hub_event_found clock event none c = c
hub_event_found clock event (some (space_id, space)) c =
    hub_event_in_space clock event space_id space c

unfoldable pub on_hts_hub_event : Clock → HubEvent → Coordinator → Coordinator
on_hts_hub_event clock event c = hub_event_found clock event (space_of_hub event.hub_id c.spaces) c
