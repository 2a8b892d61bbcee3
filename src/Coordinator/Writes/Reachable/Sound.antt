-- ===== src/Coordinator/Writes/Reachable/Sound.antt =====
-- The timers and the overlays of coordinator.py in every reachable state.
use aegis_hass.Base.{
  ℕ, ◌+◌, ◌*◌, ◌≡◌, refl, sym, ap, ◌∙◌, Bool, true, Option, none, some, List, arith,
}
use aegis_hass.Base.Kv.{lookup, remove, lookup-remove}
use aegis_hass.Base.Text.{Text}
use aegis_hass.Base.TextMap.{get, get-pop_same}
use aegis_hass.Coordinator.Models.{ArmDelays, Installed, Timer, Coordinator}
use aegis_hass.Coordinator.Delays.{parse_arm_delays, store_delays, track_arm_delays}
use aegis_hass.Coordinator.Overlays.{
  second, delay_overlay_grace_seconds, cancel_delay_timer, clear_delay_overlay,
  expire_delay_overlay, is_object, on_hts_hub_event, space_of_hub,
}
use aegis_hass.Coordinator.Overlays.Timed.{IsTimed, none_not_some, some_inj}
use aegis_hass.Coordinator.Overlays.Install.{IsTimed-alike}
use aegis_hass.Coordinator.Writes.{
  apply_push_security_state, apply_push_group_security_state, note_intrusion_alarm,
  optimistic_state_update,
}
use aegis_hass.Coordinator.Writes.Refresh.{poll_spaces}
use aegis_hass.Coordinator.Writes.Reachable.{
  fire, Callback, polled, pushed, group_pushed, alarm_pushed, commanded, hub_event, settings_row,
  devices_changed, timer_due, started, Reachable, begin, then_step,
}
use aegis_hass.Coordinator.Writes.Reachable.Preserved.{IsArmedIn, IsSound, IsSound-less}
use aegis_hass.Coordinator.Writes.Reachable.Steps.{
  IsSound-beside, clear_delay_overlay-IsSound, notify-IsSound, push_if_known-IsSound,
  optimistic_in_space-IsSound, poll_spaces-IsSound, note_in_space-IsSound,
}
use aegis_hass.Coordinator.Writes.Reachable.Events.{push_to_groups-IsSound, hub_event_found-IsSound}

store_delays-IsSound :
    (epoch : ℕ) (device_id : Text) (o : Option ArmDelays) (c : Coordinator)
    → IsSound epoch c
    → IsSound epoch (store_delays device_id o c)
store_delays-IsSound epoch device_id none c w = w
store_delays-IsSound epoch device_id (some delays) c w =
    IsSound-beside epoch c _ w refl refl refl refl refl refl

fire_lem :
    (epoch : ℕ) (h : ℕ) (t : Timer) (c : Coordinator)
    → IsTimed epoch c
    → lookup h c.timers ≡ some t
    → (get t.space_id c.delay_overlay_cancels ≡ some h)
      × (is_object t.object (get t.space_id c.delay_overlays) ≡ true)
fire_lem epoch h t c w found =
    let cancel = w.owned h t found in
    let (o, there, same) = w.handles t.space_id h cancel in
    let (t', _, found', _, object, _) = w.has_timer t.space_id o there in
    let one : t' ≡ t = some_inj (sym found' ∙ ap (λ k. lookup k c.timers) same ∙ found) in
    let it : t.object ≡ o.object = ap (λ x. x.object) (sym one) ∙ object in
    (cancel, rw there (ground (arith, it)))

remove_twice :
    {V : Type 0} (h k : ℕ) (m : List (ℕ × V))
    → lookup k (remove h (remove h m)) ≡ lookup k (remove h m)
remove_twice h k m = ground (arith, lookup-remove h k (remove h m), lookup-remove h k m)

-- Firing a timer leaves what clearing the space's overlay leaves.
fire-IsSound :
    (epoch h : ℕ) (t : Timer) (c : Coordinator)
    → lookup h c.timers ≡ some t
    → IsSound epoch c
    → IsSound epoch (fire h t c) × (get t.space_id (fire h t c).delay_overlays ≡ none)
unfolding fire expire_delay_overlay clear_delay_overlay cancel_delay_timer
fire-IsSound epoch h t c found w =
    let (cancel, object) = fire_lem epoch h t c w.timed found in
    let s = t.space_id in
    let cleared = (clear_delay_overlay s c).1 in
    let d : Coordinator = (clear_delay_overlay s (record c { timers = remove h c.timers })).1 in
    let k = clear_delay_overlay-IsSound epoch s c w in
    rw object (
      notify-IsSound epoch d (
          IsSound-less epoch cleared d k
            (IsTimed-alike epoch cleared d (λ r. refl) (λ r. refl)
              (λ k. rw cancel (remove_twice h k c.timers)) refl k.timed)
            k.dict refl (λ r o e. (o, e)) (λ r a. a)),
      get-pop_same s c.delay_overlays,
    )

step-IsSound :
    (epoch : ℕ) (c d : Coordinator) → Callback epoch c d → IsSound epoch c → IsSound epoch d
unfolding poll_spaces apply_push_security_state apply_push_group_security_state note_intrusion_alarm
    optimistic_state_update on_hts_hub_event track_arm_delays
step-IsSound epoch _ _ (polled time listed c) w = poll_spaces-IsSound epoch time listed c w
step-IsSound epoch _ _ (pushed time s state c) w =
    push_if_known-IsSound epoch time s state (get s c.spaces) c w
step-IsSound epoch _ _ (group_pushed s g state c) w =
    push_to_groups-IsSound epoch s g state (get s c.spaces) c refl w
step-IsSound epoch _ _ (alarm_pushed s c) w = note_in_space-IsSound epoch s (get s c.spaces) c w
step-IsSound epoch _ _ (commanded time s state c) w =
    optimistic_in_space-IsSound epoch time s state (get s c.spaces) c w
step-IsSound epoch _ _ (hub_event time event c) w =
    hub_event_found-IsSound epoch time event (space_of_hub event.hub_id c.spaces) c refl w
step-IsSound epoch _ _ (settings_row device_id kv c) w =
    store_delays-IsSound epoch device_id (parse_arm_delays kv) c w
step-IsSound epoch _ _ (devices_changed hubs c) w =
    IsSound-beside epoch c _ w refl refl refl refl refl refl
step-IsSound epoch _ _ (timer_due time h t c found due) w = (fire-IsSound epoch h t c found w).0

started-IsSound :
    (epoch : ℕ) (space_ids : List Text) (panel_states : Bool)
    → IsSound epoch (started space_ids panel_states)
unfolding get lookup
started-IsSound epoch space_ids panel_states = record {
  timed = record {
    has_timer = λ s o e. absurd (none_not_some e);
    handles = λ s h e. absurd (none_not_some e);
    owned = λ h t e. absurd (none_not_some e);
    fresh = λ h t e. absurd (none_not_some e);
  };
  dict = tt;
  panel_on = λ s o e. absurd (none_not_some e);
  armed_in = λ s o e. absurd (none_not_some e);
}

pub Reachable-IsSound : (epoch : ℕ) (c : Coordinator) → Reachable epoch c → IsSound epoch c
Reachable-IsSound epoch _ (begin space_ids panel_states) =
    started-IsSound epoch space_ids panel_states
Reachable-IsSound epoch _ (then_step c d r step) =
    step-IsSound epoch c d step (Reachable-IsSound epoch c r)

-- Whatever polls, pushes, commands, hub events, settings rows and timers have run: a space that
-- shows a delay is tracked and not disarmed, and the option for delay states is on.
pub shown-IsArmedIn :
    (epoch : ℕ) (c : Coordinator) (s : Text) (o : Installed)
    → Reachable epoch c
    → get s c.delay_overlays ≡ some o
    → IsArmedIn c s × (c.delay_panel_states ≡ true)
shown-IsArmedIn epoch c s o r e =
    let w = Reachable-IsSound epoch c r in (w.armed_in s o e, w.panel_on s o e)

-- Whatever has run before, no shown delay can stay: on a wall clock that keeps a fixed distance from
-- the event loop's, every overlay has a pending timer that is due two seconds after the overlay's
-- end, and the callback of that timer takes the overlay away.
pub fire-shown :
    (epoch : ℕ) (c : Coordinator) (s : Text) (o : Installed)
    → Reachable epoch c
    → get s c.delay_overlays ≡ some o
    → (timer : Timer) × (lookup o.object c.timers ≡ some timer)
      × (epoch + timer.due ≡ o.overlay.ends_at + delay_overlay_grace_seconds * second)
      × (get s (fire o.object timer c).delay_overlays ≡ none)
fire-shown epoch c s o r e =
    let w = Reachable-IsSound epoch c r in
    let (timer, _, found, at_s, _, on_time) = w.timed.has_timer s o e in
    (
      timer,
      found,
      on_time,
      ap (λ t. get t (fire o.object timer c).delay_overlays) (sym at_s)
          ∙ (fire-IsSound epoch o.object timer c found w).1,
    )
