-- ===== src/Coordinator/Writes/Reachable/Events.antt =====
-- Group pushes and the hub's events among the callbacks of coordinator.py.
use aegis_hass.Base.{
  ℕ, suc, zero, ◌≡◌, refl, sym, ap, ◌∙◌, Bool, true, false, not, ◌==◌, ◌=ᵇ◌, =ᵇ-refl, Bool-cases,
  by_if, Option, none, some, List, [], ◌∷◌, map, inl, inr,
}
use aegis_hass.Base.Text.{Text}
use aegis_hass.Base.TextMap.{
  get, unequal_texts, IsDict, IsDict-set, texts-cases, get-set_same, get-set_other,
}
use aegis_hass.Hts.HubEvents.{
  HubEvent, hub_event_exit_delay_complete, hub_event_entry_delay_started,
}
use aegis_hass.Coordinator.Models.{
  SecurityState, Space, Group, same_state, is_disarmed, Coordinator,
}
use aegis_hass.Coordinator.Overlays.{
  clock_at, cancel_delay_timer, set_delay_overlay, is_arming, hub_event_in_space, hub_event_found,
  start_pending, space_of_hub,
}
use aegis_hass.Coordinator.Overlays.Timed.{none_not_some, some_inj}
use aegis_hass.Coordinator.Overlays.Install.{IsTimed-alike}
use aegis_hass.Coordinator.Overlays.Steady.{start_pending-IsTimed}
use aegis_hass.Coordinator.Writes.{
  store_space, find_group, set_group, push_to_group, push_to_groups,
}
use aegis_hass.Coordinator.Writes.Reachable.Preserved.{IsArmedIn, IsSound, IsSound-less}
use aegis_hass.Coordinator.Writes.Reachable.Steps.{clear_delay_overlay-IsSound, notify-IsSound}

push_to_group-IsSound :
    (epoch : ℕ) (s g : Text) (state : SecurityState) (space : Space) (o : Option Group)
    (c : Coordinator)
    → get s c.spaces ≡ some space
    → IsSound epoch c
    → IsSound epoch (push_to_group s g state space o c)
push_to_group-IsSound epoch s g state space none c found w = w
push_to_group-IsSound epoch s g state space (some target) c found w =
    let changed : Space = record space { groups = map (set_group g state) space.groups } in
    let d : Coordinator = store_space s changed c in
    elim (Bool-cases (same_state target.security_state state)) [
      | inl e ↦ rw e w
      | inr e ↦ rw e (
          notify-IsSound epoch d (
            IsSound-less epoch c d w
              (IsTimed-alike epoch c d (λ t. refl) (λ t. refl) (λ k. refl) refl w.timed)
              (IsDict-set s changed c.spaces w.dict) refl (λ t o e. (o, e))
              (λ t (old, at_t, armed). elim (texts-cases s t) [
                | inl same ↦ (
                  changed,
                  ap (λ r. get r d.spaces) (sym same) ∙ get-set_same s changed c.spaces,
                  ap (λ x. is_disarmed x.security_state)
                        (some_inj (sym found ∙ ap (λ r. get r c.spaces) same ∙ at_t))
                      ∙ armed,
                )
                | inr apart ↦ (old, get-set_other s t changed c.spaces apart ∙ at_t, armed)
              ])))
    ]

pub push_to_groups-IsSound :
    (epoch : ℕ) (s g : Text) (state : SecurityState) (o : Option Space) (c : Coordinator)
    → get s c.spaces ≡ o
    → IsSound epoch c
    → IsSound epoch (push_to_groups s g state o c)
push_to_groups-IsSound epoch s g state none c found w = w
push_to_groups-IsSound epoch s g state (some space) c found w =
    push_to_group-IsSound epoch s g state space (find_group g space.groups) c found w

set_pending-IsSound :
    (epoch time : ℕ) (s : Text) (from_hub : Bool) (seconds : ℕ) (c : Coordinator)
    → c.delay_panel_states ≡ true
    → IsArmedIn c s
    → IsSound epoch c
    → IsSound epoch (start_pending (clock_at epoch time) s from_hub seconds c)
unfolding start_pending set_delay_overlay cancel_delay_timer
set_pending-IsSound epoch time s from_hub zero c on armed w = w
set_pending-IsSound epoch time s from_hub (suc seconds) c on armed w = record {
  timed = start_pending-IsTimed epoch time s from_hub (suc seconds) c w.timed;
  dict = w.dict;
  panel_on = λ t o e. on;
  armed_in = λ t o e. elim (texts-cases s t) [
    | inl same ↦ rw same at armed
    | inr apart ↦ w.armed_in t o (sym (get-set_other s t _ c.delay_overlays apart) ∙ e)
  ];
}

space_of_hub_found :
    (hub s : Text) (space : Space) (m : List (Text × Space))
    → IsDict m
    → space_of_hub hub m ≡ some (s, space)
    → get s m ≡ some space
unfolding space_of_hub get
space_of_hub_found hub s space [] h e = absurd (none_not_some e)
space_of_hub_found hub s space ((t, first) ∷ m) (new, h) e =
    elim (Bool-cases (first.hub_id =ᵇ hub)) [
      | inl here ↦
          let one = some_inj (rw here at e) in
          let same : t ≡ s = ap (λ x. x.0) one in
          let value : first ≡ space = ap (λ x. x.1) one in rw (sym same, =ᵇ-refl t) (ap some value)
      | inr there ↦
          let later = space_of_hub_found hub s space m h (rw there at e) in
          let apart : (t =ᵇ s) ≡ false =
            unequal_texts t s (λ same. none_not_some (sym new ∙ ap (λ r. get r m) same ∙ later)) in
          rw apart later
    ]

not-not : (b : Bool) → not b ≡ false → b ≡ true
not-not true e = refl
not-not false e = cc

hub_event_in_space-IsSound :
    (epoch time : ℕ) (event : HubEvent) (s : Text) (space : Space) (c : Coordinator)
    → get s c.spaces ≡ some space
    → IsSound epoch c
    → IsSound epoch (hub_event_in_space (clock_at epoch time) event s space c)
unfolding hub_event_in_space
hub_event_in_space-IsSound epoch time event s space c found w =
    by_if (IsSound epoch) (not c.delay_panel_states) c _ (λ _. w)
      (λ on.
        by_if (IsSound epoch) (event.code == hub_event_exit_delay_complete) _ _
          (λ _.
            by_if (IsSound epoch) (is_arming (get s c.delay_overlays)) _ c
              (λ _. notify-IsSound epoch _ (clear_delay_overlay-IsSound epoch s c w)) (λ _. w))
          (λ _.
            by_if (IsSound epoch) (event.code == hub_event_entry_delay_started) _ c
              (λ _.
                by_if (IsSound epoch) (is_disarmed space.security_state) c _ (λ _. w)
                  (λ armed.
                    set_pending-IsSound epoch time s _ _ c (not-not c.delay_panel_states on)
                      (space, found, armed) w))
              (λ _. w)))

pub hub_event_found-IsSound :
    (epoch time : ℕ) (event : HubEvent) (o : Option (Text × Space)) (c : Coordinator)
    → space_of_hub event.hub_id c.spaces ≡ o
    → IsSound epoch c
    → IsSound epoch (hub_event_found (clock_at epoch time) event o c)
hub_event_found-IsSound epoch time event none c e w = w
hub_event_found-IsSound epoch time event (some (s, space)) c e w =
    hub_event_in_space-IsSound epoch time event s space c
      (space_of_hub_found event.hub_id s space c.spaces w.dict e) w
