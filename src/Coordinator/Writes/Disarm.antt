-- ===== src/Coordinator/Writes/Disarm.antt =====
-- A disarm that a push reports, in coordinator.py and on the panel of alarm_control_panel.py.
use aegis_hass.Base.{
  ℕ, ◌≡◌, refl, sym, ap, ◌∙◌, Bool, true, false, not, ◌&&◌, ◌||◌, ◌==◌, Bool-cases, if◌then◌else◌,
  by_if, none, some, Option-cases, List, [], ◌∷◌, inl, inr, ==_iff, ◌=ᵇ◌,
}
use aegis_hass.Base.Text.{Text}
use aegis_hass.Base.TextMap.{get, has_text, IsDict-set, get-set_same}
use aegis_hass.Coordinator.Models.{
  SecurityState, state_none, armed, disarmed, night_mode, partially_armed, awaiting_exit_timer,
  awaiting_second_stage, two_stage_incomplete, awaiting_vds, same_state, is_disarmed, value, Space,
  Coordinator,
}
use aegis_hass.Coordinator.Overlays.{clock_at, notify, sync_delay_overlays}
use aegis_hass.Coordinator.Overlays.Timed.{some_inj}
use aegis_hass.Coordinator.Overlays.Synced.{sync_delay_overlays-Keeps}
use aegis_hass.Coordinator.Writes.{
  discard, is_live, acknowledge, with_state, store_space, push_to_space, apply_push_security_state,
  night_after, same_bool,
}
use aegis_hass.Coordinator.Writes.Panel.{
  panel_disarmed, panel_armed_night, map_security_state, hub_state, space_state, alarm_state,
}
use aegis_hass.Coordinator.Writes.Reachable.{Reachable}
use aegis_hass.Coordinator.Writes.Reachable.Preserved.{IsSound}
use aegis_hass.Coordinator.Writes.Reachable.Steps.{IsSound-beside, notify-IsSound, sync-IsSound}
use aegis_hass.Coordinator.Writes.Reachable.Sound.{Reachable-IsSound}

has_text-discard : (a : Text) (texts : List Text) → has_text a (discard a texts) ≡ false
unfolding has_text discard
has_text-discard a [] = refl
has_text-discard a (t ∷ texts) = elim (Bool-cases (t =ᵇ a)) [
  | inl e ↦ rw e (has_text-discard a texts)
  | inr e ↦ rw (e, e) (has_text-discard a texts)
]

map_security_state_disarmed :
    (state : SecurityState) (night : Bool)
    → is_disarmed state ≡ true
    → (if same_state state partially_armed && night
        then panel_armed_night
        else map_security_state state)
      ≡ panel_disarmed
unfolding is_disarmed same_state map_security_state
map_security_state_disarmed state_none night h = refl
map_security_state_disarmed disarmed night h = refl
map_security_state_disarmed armed night h = absurd (let k = h in cc)
map_security_state_disarmed night_mode night h = absurd (let k = h in cc)
map_security_state_disarmed partially_armed night h = absurd (let k = h in cc)
map_security_state_disarmed awaiting_exit_timer night h = absurd (let k = h in cc)
map_security_state_disarmed awaiting_second_stage night h = absurd (let k = h in cc)
map_security_state_disarmed two_stage_incomplete night h = absurd (let k = h in cc)
map_security_state_disarmed awaiting_vds night h = absurd (let k = h in cc)

never : (b : Bool) → (b && false) ≡ true → ⊥
never true e = cc
never false e = cc

alarm_state_disarmed :
    (s : Text) (space : Space) (c : Coordinator)
    → get s c.spaces ≡ some space
    → is_disarmed space.security_state ≡ true
    → alarm_state s c ≡ some panel_disarmed
unfolding alarm_state space_state hub_state
alarm_state_disarmed s space c found off = rw found (
    ap some (
      by_if (λ x. x ≡ panel_disarmed)
        (has_text s c.alarmed_space_ids && not (is_disarmed space.security_state)) _ _
        (λ on. absurd (never (has_text s c.alarmed_space_ids) (rw off at on)))
        (λ on.
          rw off (map_security_state_disarmed space.security_state space.night_mode_enabled off))))

-- The space is disarmed on the panel, with no alarm and no delay left.
abbrev pub IsQuiet : Text → Coordinator → Type 0
IsQuiet s d =
    (alarm_state s d ≡ some panel_disarmed)
    × (has_text s d.alarmed_space_ids ≡ false)
    × (get s d.delay_overlays ≡ none)

no_overlay :
    (epoch : ℕ) (c : Coordinator) (s : Text) (space : Space)
    → IsSound epoch c
    → get s c.spaces ≡ some space
    → is_disarmed space.security_state ≡ true
    → get s c.delay_overlays ≡ none
no_overlay epoch c s space w found off = elim (Option-cases (get s c.delay_overlays)) [
  | inl e ↦ e
  | inr (o, e) ↦
      let (other, there, on) = w.armed_in s o e in
      let same = ap (λ x. is_disarmed x.security_state) (some_inj (sym found ∙ there)) in
      absurd (let a = sym off ∙ same ∙ on in cc)
]

acknowledge-discards :
    (s : Text) (state : SecurityState) (c : Coordinator)
    → is_disarmed state ≡ true
    → has_text s (acknowledge s state c).alarmed_space_ids ≡ false
unfolding acknowledge
acknowledge-discards s state c off = rw off (has_text-discard s c.alarmed_space_ids)

-- The write and the sync of a push.
pushed-IsQuiet :
    (epoch time : ℕ) (s : Text) (state : SecurityState) (space : Space) (c : Coordinator)
    → IsSound epoch c
    → get s c.spaces ≡ some space
    → is_disarmed state ≡ true
    → has_text s c.alarmed_space_ids ≡ false
    → IsQuiet s (
        notify
          (sync_delay_overlays (clock_at epoch time) (store_space s (with_state state space) c)))
pushed-IsQuiet epoch time s state space c w found off quiet =
    let written : Coordinator = store_space s (with_state state space) c in
    let clock = clock_at epoch time in
    let d = notify (sync_delay_overlays clock written) in
    let dict = IsDict-set s (with_state state space) c.spaces w.dict in
    let k = sync_delay_overlays-Keeps clock written dict in
    let there : get s written.spaces ≡ some (with_state state space) =
      get-set_same s (with_state state space) c.spaces in
    let at_s : get s d.spaces ≡ some (with_state state space) =
      ap (λ m. get s m) k.spaces ∙ there in
    let sound =
      notify-IsSound epoch _ (sync-IsSound epoch time c written w dict refl refl refl refl refl) in
    (
      alarm_state_disarmed s (with_state state space) d at_s off,
      ap (λ m. has_text s m) k.alarmed ∙ quiet,
      no_overlay epoch d s (with_state state space) sound at_s off,
    )

first_true : (a b : Bool) → (a && b) ≡ true → a ≡ true
first_true true b e = refl
first_true false b e = e

same_state-is_disarmed :
    (a b : SecurityState) → same_state a b ≡ true → is_disarmed b ≡ true → is_disarmed a ≡ true
unfolding same_state is_disarmed
same_state-is_disarmed a b same off =
    ap (λ n. (n == 2) || (n == 0)) ((==_iff (value a) (value b)).0 same) ∙ off

-- In every reachable state, a push that reports a tracked space disarmed, when no optimistic state
-- of the space is running, leaves it disarmed on the panel, with its intrusion alarm acknowledged
-- and no delay shown.
pub apply_push_security_state-IsQuiet :
    (epoch time : ℕ) (s : Text) (state : SecurityState) (space : Space) (c : Coordinator)
    → Reachable epoch c
    → get s c.spaces ≡ some space
    → is_disarmed state ≡ true
    → is_live time (get s c.optimistic_space_states) ≡ false
    → IsQuiet s (apply_push_security_state (clock_at epoch time) s state c)
unfolding apply_push_security_state push_to_space acknowledge
apply_push_security_state-IsQuiet epoch time s state space c r found off live =
    let w = Reachable-IsSound epoch c r in
    let a = acknowledge s state c in
    let known : IsSound epoch a = IsSound-beside epoch c a w refl refl refl refl refl refl in
    let quiet = acknowledge-discards s state c off in
    rw (found, live)
      (by_if (IsQuiet s)
        (same_state space.security_state state
          && same_bool space.night_mode_enabled (night_after state space.night_mode_enabled))
        a _
        (λ same.
          let already =
            same_state-is_disarmed space.security_state state (first_true _ _ same) off in
          (
            alarm_state_disarmed s space a found already,
            quiet,
            no_overlay epoch a s space known found already,
          ))
        (λ _. pushed-IsQuiet epoch time s state space a known found off quiet))
