-- ===== src/Coordinator/Overlays/Sync.antt =====
-- `sync_delay_overlays` of coordinator.py, space by space.
use aegis_hass.Base.{
  ℕ, suc, zero, ◌+◌, ◌*◌, ◌≡◌, ◌≢◌, refl, ap, ◌∙◌, Bool, true, false, not, if◌then◌else◌, Option,
  none, some,
}
use aegis_hass.Base.Text.{Text}
use aegis_hass.Base.TextMap.{get, set, get-set_same, get-set_other, get-pop_same, get-pop_other}
use aegis_hass.Coordinator.Models.{
  SecurityState, night_mode, same_state, is_disarmed, Space, DelayKind, arming, DelayOverlay,
  Installed, Clock, Coordinator,
}
use aegis_hass.Coordinator.Delays.{space_arm_delays, space_exit_delay_seconds}
use aegis_hass.Coordinator.Overlays.{
  second, cancel_delay_timer, clear_delay_overlay, set_delay_overlay, was_disarmed, start_arming,
  sync_space, notify_cleared,
}

-- The overlay that a space shows.
abbrev pub overlay_of : Option Installed → Option DelayOverlay
overlay_of none = none
overlay_of (some installed) = some installed.overlay

abbrev pub shown : Text → Coordinator → Option DelayOverlay
shown space_id c = overlay_of (get space_id c.delay_overlays)

-- What a sync makes of a space's overlay, from the space's own data only.
abbrev pub arming_for : Clock → ℕ → Option DelayOverlay → Option DelayOverlay
arming_for clock zero old = old
arming_for clock (suc seconds) old =
    some (record { kind = arming; ends_at = clock.utc + suc seconds * second; from_hub = false })

abbrev pub synced :
    Clock
    → Bool
    → Option SecurityState
    → SecurityState
    → ℕ
    → Option DelayOverlay
    → Option DelayOverlay
synced clock panel_states previous current exit_seconds old =
    if not panel_states
    then old
    else if is_disarmed current
    then none
    else if was_disarmed previous
    then arming_for clock exit_seconds old
    else old

-- Only the space `s` is written, and none of what the delays are read from.
pub record OnlyAt (s : Text) (c d : Coordinator) : Type 0 where
  pub spaces : d.spaces ≡ c.spaces
  pub hubs : d.device_hubs ≡ c.device_hubs
  pub delays : d.device_arm_delays ≡ c.device_arm_delays
  pub panel : d.delay_panel_states ≡ c.delay_panel_states
  pub alarmed : d.alarmed_space_ids ≡ c.alarmed_space_ids
  pub overlays : (t : Text) → s ≢ t → get t d.delay_overlays ≡ get t c.delay_overlays
  pub last : (t : Text) → s ≢ t → get t d.last_security_states ≡ get t c.last_security_states

pub clear_delay_overlay-OnlyAt :
    (s : Text) (c : Coordinator) → OnlyAt s c (clear_delay_overlay s c).1
unfolding clear_delay_overlay cancel_delay_timer
clear_delay_overlay-OnlyAt s c = record {
  spaces = refl;
  hubs = refl;
  delays = refl;
  panel = refl;
  alarmed = refl;
  overlays = λ t h. get-pop_other s t c.delay_overlays h;
  last = λ t h. refl;
}

set_delay_overlay-OnlyAt :
    (clock : Clock) (s : Text) (kind : DelayKind) (seconds : ℕ) (from_hub : Bool) (c : Coordinator)
    → OnlyAt s c (set_delay_overlay clock s kind seconds from_hub c)
unfolding set_delay_overlay cancel_delay_timer
set_delay_overlay-OnlyAt clock s kind seconds from_hub c = record {
  spaces = refl;
  hubs = refl;
  delays = refl;
  panel = refl;
  alarmed = refl;
  overlays = λ t h. get-set_other s t _ c.delay_overlays h;
  last = λ t h. refl;
}

-- `c` with the space's state noted, then what `d` writes.
OnlyAt-seen :
    (s : Text) (state : SecurityState) (c d : Coordinator)
    → OnlyAt s (record c { last_security_states = set s state c.last_security_states }) d
    → OnlyAt s c d
OnlyAt-seen s state c d o = record {
  spaces = o.spaces;
  hubs = o.hubs;
  delays = o.delays;
  panel = o.panel;
  alarmed = o.alarmed;
  overlays = o.overlays;
  last = λ t h. o.last t h ∙ get-set_other s t state c.last_security_states h;
}

OnlyAt-refl : (s : Text) (c : Coordinator) → OnlyAt s c c
OnlyAt-refl s c = record {
  spaces = refl;
  hubs = refl;
  delays = refl;
  panel = refl;
  alarmed = refl;
  overlays = λ t h. refl;
  last = λ t h. refl;
}

-- What one round of the loop does: nothing elsewhere, and at its space what `synced` says.
abbrev pub Syncs : Clock → Text → Space → Coordinator → Coordinator → Type 0
Syncs clock s space c d =
    OnlyAt s c d
    × (shown s d
        ≡ synced clock c.delay_panel_states (get s c.last_security_states) space.security_state
            (space_exit_delay_seconds s (same_state space.security_state night_mode) c) (shown s c))
    × (get s d.last_security_states ≡ some space.security_state)

pub clear_delay_overlay-cleared :
    (s : Text) (c : Coordinator)
    → (get s (clear_delay_overlay s c).1.delay_overlays ≡ none)
      × ((clear_delay_overlay s c).1.last_security_states ≡ c.last_security_states)
unfolding clear_delay_overlay cancel_delay_timer
clear_delay_overlay-cleared s c = (get-pop_same s c.delay_overlays, refl)

set_delay_overlay-installed :
    (clock : Clock) (s : Text) (seconds : ℕ) (c : Coordinator)
    → (shown s (set_delay_overlay clock s arming seconds false c)
        ≡ some (record { kind = arming; ends_at = clock.utc + seconds * second; from_hub = false }))
      × ((set_delay_overlay clock s arming seconds false c).last_security_states
          ≡ c.last_security_states)
unfolding set_delay_overlay cancel_delay_timer
set_delay_overlay-installed clock s seconds c =
    (ap overlay_of (get-set_same s _ c.delay_overlays), refl)

start_arming-Syncs :
    (clock : Clock) (s : Text) (seconds : ℕ) (c : Coordinator)
    → OnlyAt s c (start_arming clock s seconds c)
      × (shown s (start_arming clock s seconds c) ≡ arming_for clock seconds (shown s c))
      × ((start_arming clock s seconds c).last_security_states ≡ c.last_security_states)
unfolding start_arming
start_arming-Syncs clock s zero c = (OnlyAt-refl s c, refl, refl)
start_arming-Syncs clock s (suc seconds) c = (
  set_delay_overlay-OnlyAt clock s arming (suc seconds) false c,
  (set_delay_overlay-installed clock s (suc seconds) c).0,
  (set_delay_overlay-installed clock s (suc seconds) c).1,
)

-- The round after the space's state is noted, on the outcomes of its three tests.
abbrev pub round : Bool → Bool → Bool → Clock → Text → ℕ → Coordinator → Coordinator
round panel_states disarms arms clock s seconds c =
    if not panel_states
    then c
    else if disarms
    then notify_cleared (clear_delay_overlay s c)
    else if not arms
    then c
    else start_arming clock s seconds c

round-Syncs :
    (panel_states disarms arms : Bool) (clock : Clock) (s : Text) (seconds : ℕ) (c : Coordinator)
    → let d : Coordinator = round panel_states disarms arms clock s seconds c in
      OnlyAt s c d
      × (shown s d ≡ (
          if not panel_states
          then shown s c
          else if disarms
          then none
          else if arms
          then arming_for clock seconds (shown s c)
          else shown s c))
      × (d.last_security_states ≡ c.last_security_states)
round-Syncs false disarms arms clock s seconds c = (OnlyAt-refl s c, refl, refl)
round-Syncs true true arms clock s seconds c =
    let o = clear_delay_overlay-OnlyAt s c in
    (
      record {
        spaces = o.spaces;
        hubs = o.hubs;
        delays = o.delays;
        panel = o.panel;
        alarmed = o.alarmed;
        overlays = o.overlays;
        last = o.last;
      },
      ap overlay_of (clear_delay_overlay-cleared s c).0,
      (clear_delay_overlay-cleared s c).1,
    )
round-Syncs true false false clock s seconds c = (OnlyAt-refl s c, refl, refl)
round-Syncs true false true clock s seconds c = start_arming-Syncs clock s seconds c

pub sync_space-Syncs :
    (clock : Clock) (s : Text) (space : Space) (c : Coordinator)
    → Syncs clock s space c (sync_space clock s space c)
unfolding sync_space space_exit_delay_seconds space_arm_delays
sync_space-Syncs clock s space c =
    let current = space.security_state in
    let seen : Coordinator = record c {
      last_security_states = set s current c.last_security_states;
    } in
    let seconds = space_exit_delay_seconds s (same_state current night_mode) seen in
    let (only, shows, last) =
      round-Syncs c.delay_panel_states (is_disarmed current)
        (was_disarmed (get s c.last_security_states)) clock s seconds seen in
    (
      OnlyAt-seen s current c _ only,
      shows,
      ap (λ m. get s m) last ∙ get-set_same s current c.last_security_states,
    )
