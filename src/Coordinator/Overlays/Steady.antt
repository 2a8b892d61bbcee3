-- ===== src/Coordinator/Overlays/Steady.antt =====
-- The timers across `sync_delay_overlays` and the firing of a timer in coordinator.py.
use aegis_hass.Base.{ℕ, suc, zero, refl, Bool, true, false, Option, none, some, List, [], ◌∷◌}
use aegis_hass.Base.Text.{Text}
use aegis_hass.Base.TextMap.{get, set, keys}
use aegis_hass.Coordinator.Models.{Space, is_disarmed, arming, pending, Coordinator}
use aegis_hass.Coordinator.Overlays.{
  clock_at, clear_delay_overlay, drop_if_untracked, drop_untracked, was_disarmed, start_arming,
  start_pending, sync_space, sync_spaces, sync_delay_overlays,
}
use aegis_hass.Coordinator.Overlays.Timed.{IsTimed, clear_delay_overlay-IsTimed}
use aegis_hass.Coordinator.Overlays.Install.{IsTimed-alike, set_delay_overlay-IsTimed}
use aegis_hass.Coordinator.Overlays.Sync.{round}

start_arming-IsTimed :
    (epoch time : ℕ) (s : Text) (seconds : ℕ) (c : Coordinator)
    → IsTimed epoch c
    → IsTimed epoch (start_arming (clock_at epoch time) s seconds c)
unfolding start_arming
start_arming-IsTimed epoch time s zero c w = w
start_arming-IsTimed epoch time s (suc seconds) c w =
    set_delay_overlay-IsTimed epoch time c s arming (suc seconds) false w

pub start_pending-IsTimed :
    (epoch time : ℕ) (s : Text) (from_hub : Bool) (seconds : ℕ) (c : Coordinator)
    → IsTimed epoch c
    → IsTimed epoch (start_pending (clock_at epoch time) s from_hub seconds c)
unfolding start_pending
start_pending-IsTimed epoch time s from_hub zero c w = w
start_pending-IsTimed epoch time s from_hub (suc seconds) c w =
    set_delay_overlay-IsTimed epoch time c s pending (suc seconds) from_hub w

round-IsTimed :
    (panel_states disarms arms : Bool) (epoch time : ℕ) (s : Text) (seconds : ℕ) (c : Coordinator)
    → IsTimed epoch c
    → IsTimed epoch (round panel_states disarms arms (clock_at epoch time) s seconds c)
round-IsTimed false disarms arms epoch time s seconds c w = w
round-IsTimed true true arms epoch time s seconds c w =
    IsTimed-alike epoch (clear_delay_overlay s c).1 _ (λ t. refl) (λ t. refl) (λ k. refl) refl
      (clear_delay_overlay-IsTimed epoch c s w)
round-IsTimed true false false epoch time s seconds c w = w
round-IsTimed true false true epoch time s seconds c w =
    start_arming-IsTimed epoch time s seconds c w

sync_space-IsTimed :
    (epoch time : ℕ) (s : Text) (space : Space) (c : Coordinator)
    → IsTimed epoch c
    → IsTimed epoch (sync_space (clock_at epoch time) s space c)
unfolding sync_space
sync_space-IsTimed epoch time s space c w =
    let seen : Coordinator = record c {
      last_security_states = set s space.security_state c.last_security_states;
    } in
    round-IsTimed c.delay_panel_states (is_disarmed space.security_state)
      (was_disarmed (get s c.last_security_states)) epoch time s _ seen
      (IsTimed-alike epoch c seen (λ t. refl) (λ t. refl) (λ k. refl) refl w)

sync_spaces-IsTimed :
    (epoch time : ℕ) (m : List (Text × Space)) (c : Coordinator)
    → IsTimed epoch c
    → IsTimed epoch (sync_spaces (clock_at epoch time) m c)
unfolding sync_spaces
sync_spaces-IsTimed epoch time [] c w = w
sync_spaces-IsTimed epoch time ((s, space) ∷ m) c w =
    sync_spaces-IsTimed epoch time m _ (sync_space-IsTimed epoch time s space c w)

drop_if_untracked-IsTimed :
    (epoch : ℕ) (s : Text) (o : Option Space) (c : Coordinator)
    → IsTimed epoch c
    → IsTimed epoch (drop_if_untracked s o c)
unfolding drop_if_untracked
drop_if_untracked-IsTimed epoch s none c w = clear_delay_overlay-IsTimed epoch c s w
drop_if_untracked-IsTimed epoch s (some space) c w = w

drop_untracked-IsTimed :
    (epoch : ℕ) (ids : List Text) (c : Coordinator)
    → IsTimed epoch c
    → IsTimed epoch (drop_untracked ids c)
unfolding drop_untracked
drop_untracked-IsTimed epoch [] c w = w
drop_untracked-IsTimed epoch (s ∷ ids) c w =
    drop_untracked-IsTimed epoch ids _ (drop_if_untracked-IsTimed epoch s (get s c.spaces) c w)

pub sync_delay_overlays-IsTimed :
    (epoch time : ℕ) (c : Coordinator)
    → IsTimed epoch c
    → IsTimed epoch (sync_delay_overlays (clock_at epoch time) c)
unfolding sync_delay_overlays
sync_delay_overlays-IsTimed epoch time c w =
    sync_spaces-IsTimed epoch time _ _ (drop_untracked-IsTimed epoch (keys c.delay_overlays) c w)
