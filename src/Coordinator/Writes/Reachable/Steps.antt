-- ===== src/Coordinator/Writes/Reachable/Steps.antt =====
-- Each callback on the spaces of coordinator.py, and all of them in turn.
use aegis_hass.Base.{
  ℕ, ◌≡◌, refl, sym, ap, ◌∙◌, ◌&&◌, Bool-cases, Option, none, some, List, [], ◌∷◌, inl, inr,
}
use aegis_hass.Base.Kv.{lookup}
use aegis_hass.Base.Text.{Text}
use aegis_hass.Base.TextMap.{
  get, has_text, pop, IsDict, IsDict-set, texts-cases, get-pop_same, get-pop_other,
}
use aegis_hass.Coordinator.Models.{SecurityState, Space, same_state, Coordinator}
use aegis_hass.Coordinator.Overlays.{
  clock_at, notify, cancel_delay_timer, clear_delay_overlay, sync_delay_overlays,
}
use aegis_hass.Coordinator.Overlays.Timed.{none_not_some, clear_delay_overlay-IsTimed}
use aegis_hass.Coordinator.Overlays.Install.{IsTimed-alike}
use aegis_hass.Coordinator.Writes.{
  is_live, acknowledge, with_state, store_space, push_to_space, push_if_known, note_in_space,
  optimistic_in_space, night_after, same_bool, drop_cleared_alarms,
}
use aegis_hass.Coordinator.Writes.Refresh.{merge_space, merge_spaces, poll_spaces}
use aegis_hass.Coordinator.Writes.Reachable.Preserved.{
  IsSound, sync_delay_overlays-IsSound, IsSound-less,
}

-- What is written beside the spaces, the overlays and the timers does not matter.
pub IsSound-beside :
    (epoch : ℕ) (c d : Coordinator)
    → IsSound epoch c
    → d.spaces ≡ c.spaces
    → d.delay_panel_states ≡ c.delay_panel_states
    → d.delay_overlays ≡ c.delay_overlays
    → d.delay_overlay_cancels ≡ c.delay_overlay_cancels
    → d.timers ≡ c.timers
    → d.next_handle ≡ c.next_handle
    → IsSound epoch d
IsSound-beside epoch c d w spaces panel overlays cancels timers handles =
    IsSound-less epoch c d w
      (IsTimed-alike epoch c d (λ t. ap (λ m. get t m) overlays) (λ t. ap (λ m. get t m) cancels)
        (λ k. ap (λ m. lookup k m) timers) handles w.timed)
      (rw spaces w.dict) panel (λ s o e. (o, ap (λ m. get s m) (sym overlays) ∙ e))
      (λ s (space, found, armed). (space, ap (λ m. get s m) spaces ∙ found, armed))

pub clear_delay_overlay-IsSound :
    (epoch : ℕ) (s : Text) (c : Coordinator)
    → IsSound epoch c
    → IsSound epoch (clear_delay_overlay s c).1
unfolding clear_delay_overlay cancel_delay_timer
clear_delay_overlay-IsSound epoch s c w =
    IsSound-less epoch c (clear_delay_overlay s c).1 w
      (clear_delay_overlay-IsTimed epoch c s w.timed) w.dict refl
      (λ t o e. elim (texts-cases s t) [
        | inl h ↦ absurd (
            none_not_some (
              sym (get-pop_same s c.delay_overlays)
              ∙ ap (λ r. get r (pop s c.delay_overlays)) h
              ∙ e))
        | inr h ↦ (o, sym (get-pop_other s t c.delay_overlays h) ∙ e)
      ])
      (λ t a. a)

pub notify-IsSound : (epoch : ℕ) (c : Coordinator) → IsSound epoch c → IsSound epoch (notify c)
notify-IsSound epoch c w = IsSound-beside epoch c (notify c) w refl refl refl refl refl refl

-- A sync after the spaces were written, with the alarms and the optimistic states.
pub sync-IsSound :
    (epoch time : ℕ) (c d : Coordinator)
    → IsSound epoch c
    → IsDict d.spaces
    → d.delay_panel_states ≡ c.delay_panel_states
    → d.delay_overlays ≡ c.delay_overlays
    → d.delay_overlay_cancels ≡ c.delay_overlay_cancels
    → d.timers ≡ c.timers
    → d.next_handle ≡ c.next_handle
    → IsSound epoch (sync_delay_overlays (clock_at epoch time) d)
sync-IsSound epoch time c d w dict panel overlays cancels timers handles =
    sync_delay_overlays-IsSound epoch time d
      (IsTimed-alike epoch c d (λ t. ap (λ m. get t m) overlays) (λ t. ap (λ m. get t m) cancels)
        (λ k. ap (λ m. lookup k m) timers) handles w.timed)
      dict (λ s o e. panel ∙ w.panel_on s o (ap (λ m. get s m) (sym overlays) ∙ e))

pub push_if_known-IsSound :
    (epoch time : ℕ) (s : Text) (state : SecurityState) (o : Option Space) (c : Coordinator)
    → IsSound epoch c
    → IsSound epoch (push_if_known (clock_at epoch time) s state o c)
unfolding push_to_space acknowledge
push_if_known-IsSound epoch time s state none c w = w
push_if_known-IsSound epoch time s state (some space) c w =
    let a = acknowledge s state c in
    let known : IsSound epoch a = IsSound-beside epoch c a w refl refl refl refl refl refl in
    elim (Bool-cases (is_live time (get s c.optimistic_space_states))) [
      | inl e ↦ rw e known
      | inr e ↦
          elim (Bool-cases (
            same_state space.security_state state
            && same_bool space.night_mode_enabled (night_after state space.night_mode_enabled))) [
              | inl f ↦ rw (e, f) known
              | inr f ↦
                  rw (e, f)
                    (notify-IsSound epoch _ (
                      sync-IsSound epoch time c (store_space s (with_state state space) a) w
                        (IsDict-set s (with_state state space) c.spaces w.dict) refl refl refl refl
                        refl))
            ]
    ]

pub optimistic_in_space-IsSound :
    (epoch time : ℕ) (s : Text) (state : SecurityState) (o : Option Space) (c : Coordinator)
    → IsSound epoch c
    → IsSound epoch (optimistic_in_space (clock_at epoch time) s state o c)
optimistic_in_space-IsSound epoch time s state none c w = w
optimistic_in_space-IsSound epoch time s state (some space) c w =
    IsSound-beside epoch _ _
      (sync-IsSound epoch time c _ w (IsDict-set s (with_state state space) c.spaces w.dict) refl
        refl refl refl refl)
      refl refl refl refl refl refl

merge_space-IsDict :
    (now : ℕ) (wanted : List Text) (previous : List (Text × Space)) (s : Space)
    (merged : List (Text × Space) × List (Text × (ℕ × SecurityState)))
    → IsDict merged.0
    → IsDict (merge_space now wanted previous s merged).0
unfolding merge_space
merge_space-IsDict now wanted previous s (spaces, optimistic) h =
    elim (Bool-cases (has_text s.id wanted)) [
      | inl e ↦ rw e (IsDict-set s.id _ spaces h)
      | inr e ↦ rw e h
    ]

pub merge_spaces-IsDict :
    (now : ℕ) (wanted : List Text) (previous : List (Text × Space)) (listed : List Space)
    (merged : List (Text × Space) × List (Text × (ℕ × SecurityState)))
    → IsDict merged.0
    → IsDict (merge_spaces now wanted previous listed merged).0
unfolding merge_spaces
merge_spaces-IsDict now wanted previous [] merged h = h
merge_spaces-IsDict now wanted previous (s ∷ rest) merged h =
    merge_spaces-IsDict now wanted previous rest _
      (merge_space-IsDict now wanted previous s merged h)

pub poll_spaces-IsSound :
    (epoch time : ℕ) (listed : List Space) (c : Coordinator)
    → IsSound epoch c
    → IsSound epoch (poll_spaces (clock_at epoch time) listed c)
unfolding poll_spaces drop_cleared_alarms
poll_spaces-IsSound epoch time listed c w =
    sync-IsSound epoch time c _ w
      (merge_spaces-IsDict time c.space_ids c.spaces listed ([], c.optimistic_space_states) tt) refl
      refl refl refl refl

pub note_in_space-IsSound :
    (epoch : ℕ) (s : Text) (o : Option Space) (c : Coordinator)
    → IsSound epoch c
    → IsSound epoch (note_in_space s o c)
note_in_space-IsSound epoch s none c w = w
note_in_space-IsSound epoch s (some space) c w = notify-IsSound epoch _ (
    clear_delay_overlay-IsSound epoch s _
      (IsSound-beside epoch c _ w refl refl refl refl refl refl))
