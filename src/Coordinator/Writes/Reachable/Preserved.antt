-- ===== src/Coordinator/Writes/Reachable/Preserved.antt =====
-- What every callback on the spaces of coordinator.py keeps.
use aegis_hass.Base.{
  ℕ, ◌≡◌, refl, sym, ap, ◌∙◌, Bool, true, false, Bool-cases, Option, none, some, Option-cases, inl,
  inr, ◌⊎◌,
}
use aegis_hass.Base.Text.{Text}
use aegis_hass.Base.TextMap.{get, IsDict}
use aegis_hass.Coordinator.Models.{
  SecurityState, Space, is_disarmed, DelayOverlay, Installed, Clock, Coordinator,
}
use aegis_hass.Coordinator.Overlays.{clock_at, sync_delay_overlays}
use aegis_hass.Coordinator.Overlays.Timed.{IsTimed, none_not_some}
use aegis_hass.Coordinator.Overlays.Sync.{overlay_of, shown, synced}
use aegis_hass.Coordinator.Overlays.Loop.{synced_at}
use aegis_hass.Coordinator.Overlays.Synced.{sync_delay_overlays-SyncedAt, sync_delay_overlays-Keeps}
use aegis_hass.Coordinator.Overlays.Steady.{sync_delay_overlays-IsTimed}

-- The space is tracked and not disarmed.
abbrev pub IsArmedIn : Coordinator → Text → Type 0
IsArmedIn c s =
    (space : Space) × (get s c.spaces ≡ some space) × (is_disarmed space.security_state ≡ false)

-- Overlays have timers, and only spaces that are not disarmed have overlays, on the option only.
pub record IsSound (epoch : ℕ) (c : Coordinator) : Type 0 where
  pub timed : IsTimed epoch c
  pub dict : IsDict c.spaces
  pub panel_on :
      (s : Text) (o : Installed) → get s c.delay_overlays ≡ some o → c.delay_panel_states ≡ true
  pub armed_in : (s : Text) (o : Installed) → get s c.delay_overlays ≡ some o → IsArmedIn c s

synced-some :
    (clock : Clock) (panel_states : Bool) (previous : Option SecurityState)
    (current : SecurityState) (seconds : ℕ) (old : Option DelayOverlay) (overlay : DelayOverlay)
    → synced clock panel_states previous current seconds old ≡ some overlay
    → ((panel_states ≡ true) × (is_disarmed current ≡ false))
      ⊎ ((panel_states ≡ false) × (old ≡ some overlay))
synced-some clock true previous current seconds old overlay e =
    elim (Bool-cases (is_disarmed current)) [
      | inl f ↦ absurd (none_not_some (rw f at e))
      | inr f ↦ inl (refl, f)
    ]
synced-some clock false previous current seconds old overlay e = inr (refl, e)

shown-some :
    (c : Coordinator) (s : Text) (overlay : DelayOverlay)
    → shown s c ≡ some overlay
    → (o : Installed) × (get s c.delay_overlays ≡ some o)
shown-some c s overlay e = elim (Option-cases (get s c.delay_overlays)) [
  | inl none_there ↦ absurd (none_not_some (ap overlay_of (sym none_there) ∙ e))
  | inr found ↦ found
]

-- An overlay after a sync.
synced_at-some :
    (clock : Clock) (c : Coordinator) (s : Text) (o : Option Space) (overlay : DelayOverlay)
    → get s c.spaces ≡ o
    → ((s : Text) (o : Installed) → get s c.delay_overlays ≡ some o → c.delay_panel_states ≡ true)
    → synced_at clock c s o ≡ some overlay
    → (c.delay_panel_states ≡ true) × IsArmedIn c s
synced_at-some clock c s none overlay found on e = absurd (none_not_some e)
synced_at-some clock c s (some space) overlay found on e =
    elim (synced-some clock c.delay_panel_states _ space.security_state _ (shown s c) overlay e) [
      | inl (panel, armed) ↦ (panel, (space, found, armed))
      | inr (panel, kept) ↦
          let (installed, there) = shown-some c s overlay kept in
          absurd (let off = panel in let other = on s installed there in cc)
    ]

-- A sync makes a state sound whatever was written to its spaces.
pub sync_delay_overlays-IsSound :
    (epoch time : ℕ) (c : Coordinator)
    → IsTimed epoch c
    → IsDict c.spaces
    → ((s : Text) (o : Installed) → get s c.delay_overlays ≡ some o → c.delay_panel_states ≡ true)
    → IsSound epoch (sync_delay_overlays (clock_at epoch time) c)
sync_delay_overlays-IsSound epoch time c w h on =
    let clock = clock_at epoch time in
    let d = sync_delay_overlays clock c in
    let k = sync_delay_overlays-Keeps clock c h in
    let reading : (s : Text) (o : Installed)
        → get s d.delay_overlays ≡ some o
        → (c.delay_panel_states ≡ true) × IsArmedIn c s =
      λ s o e.
        synced_at-some clock c s (get s c.spaces) o.overlay refl on
          (sym (sync_delay_overlays-SyncedAt clock c s h).0 ∙ ap overlay_of e) in
    record {
      timed = sync_delay_overlays-IsTimed epoch time c w;
      dict = rw k.spaces h;
      panel_on = λ s o e. k.panel ∙ (reading s o e).0;
      armed_in = λ s o e.
          let (_, (space, found, armed)) = reading s o e in
          (space, ap (λ m. get s m) k.spaces ∙ found, armed);
    }

-- A state with no overlay more, and no space less armed.
pub IsSound-less :
    (epoch : ℕ) (c d : Coordinator)
    → IsSound epoch c
    → IsTimed epoch d
    → IsDict d.spaces
    → d.delay_panel_states ≡ c.delay_panel_states
    → ((s : Text) (o : Installed)
        → get s d.delay_overlays ≡ some o
        → (p : Installed) × (get s c.delay_overlays ≡ some p))
    → ((s : Text) → IsArmedIn c s → IsArmedIn d s)
    → IsSound epoch d
IsSound-less epoch c d w timed dict panel fewer armed = record {
  timed = timed;
  dict = dict;
  panel_on = λ s o e. let (p, f) = fewer s o e in panel ∙ w.panel_on s p f;
  armed_in = λ s o e. let (p, f) = fewer s o e in armed s (w.armed_in s p f);
}
