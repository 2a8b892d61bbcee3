-- ===== src/Coordinator/Overlays/Loop.antt =====
-- The loop over the spaces of `sync_delay_overlays` in coordinator.py.
use aegis_hass.Base.{
  ◌≡◌, ◌≢◌, refl, sym, ap, ◌∙◌, Bool, Option, none, some, List, [], ◌∷◌, inl, inr, =ᵇ-refl,
}
use aegis_hass.Base.Text.{Text}
use aegis_hass.Base.TextMap.{get, IsDict, texts-cases, unequal_texts}
use aegis_hass.Coordinator.Models.{night_mode, same_state, Space, DelayOverlay, Clock, Coordinator}
use aegis_hass.Coordinator.Delays.{
  space_delays, longest_exit, space_arm_delays, space_exit_delay_seconds,
}
use aegis_hass.Coordinator.Overlays.{sync_space, sync_spaces}
use aegis_hass.Coordinator.Overlays.Sync.{
  overlay_of, shown, synced, OnlyAt, Syncs, sync_space-Syncs,
}

-- What a sync shows for the space `s`, which is the tracked space, if it is tracked.
abbrev pub synced_at : Clock → Coordinator → Text → Option Space → Option DelayOverlay
synced_at clock c s none = none
synced_at clock c s (some space) =
    synced clock c.delay_panel_states (get s c.last_security_states) space.security_state
      (space_exit_delay_seconds s (same_state space.security_state night_mode) c) (shown s c)

-- The loop leaves what the delays are read from.
pub record Keeps (c d : Coordinator) : Type 0 where
  pub spaces : d.spaces ≡ c.spaces
  pub hubs : d.device_hubs ≡ c.device_hubs
  pub delays : d.device_arm_delays ≡ c.device_arm_delays
  pub panel : d.delay_panel_states ≡ c.delay_panel_states
  pub alarmed : d.alarmed_space_ids ≡ c.alarmed_space_ids

-- What a loop over all spaces has done at `s`.
abbrev pub SyncedAt : Clock → Text → Option Space → Coordinator → Coordinator → Type 0
SyncedAt clock s none c d =
    (shown s d ≡ shown s c) × (get s d.last_security_states ≡ get s c.last_security_states)
SyncedAt clock s (some space) c d =
    (shown s d ≡ synced_at clock c s (some space))
    × (get s d.last_security_states ≡ some space.security_state)

space_exit_delay_seconds-Keeps :
    (s : Text) (night : Bool) (c d : Coordinator)
    → Keeps c d
    → space_exit_delay_seconds s night d ≡ space_exit_delay_seconds s night c
unfolding space_exit_delay_seconds space_arm_delays
space_exit_delay_seconds-Keeps s night c d k =
    λ i. longest_exit night (space_delays (get s (k.spaces i)) (k.hubs i) (k.delays i))

-- A round at another space is not seen at `s`.
pub SyncedAt-after :
    (clock : Clock) (s : Text) (o : Option Space) (c d e : Coordinator)
    → Keeps c d
    → get s d.delay_overlays ≡ get s c.delay_overlays
    → get s d.last_security_states ≡ get s c.last_security_states
    → SyncedAt clock s o d e
    → SyncedAt clock s o c e
SyncedAt-after clock s none c d e k overlays last (f, g) = (f ∙ ap overlay_of overlays, g ∙ last)
SyncedAt-after clock s (some space) c d e k overlays last (f, g) =
    let exit =
      space_exit_delay_seconds-Keeps s (same_state space.security_state night_mode) c d k in
    (
      f ∙ (λ i.
          synced clock (k.panel i) (last i) space.security_state (exit i)
            (overlay_of (overlays i))),
      g,
    )

pub Keeps-OnlyAt : (s : Text) (c d : Coordinator) → OnlyAt s c d → Keeps c d
Keeps-OnlyAt s c d o = record {
  spaces = o.spaces;
  hubs = o.hubs;
  delays = o.delays;
  panel = o.panel;
  alarmed = o.alarmed;
}

pub Keeps-then : (c d e : Coordinator) → Keeps c d → Keeps d e → Keeps c e
Keeps-then c d e k l = record {
  spaces = l.spaces ∙ k.spaces;
  hubs = l.hubs ∙ k.hubs;
  delays = l.delays ∙ k.delays;
  panel = l.panel ∙ k.panel;
  alarmed = l.alarmed ∙ k.alarmed;
}

pub Keeps-refl : (c : Coordinator) → Keeps c c
Keeps-refl c = record { spaces = refl; hubs = refl; delays = refl; panel = refl; alarmed = refl }

get-first : {V : Type 0} (t : Text) (v : V) (m : List (Text × V)) → get t ((t, v) ∷ m) ≡ some v
unfolding get
get-first t v m = rw (=ᵇ-refl t) refl

get-later :
    {V : Type 0} (t s : Text) (v : V) (m : List (Text × V)) → t ≢ s → get s ((t, v) ∷ m) ≡ get s m
unfolding get
get-later t s v m h = rw (unequal_texts t s h) refl

get-empty : {V : Type 0} (s : Text) → get {V = V} s [] ≡ none
unfolding get
get-empty s = refl

Syncs-same :
    (clock : Clock) (t s : Text) (space : Space) (c d : Coordinator)
    → t ≡ s
    → Syncs clock t space c d
    → Syncs clock s space c d
Syncs-same clock t s space c d same h = rw same at h

-- The round at `s`, then rounds elsewhere.
SyncedAt-here :
    (clock : Clock) (s : Text) (space : Space) (c d e : Coordinator)
    → Syncs clock s space c d
    → SyncedAt clock s none d e
    → SyncedAt clock s (some space) c e
SyncedAt-here clock s space c d e (only, shows, last) (f, g) = (f ∙ shows, g ∙ last)

pub SyncedAt-same :
    (clock : Clock) (s : Text) (o p : Option Space) (c d : Coordinator)
    → o ≡ p
    → SyncedAt clock s o c d
    → SyncedAt clock s p c d
SyncedAt-same clock s o p c d e h = rw e at h

pub sync_spaces-SyncedAt :
    (clock : Clock) (m : List (Text × Space)) (s : Text) (c : Coordinator)
    → IsDict m
    → Keeps c (sync_spaces clock m c) × SyncedAt clock s (get s m) c (sync_spaces clock m c)
unfolding sync_spaces
sync_spaces-SyncedAt clock [] s c h =
    (Keeps-refl c, SyncedAt-same clock s none _ c c (sym (get-empty s)) (refl, refl))
sync_spaces-SyncedAt clock ((t, space) ∷ m) s c (new, h) =
    let d = sync_space clock t space c in
    let e = sync_spaces clock m d in
    let round = sync_space-Syncs clock t space c in
    let (only, _, _) = round in
    let (kept, later) = sync_spaces-SyncedAt clock m s d h in
    let keeps = Keeps-OnlyAt t c d only in
    (
      Keeps-then c d e keeps kept,
      elim (texts-cases t s) [
        | inl same ↦
            SyncedAt-same clock s (some space) _ c e
              (sym (ap (λ r. get r ((t, space) ∷ m)) (sym same) ∙ get-first t space m))
              (SyncedAt-here clock s space c d e (Syncs-same clock t s space c d same round)
                (SyncedAt-same clock s _ none d e (ap (λ r. get r m) (sym same) ∙ new) later))
        | inr apart ↦ SyncedAt-same clock s (get s m) _ c e (sym (get-later t s space m apart)) (
            SyncedAt-after clock s (get s m) c d e keeps (only.overlays s apart) (only.last s apart)
              later)
      ],
    )
