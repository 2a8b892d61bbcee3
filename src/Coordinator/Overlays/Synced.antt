-- ===== src/Coordinator/Overlays/Synced.antt =====
-- `sync_delay_overlays` of coordinator.py as a whole.
use aegis_hass.Base.{
  ◌≡◌, ◌≢◌, refl, sym, ap, ◌∙◌, false, Bool-cases, Option, none, some, List, [], ◌∷◌, inl, inr,
  ◌=ᵇ◌,
}
use aegis_hass.Base.Text.{Text}
use aegis_hass.Base.TextMap.{get, keys, has_text, IsDict, texts-cases, unequal_texts}
use aegis_hass.Coordinator.Models.{SecurityState, Space, Clock, Coordinator}
use aegis_hass.Coordinator.Overlays.{
  clear_delay_overlay, drop_if_untracked, drop_untracked, sync_delay_overlays,
}
use aegis_hass.Coordinator.Overlays.Timed.{none_not_some}
use aegis_hass.Coordinator.Overlays.Sync.{
  overlay_of, shown, clear_delay_overlay-OnlyAt, clear_delay_overlay-cleared,
}
use aegis_hass.Coordinator.Overlays.Loop.{
  synced_at, Keeps, SyncedAt, SyncedAt-after, SyncedAt-same, Keeps-OnlyAt, Keeps-then, Keeps-refl,
  sync_spaces-SyncedAt,
}

has_text-keys :
    {V : Type 0} (s : Text) (m : List (Text × V)) → has_text s (keys m) ≡ false → get s m ≡ none
unfolding has_text keys get
has_text-keys s [] h = refl
has_text-keys s ((t, v) ∷ m) h = elim (Bool-cases (t =ᵇ s)) [
  | inl e ↦ absurd (let k = (rw e at h) in cc)
  | inr e ↦ rw e (has_text-keys s m (rw e at h))
]

-- What the first loop leaves of the overlay at `s`.
abbrev Tracked : Text → List Text → Coordinator → Coordinator → Type 0
Tracked s ids c d =
    Keeps c d
    × ((space : Space)
        → get s c.spaces ≡ some space
        → get s d.delay_overlays ≡ get s c.delay_overlays)
    × (get s c.spaces ≡ none
        → (has_text s ids ≡ false → get s c.delay_overlays ≡ none)
        → get s d.delay_overlays ≡ none)
    × (get s d.last_security_states ≡ get s c.last_security_states)

drop_if_untracked-Tracked :
    (t s : Text) (ids : List Text) (o : Option Space) (c d : Coordinator)
    → get t c.spaces ≡ o
    → Tracked s ids (drop_if_untracked t o c) d
    → Tracked s (t ∷ ids) c d
unfolding drop_if_untracked has_text
drop_if_untracked-Tracked t s ids (some space) c d found (k, kept, gone, last) = (
  k,
  kept,
  λ away h. gone away (λ no. h (
      rw
        (unequal_texts t s
          (λ same. none_not_some (sym away ∙ ap (λ r. get r c.spaces) (sym same) ∙ found)))
        no)),
  last,
)
drop_if_untracked-Tracked t s ids none c d away (k, kept, gone, last) =
    let only = clear_delay_overlay-OnlyAt t c in
    let keeps = Keeps-OnlyAt t c _ only in
    (
      Keeps-then c _ d keeps k,
      λ space found.
          let apart : t ≢ s =
            λ same. none_not_some (sym away ∙ ap (λ r. get r c.spaces) same ∙ found) in
          kept space (ap (λ m. get s m) only.spaces ∙ found) ∙ only.overlays s apart,
      λ none_at_s h. gone (ap (λ m. get s m) only.spaces ∙ none_at_s) (λ no.
          elim (texts-cases t s) [
            | inl same ↦
                ap (λ r. get r (clear_delay_overlay t c).1.delay_overlays) (sym same)
                ∙ (clear_delay_overlay-cleared t c).0
            | inr apart ↦ only.overlays s apart ∙ h (rw (unequal_texts t s apart) no)
          ]),
      last ∙ ap (λ m. get s m) (clear_delay_overlay-cleared t c).1,
    )

drop_untracked-Tracked :
    (ids : List Text) (s : Text) (c : Coordinator) → Tracked s ids c (drop_untracked ids c)
unfolding drop_untracked has_text
drop_untracked-Tracked [] s c = (Keeps-refl c, λ space e. refl, λ e h. h refl, refl)
drop_untracked-Tracked (t ∷ ids) s c =
    drop_if_untracked-Tracked t s ids (get t c.spaces) c _ refl
      (drop_untracked-Tracked ids s (drop_if_untracked t (get t c.spaces) c))

-- The state that is noted as a space's last.
abbrev pub noted_at : Option Space → Option SecurityState → Option SecurityState
noted_at none old = old
noted_at (some space) old = some space.security_state

both_loops :
    (clock : Clock) (s : Text) (o : Option Space) (c d e : Coordinator)
    → get s c.spaces ≡ o
    → Tracked s (keys c.delay_overlays) c d
    → SyncedAt clock s o d e
    → (shown s e ≡ synced_at clock c s o)
      × (get s e.last_security_states ≡ noted_at o (get s c.last_security_states))
both_loops clock s none c d e found (k, kept, gone, last) (f, g) =
    (f ∙ ap overlay_of (gone found (has_text-keys s c.delay_overlays)), g ∙ last)
both_loops clock s (some space) c d e found (k, kept, gone, last) h =
    SyncedAt-after clock s (some space) c d e k (kept space found) last h

-- For spaces in a dictionary, `sync_delay_overlays` treats every space by itself: whatever the order
-- of the spaces, the overlay that it leaves for an identifier is none if the space is not tracked,
-- and is otherwise given by the space's own previous and current state, its longest exit delay and
-- the overlay that it had; and the state of every tracked space is noted as its last.
pub sync_delay_overlays-SyncedAt :
    (clock : Clock) (c : Coordinator) (s : Text)
    → IsDict c.spaces
    → (shown s (sync_delay_overlays clock c) ≡ synced_at clock c s (get s c.spaces))
      × (get s (sync_delay_overlays clock c).last_security_states
          ≡ noted_at (get s c.spaces) (get s c.last_security_states))
unfolding sync_delay_overlays
sync_delay_overlays-SyncedAt clock c s h =
    let d = drop_untracked (keys c.delay_overlays) c in
    let tracked = drop_untracked-Tracked (keys c.delay_overlays) s c in
    let (k, _, _, _) = tracked in
    let dict : IsDict d.spaces = rw k.spaces h in
    both_loops clock s (get s c.spaces) c d _ refl tracked (
      SyncedAt-same clock s (get s d.spaces) _ d _ (ap (λ m. get s m) k.spaces)
        (sync_spaces-SyncedAt clock d.spaces s d dict).1)

pub sync_delay_overlays-Keeps :
    (clock : Clock) (c : Coordinator) → IsDict c.spaces → Keeps c (sync_delay_overlays clock c)
unfolding sync_delay_overlays
sync_delay_overlays-Keeps clock c h =
    let d = drop_untracked (keys c.delay_overlays) c in
    let (k, _, _, _) = drop_untracked-Tracked (keys c.delay_overlays) [] c in
    let dict : IsDict d.spaces = rw k.spaces h in
    Keeps-then c d _ k (sync_spaces-SyncedAt clock d.spaces [] d dict).0
