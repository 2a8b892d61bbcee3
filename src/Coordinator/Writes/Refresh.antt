-- ===== src/Coordinator/Writes/Refresh.antt =====
-- A poll of the spaces in coordinator.py: `_refresh_spaces` on what `list_spaces` returned, and its
-- part of `_async_update_data`.
use aegis_hass.Base.{
  ℕ, Bool, false, not, ◌&&◌, ◌||◌, ltb, leb, if◌then◌else◌, Option, none, some, List, [], ◌∷◌,
  is_nonempty,
}
use aegis_hass.Base.Text.{Text}
use aegis_hass.Base.TextMap.{get, set, pop, has_text}
use aegis_hass.Coordinator.Models.{
  SecurityState, same_state, ChimeStatus, chime_unspecified, Space, Clock, Coordinator,
}
use aegis_hass.Coordinator.Overlays.{sync_delay_overlays}
use aegis_hass.Coordinator.Writes.{drop_cleared_alarms}

-- The optimistic state over a space that was just listed.
abbrev pub override : ℕ → Option (ℕ × SecurityState) → Space → Space
override now none s = s
override now (some (expiry, state)) s =
    if ltb now expiry && not (same_state s.security_state state)
    then record s { security_state = state }
    else s

abbrev pub is_expired : ℕ → Option (ℕ × SecurityState) → Bool
is_expired now none = false
is_expired now (some (expiry, state)) = leb expiry now

-- What a listing does not carry is taken over from the space as it was.
abbrev pub keep_companies : Space → Space → Space
keep_companies previous s =
    if is_nonempty previous.monitoring_companies || previous.monitoring_companies_loaded
    then record s {
      monitoring_companies = previous.monitoring_companies;
      monitoring_companies_loaded = previous.monitoring_companies_loaded;
    }
    else s

abbrev pub keep_groups : Space → Space → Space
keep_groups previous s =
    if is_nonempty previous.groups || previous.group_mode_enabled
    then record s {
      groups = previous.groups;
      group_mode_enabled = previous.group_mode_enabled;
      night_mode_enabled = previous.night_mode_enabled;
    }
    else s

abbrev pub chime_or : ChimeStatus → ChimeStatus → ChimeStatus
chime_or chime_unspecified listed = listed
chime_or previous listed = previous

abbrev pub keep_chime : Space → Space → Space
keep_chime previous s = record s { chime_status = chime_or previous.chime_status s.chime_status }

abbrev pub keep_previous : Option Space → Space → Space
keep_previous none s = s
keep_previous (some previous) s =
    keep_chime previous (keep_groups previous (keep_companies previous s))

-- One round of the loop of `_refresh_spaces`, on the new spaces and the optimistic states left.
unfoldable pub merge_space :
    ℕ
    → List Text
    → List (Text × Space)
    → Space
    → List (Text × Space) × List (Text × (ℕ × SecurityState))
    → List (Text × Space) × List (Text × (ℕ × SecurityState))
merge_space now wanted previous s (spaces, optimistic) =
    let opt = get s.id optimistic in
    if has_text s.id wanted
    then (
      set s.id (keep_previous (get s.id previous) (override now opt s)) spaces,
      (if is_expired now opt then pop s.id optimistic else optimistic),
    )
    else (spaces, optimistic)

unfoldable pub merge_spaces :
    ℕ
    → List Text
    → List (Text × Space)
    → List Space
    → List (Text × Space) × List (Text × (ℕ × SecurityState))
    → List (Text × Space) × List (Text × (ℕ × SecurityState))
merge_spaces now wanted previous [] merged = merged
merge_spaces now wanted previous (s ∷ rest) merged =
    merge_spaces now wanted previous rest (merge_space now wanted previous s merged)

-- A poll, on the spaces that `list_spaces` returned.
unfoldable pub poll_spaces : Clock → List Space → Coordinator → Coordinator
poll_spaces clock all_spaces c =
    let (spaces, optimistic) =
      merge_spaces clock.loop c.space_ids c.spaces all_spaces ([], c.optimistic_space_states) in
    sync_delay_overlays clock
      (drop_cleared_alarms (record c { spaces = spaces; optimistic_space_states = optimistic }))
