-- ===== src/Coordinator/Writes/Poll.antt =====
-- The spaces after a poll in coordinator.py: `_refresh_spaces`.
use aegis_hass.Base.{
  ℕ, ◌≡◌, ◌≢◌, refl, sym, ap, ◌∙◌, true, ◌||◌, is_nonempty, ltb, Bool-cases, if◌then◌else◌, by_if,
  Option, none, some, List, [], ◌∷◌, inl, inr, ◌=ᵇ◌, =ᵇ-refl,
}
use aegis_hass.Base.Text.{Text}
use aegis_hass.Base.TextMap.{
  get, has_text, texts-cases, unequal_texts, get-set_same, get-set_other, get-pop_other,
}
use aegis_hass.Coordinator.Models.{SecurityState, same_state, Space, Clock, Coordinator}
use aegis_hass.Coordinator.Overlays.Synced.{sync_delay_overlays-Keeps}
use aegis_hass.Coordinator.Writes.{drop_cleared_alarms}
use aegis_hass.Coordinator.Writes.Refresh.{
  override, is_expired, keep_companies, keep_previous, merge_space, merge_spaces, poll_spaces,
}
use aegis_hass.Coordinator.Models.States.{same_state_eq}
use aegis_hass.Coordinator.Writes.Merged.{merged_space, keep_previous-override}
use aegis_hass.Coordinator.Writes.Reachable.Steps.{merge_spaces-IsDict}

-- The space that a listing has under an identifier; each is listed once.
abbrev pub find_space : Text → List Space → Option Space
find_space id [] = none
find_space id (s ∷ rest) = if s.id =ᵇ id then some s else find_space id rest

abbrev pub IsListing : List Space → Type 0
IsListing [] = Unit
IsListing (s ∷ rest) = (find_space s.id rest ≡ none) × IsListing rest

-- What the rounds of the poll make of the listed space.
abbrev merged_by :
    ℕ
    → List Text
    → List (Text × Space)
    → Option (ℕ × SecurityState)
    → Text
    → Option Space
    → Option Space
merged_by now wanted previous opt id none = none
merged_by now wanted previous opt id (some s) =
    if has_text id wanted then some (keep_previous (get id previous) (override now opt s)) else none

abbrev over : Option Space → Option Space → Option Space
over none old = old
over (some s) old = some s

abbrev Merged : Type 0
Merged = List (Text × Space) × List (Text × (ℕ × SecurityState))

merge_space-other :
    (now : ℕ) (wanted : List Text) (previous : List (Text × Space)) (s : Space) (id : Text)
    (merged : Merged)
    → s.id ≢ id
    → (get id (merge_space now wanted previous s merged).0 ≡ get id merged.0)
      × (get id (merge_space now wanted previous s merged).1 ≡ get id merged.1)
unfolding merge_space
merge_space-other now wanted previous s id (spaces, optimistic) apart =
    by_if (λ (m : Merged). (get id m.0 ≡ get id spaces) × (get id m.1 ≡ get id optimistic))
      (has_text s.id wanted) _ _
      (λ _. (
        get-set_other s.id id _ spaces apart,
        by_if (λ m. get id m ≡ get id optimistic) (is_expired now (get s.id optimistic)) _ _
            (λ _. get-pop_other s.id id optimistic apart) (λ _. refl),
      ))
      (λ _. (refl, refl))

merge_space-same :
    (now : ℕ) (wanted : List Text) (previous : List (Text × Space)) (s : Space) (merged : Merged)
    → get s.id (merge_space now wanted previous s merged).0
      ≡ over (merged_by now wanted previous (get s.id merged.1) s.id (some s)) (get s.id merged.0)
unfolding merge_space
merge_space-same now wanted previous s (spaces, optimistic) =
    elim (Bool-cases (has_text s.id wanted)) [
      | inl e ↦ rw e (get-set_same s.id _ spaces)
      | inr e ↦ rw e refl
    ]

merge_spaces-over :
    (now : ℕ) (wanted : List Text) (previous : List (Text × Space)) (listed : List Space)
    (id : Text) (merged : Merged)
    → IsListing listed
    → get id (merge_spaces now wanted previous listed merged).0
      ≡ over
          (merged_by now wanted previous (get id merged.1) id (find_space id listed))
          (get id merged.0)
unfolding merge_spaces
merge_spaces-over now wanted previous [] id merged h = refl
merge_spaces-over now wanted previous (s ∷ rest) id merged (once, h) =
    let after = merge_space now wanted previous s merged in
    let later = merge_spaces-over now wanted previous rest id after h in
    elim (texts-cases s.id id) [
      | inl same ↦
          let gone : find_space id rest ≡ none = ap (λ r. find_space r rest) (sym same) ∙ once in
          let here = merge_space-same now wanted previous s merged in
          let listed_here : (s.id =ᵇ id) ≡ true = ap (λ r. s.id =ᵇ r) (sym same) ∙ =ᵇ-refl s.id in
          rw listed_here (
            later
            ∙ ap (λ f. over (merged_by now wanted previous (get id after.1) id f) (get id after.0))
                gone
            ∙ ap (λ r. get r after.0) (sym same)
            ∙ here
            ∙ ap
                (λ r.
                  over (merged_by now wanted previous (get r merged.1) r (some s)) (get r merged.0))
                same)
      | inr apart ↦
          let (spaces, optimistic) = merge_space-other now wanted previous s id merged apart in
          rw (unequal_texts s.id id apart) (
            later ∙ (λ i.
              over (merged_by now wanted previous (optimistic i) id (find_space id rest))
                (spaces i)))
    ]

over-none : (o : Option Space) → over o none ≡ o
over-none none = refl
over-none (some s) = refl

poll_spaces-merged_by :
    (clock : Clock) (listed : List Space) (c : Coordinator) (id : Text)
    → IsListing listed
    → get id (poll_spaces clock listed c).spaces
      ≡ merged_by clock.loop c.space_ids c.spaces
          (get id c.optimistic_space_states)
          id
          (find_space id listed)
unfolding poll_spaces drop_cleared_alarms get
poll_spaces-merged_by clock listed c id h =
    let merged : Merged = ([], c.optimistic_space_states) in
    let dict = merge_spaces-IsDict clock.loop c.space_ids c.spaces listed merged tt in
    let k = sync_delay_overlays-Keeps clock _ dict in
    ap (λ m. get id m) k.spaces
    ∙ merge_spaces-over clock.loop c.space_ids c.spaces listed id merged h
    ∙ over-none _

-- The space that a poll leaves: none where it is not wanted or not listed.
abbrev pub merged_at :
    ℕ → List Text → Option Space → Option (ℕ × SecurityState) → Text → Option Space → Option Space
merged_at now wanted previous held id none = none
merged_at now wanted previous held id (some s) =
    if has_text id wanted then some (merged_space now held previous s) else none

merged_by-merged_at :
    (now : ℕ) (wanted : List Text) (previous : List (Text × Space))
    (held : Option (ℕ × SecurityState)) (id : Text) (listed : Option Space)
    → merged_by now wanted previous held id listed
      ≡ merged_at now wanted (get id previous) held id listed
merged_by-merged_at now wanted previous held id none = refl
merged_by-merged_at now wanted previous held id (some s) =
    ap (λ t. if has_text id wanted then some t else none)
      (keep_previous-override now held (get id previous) s)

-- For a listing that has every space once, a poll tracks exactly the wanted spaces that were listed.
-- Each has the state of a command as long as it is held, else the listed one. Where the space was
-- tracked before, it keeps its monitoring companies if there are any or they were loaded, its groups
-- with the group and the night mode if there are groups or the group mode is on, and its chime status
-- unless that was unspecified. All else is as it was listed.
pub poll_spaces-merged_at :
    (clock : Clock) (listed : List Space) (c : Coordinator) (id : Text)
    → IsListing listed
    → get id (poll_spaces clock listed c).spaces
      ≡ merged_at clock.loop c.space_ids
          (get id c.spaces)
          (get id c.optimistic_space_states)
          id
          (find_space id listed)
poll_spaces-merged_at clock listed c id h =
    poll_spaces-merged_by clock listed c id h
    ∙ merged_by-merged_at clock.loop c.space_ids c.spaces (get id c.optimistic_space_states) id
        (find_space id listed)

keep_previous_state :
    (o : Option Space) (s : Space) → (keep_previous o s).security_state ≡ s.security_state
keep_previous_state none s = refl
keep_previous_state (some previous) s =
    by_if (λ (x : Space). x.security_state ≡ (keep_companies previous s).security_state)
      (is_nonempty previous.groups || previous.group_mode_enabled) _ _ (λ _. refl) (λ _. refl)
    ∙ by_if (λ (x : Space). x.security_state ≡ s.security_state)
        (is_nonempty previous.monitoring_companies || previous.monitoring_companies_loaded) _ s
        (λ _. refl) (λ _. refl)

override_state :
    (now expiry : ℕ) (state : SecurityState) (s : Space)
    → ltb now expiry ≡ true
    → (override now (some (expiry, state)) s).security_state ≡ state
override_state now expiry state s live = elim (Bool-cases (same_state s.security_state state)) [
  | inl e ↦ rw (live, e) (same_state_eq s.security_state state e)
  | inr e ↦ rw (live, e) refl
]

-- While the state of a command is held, no poll shows another: a wanted space that is listed has
-- the held state, whatever state it was listed with.
pub poll_spaces-held :
    (clock : Clock) (listed : List Space) (c : Coordinator) (s : Space) (expiry : ℕ)
    (state : SecurityState)
    → IsListing listed
    → find_space s.id listed ≡ some s
    → has_text s.id c.space_ids ≡ true
    → get s.id c.optimistic_space_states ≡ some (expiry, state)
    → ltb clock.loop expiry ≡ true
    → (shown : Space) × (get s.id (poll_spaces clock listed c).spaces ≡ some shown)
      × (shown.security_state ≡ state)
poll_spaces-held clock listed c s expiry state h found wanted held live =
    let shown : Space =
      keep_previous (get s.id c.spaces) (override clock.loop (some (expiry, state)) s) in
    (
      shown,
      poll_spaces-merged_by clock listed c s.id h
          ∙ ap
              (λ o.
                merged_by clock.loop c.space_ids c.spaces (get s.id c.optimistic_space_states) s.id
                  o)
              found
          ∙ ap (λ o. merged_by clock.loop c.space_ids c.spaces o s.id (some s)) held
          ∙ rw wanted refl,
      keep_previous_state (get s.id c.spaces) _ ∙ override_state clock.loop expiry state s live,
    )
