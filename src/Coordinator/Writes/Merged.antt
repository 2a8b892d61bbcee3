-- ===== src/Coordinator/Writes/Merged.antt =====
-- A listed space after a poll, field by field: what the loop of `_refresh_spaces` of coordinator.py
-- makes of it.
use aegis_hass.Base.{
  ℕ, ◌≡◌, refl, ap, ◌∙◌, Bool, true, false, ◌||◌, ltb, is_nonempty, if◌then◌else◌, Bool-cases,
  Option, none, some, List, [], ◌∷◌, inl, inr,
}
use aegis_hass.Coordinator.Models.{
  SecurityState, same_state, MonitoringCompany, Group, ChimeStatus, chime_unspecified, enabled,
  can_be_enabled, malfunction, disabled, Space,
}
use aegis_hass.Coordinator.Models.States.{same_state_eq}
use aegis_hass.Coordinator.Writes.Refresh.{
  override, keep_groups, chime_or, keep_chime, keep_previous,
}

-- The state of a command as long as it is held, else the listed one.
abbrev pub held_or : ℕ → Option (ℕ × SecurityState) → SecurityState → SecurityState
held_or now none listed = listed
held_or now (some (expiry, state)) listed = if ltb now expiry then state else listed

-- The monitoring companies, and whether they are loaded: the known ones where any are known or they
-- were loaded, else the listed ones.
abbrev pub Companies : Type 0
Companies = List MonitoringCompany × Bool

abbrev pub known_companies : Companies → Companies → Companies
known_companies ([], false) listed = listed
known_companies ([], true) listed = ([], true)
known_companies (company ∷ more, loaded) listed = (company ∷ more, loaded)

-- The groups with the group and the night mode: the known ones where there are groups or the group
-- mode is on, else the listed ones.
abbrev pub Groups : Type 0
Groups = List Group × Bool × Bool

abbrev pub known_groups : Groups → Groups → Groups
known_groups ([], false, night) listed = listed
known_groups ([], true, night) listed = ([], true, night)
known_groups (group ∷ more, group_mode, night) listed = (group ∷ more, group_mode, night)

-- The chime: the known status, else the listed one.
abbrev pub known_chime : ChimeStatus → ChimeStatus → ChimeStatus
known_chime chime_unspecified listed = listed
known_chime enabled listed = enabled
known_chime can_be_enabled listed = can_be_enabled
known_chime malfunction listed = malfunction
known_chime disabled listed = disabled

abbrev pub companies_of : Space → Companies
companies_of s = (s.monitoring_companies, s.monitoring_companies_loaded)

abbrev pub groups_of : Space → Groups
groups_of s = (s.groups, s.group_mode_enabled, s.night_mode_enabled)

-- The space with these fields; the others are the listed ones.
abbrev pub listed_with : Space → SecurityState → Companies → Groups → ChimeStatus → Space
listed_with s state companies groups chime = record {
  id = s.id;
  hub_id = s.hub_id;
  name = s.name;
  security_state = state;
  connection_status = s.connection_status;
  malfunctions_count = s.malfunctions_count;
  monitoring_companies = companies.0;
  monitoring_companies_loaded = companies.1;
  groups = groups.0;
  group_mode_enabled = groups.1;
  night_mode_enabled = groups.2;
  chime_status = chime;
}

-- The whole space: its state, and what the hourly snapshot alone carries, where the space was tracked
-- before.
abbrev pub merged_space : ℕ → Option (ℕ × SecurityState) → Option Space → Space → Space
merged_space now held none s =
    listed_with s (held_or now held s.security_state) (companies_of s) (groups_of s) s.chime_status
merged_space now held (some p) s =
    listed_with s (held_or now held s.security_state)
      (known_companies (companies_of p) (companies_of s)) (known_groups (groups_of p) (groups_of s))
      (known_chime p.chime_status s.chime_status)

override_lem :
    (now : ℕ) (held : Option (ℕ × SecurityState)) (s : Space)
    → override now held s ≡ record s { security_state = held_or now held s.security_state }
override_lem now none s = refl
override_lem now (some (expiry, state)) s = elim (Bool-cases (ltb now expiry)) [
  | inr late ↦ rw late refl
  | inl live ↦ elim (Bool-cases (same_state s.security_state state)) [
    | inl same ↦
        rw (live, same)
          (ap (λ t. record s { security_state = t }) (same_state_eq s.security_state state same))
    | inr other ↦ rw (live, other) refl
  ]
]

companies_lem :
    (companies : List MonitoringCompany) (loaded : Bool) (s : Space)
    → (if is_nonempty companies || loaded
        then record s { monitoring_companies = companies; monitoring_companies_loaded = loaded }
        else s)
      ≡ record s {
        monitoring_companies = (known_companies (companies, loaded) (companies_of s)).0;
        monitoring_companies_loaded = (known_companies (companies, loaded) (companies_of s)).1;
      }
companies_lem [] false s = refl
companies_lem [] true s = refl
companies_lem (company ∷ more) loaded s = refl

groups_lem :
    (groups : List Group) (group_mode night : Bool) (s : Space)
    → (if is_nonempty groups || group_mode
        then record s {
          groups = groups;
          group_mode_enabled = group_mode;
          night_mode_enabled = night;
        }
        else s)
      ≡ record s {
        groups = (known_groups (groups, group_mode, night) (groups_of s)).0;
        group_mode_enabled = (known_groups (groups, group_mode, night) (groups_of s)).1;
        night_mode_enabled = (known_groups (groups, group_mode, night) (groups_of s)).2;
      }
groups_lem [] false night s = refl
groups_lem [] true night s = refl
groups_lem (group ∷ more) group_mode night s = refl

chime_lem : (known listed : ChimeStatus) → chime_or known listed ≡ known_chime known listed
chime_lem chime_unspecified listed = refl
chime_lem enabled listed = refl
chime_lem can_be_enabled listed = refl
chime_lem malfunction listed = refl
chime_lem disabled listed = refl

keep_previous_lem :
    (p s : Space)
    → keep_previous (some p) s
      ≡ listed_with s s.security_state
          (known_companies (companies_of p) (companies_of s))
          (known_groups (groups_of p) (groups_of s))
          (known_chime p.chime_status s.chime_status)
keep_previous_lem p s =
    ap (λ t. keep_chime p (keep_groups p t))
      (companies_lem p.monitoring_companies p.monitoring_companies_loaded s)
    ∙ ap (keep_chime p) (groups_lem p.groups p.group_mode_enabled p.night_mode_enabled _)
    ∙ ap
        (λ t.
          listed_with s s.security_state (known_companies (companies_of p) (companies_of s))
            (known_groups (groups_of p) (groups_of s)) t)
        (chime_lem p.chime_status s.chime_status)

pub keep_previous-override :
    (now : ℕ) (held : Option (ℕ × SecurityState)) (previous : Option Space) (s : Space)
    → keep_previous previous (override now held s) ≡ merged_space now held previous s
keep_previous-override now held none s = override_lem now held s
keep_previous-override now held (some p) s =
    ap (keep_previous (some p)) (override_lem now held s) ∙ keep_previous_lem p _
