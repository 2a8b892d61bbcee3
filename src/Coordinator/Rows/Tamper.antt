-- ===== src/Coordinator/Rows/Tamper.antt =====
-- The case tamper that HTS rows set and withdraw, in coordinator.py.
use aegis_hass.Base.{
  ◌≡◌, ◌≢◌, refl, sym, ap, ◌∙◌, Bool, true, false, ◌||◌, Bool-cases, if◌then◌else◌, by_if, Option,
  none, List, ◌=ᵇ◌, =ᵇ-refl, arith, inl, inr,
}
use aegis_hass.Base.Text.{Text, codes}
use aegis_hass.Base.TextMap.{get, pop, get-pop_same, get-pop_other}
use aegis_hass.Coordinator.Rows.{
  Status, is_true, case_tamper_key, tamper_key, tamper_source_keys, any_true,
  without_hts_case_tamper,
}

keys_apart : case_tamper_key ≢ tamper_key
keys_apart e = let other : false ≡ true = ap (λ k. k =ᵇ tamper_key) e in cc

other_key : tamper_key ≢ case_tamper_key
other_key e = keys_apart (sym e)

-- The marker is gone, whatever stays.
without-marker :
    (statuses : List (Text × Status))
    → get case_tamper_key (without_hts_case_tamper statuses) ≡ none
unfolding without_hts_case_tamper
without-marker statuses =
    let remaining = pop case_tamper_key statuses in
    by_if (λ m. get case_tamper_key m ≡ none) (any_true tamper_source_keys remaining) remaining _
      (λ _. get-pop_same case_tamper_key statuses)
      (λ _.
        get-pop_other tamper_key case_tamper_key remaining other_key
        ∙ get-pop_same case_tamper_key statuses)

-- Whether the device stream still reports an opened lid, an unlocked bracket or a drilled case.
abbrev pub is_still_reported : List (Text × Status) → Bool
is_still_reported statuses =
    is_true (get (codes "lid_opened") statuses)
    || (is_true (get (codes "smart_bracket_unlocked") statuses)
        || is_true (get (codes "case_drilling") statuses))

unmarked :
    (key : Text) (statuses : List (Text × Status))
    → (case_tamper_key =ᵇ key) ≡ false
    → get key (pop case_tamper_key statuses) ≡ get key statuses
unmarked key statuses e =
    get-pop_other case_tamper_key key statuses
      (λ q. let same : (case_tamper_key =ᵇ key) ≡ true = rw (sym q) (=ᵇ-refl case_tamper_key) in cc)

any_true-sources :
    (statuses : List (Text × Status))
    → any_true tamper_source_keys (pop case_tamper_key statuses) ≡ is_still_reported statuses
unfolding any_true
any_true-sources statuses =
    rw
      (
        unmarked (codes "lid_opened") statuses refl,
        unmarked (codes "smart_bracket_unlocked") statuses refl,
        unmarked (codes "case_drilling") statuses refl,
      )
      (or_three (is_true (get (codes "lid_opened") statuses))
        (is_true (get (codes "smart_bracket_unlocked") statuses)) _)
  where
    or_three : (a b d : Bool) → (a || (b || (d || false))) ≡ (a || (b || d))
    or_three a b d = ground arith

-- The tamper of another source stays, and the one that was HTS's alone goes.
abbrev pub tamper_left : List (Text × Status) → Option Status
tamper_left statuses = if is_still_reported statuses then get tamper_key statuses else none

without-tamper_left :
    (statuses : List (Text × Status))
    → get tamper_key (without_hts_case_tamper statuses) ≡ tamper_left statuses
unfolding without_hts_case_tamper
without-tamper_left statuses =
    let remaining = pop case_tamper_key statuses in
    let sources = any_true-sources statuses in
    elim (Bool-cases (is_still_reported statuses)) [
      | inl e ↦ rw (sources, e) (get-pop_other case_tamper_key tamper_key statuses keys_apart)
      | inr e ↦ rw (sources, e) (get-pop_same tamper_key remaining)
    ]

-- Removing the marker of a device leaves its tamper as it was where the status `lid_opened`,
-- `smart_bracket_unlocked` or `case_drilling` is still truthy, and takes the tamper away where none of
-- the three is; the marker is gone either way.
pub without_hts_case_tamper_lem :
    (statuses : List (Text × Status))
    → (get case_tamper_key (without_hts_case_tamper statuses) ≡ none)
      × (get tamper_key (without_hts_case_tamper statuses) ≡ tamper_left statuses)
without_hts_case_tamper_lem statuses = (without-marker statuses, without-tamper_left statuses)
