-- ===== src/Base/TextMap.antt =====
-- Python's `dict` with `str` keys, and membership in a collection of strings.
use aegis_hass.Base.{
  ◌≡◌, refl, ◌≢◌, Bool, true, false, if◌then◌else◌, Bool-cases, Option, none, some, List, [], ◌∷◌,
  ◌=ᵇ◌, =ᵇ-refl, =ᵇ→eq, inl, inr, ◌⊎◌, ◌∙◌,
}
use aegis_hass.Base.Text.{Text}

pub unequal_texts : (a b : Text) → a ≢ b → (a =ᵇ b) ≡ false
unequal_texts a b h = elim (Bool-cases (a =ᵇ b)) [ inl e ↦ absurd (h (=ᵇ→eq a b e)) | inr e ↦ e ]

pub texts-cases : (a b : Text) → (a ≡ b) ⊎ (a ≢ b)
texts-cases a b = elim (Bool-cases (a =ᵇ b)) [
  | inl e ↦ inl (=ᵇ→eq a b e)
  | inr e ↦ inr (λ h. let same = =ᵇ-refl b in cc)
]

-- `text in texts`.
unfoldable pub has_text : Text → List Text → Bool
has_text a [] = false
has_text a (t ∷ texts) = if t =ᵇ a then true else has_text a texts

module _ {ℓ} {V : Type ℓ} where
  -- `d.get(key)`.
  unfoldable pub get : Text → List (Text × V) → Option V
  get a [] = none
  get a ((t, v) ∷ m) = if t =ᵇ a then some v else get a m

  -- `d[key] = value`.
  unfoldable pub set : Text → V → List (Text × V) → List (Text × V)
  set a v [] = (a, v) ∷ []
  set a v ((t, w) ∷ m) = if t =ᵇ a then (t, v) ∷ m else (t, w) ∷ set a v m

  pub get-set_same : (a : Text) (v : V) (m : List (Text × V)) → get a (set a v m) ≡ some v
  unfolding get set
  get-set_same a v [] = rw (=ᵇ-refl a)
  get-set_same a v ((t, w) ∷ m) = elim (Bool-cases (t =ᵇ a)) [
    | inl e ↦ rw (e, e)
    | inr e ↦ rw (e, e) (get-set_same a v m)
  ]

  pub get-set_other :
      (a b : Text) (v : V) (m : List (Text × V)) → a ≢ b → get b (set a v m) ≡ get b m
  unfolding get set
  get-set_other a b v [] h = rw (unequal_texts a b h)
  get-set_other a b v ((t, w) ∷ m) h = elim (Bool-cases (t =ᵇ a)) [
    | inl e ↦
        let same : t ≡ a = =ᵇ→eq t a e in
        let away : (t =ᵇ b) ≡ false = rw same (unequal_texts a b h) in rw (e, away)
    | inr e ↦ rw (e, get-set_other a b v m h)
  ]

  -- `d.pop(key, None)`, what is left.
  unfoldable pub pop : Text → List (Text × V) → List (Text × V)
  pop a [] = []
  pop a ((t, v) ∷ m) = if t =ᵇ a then pop a m else (t, v) ∷ pop a m

  -- `list(d)`.
  unfoldable pub keys : List (Text × V) → List Text
  keys [] = []
  keys ((t, v) ∷ m) = t ∷ keys m

  pub get-pop_same : (a : Text) (m : List (Text × V)) → get a (pop a m) ≡ none
  unfolding get pop
  get-pop_same a [] = refl
  get-pop_same a ((t, v) ∷ m) = elim (Bool-cases (t =ᵇ a)) [
    | inl e ↦ rw e (get-pop_same a m)
    | inr e ↦ rw (e, e) (get-pop_same a m)
  ]

  pub get-pop_other : (a b : Text) (m : List (Text × V)) → a ≢ b → get b (pop a m) ≡ get b m
  unfolding get pop
  get-pop_other a b [] h = refl
  get-pop_other a b ((t, v) ∷ m) h = elim (Bool-cases (t =ᵇ a)) [
    | inl e ↦
        let same : t ≡ a = =ᵇ→eq t a e in
        let away : (t =ᵇ b) ≡ false = rw same (unequal_texts a b h) in
        rw (e, away) (get-pop_other a b m h)
    | inr e ↦ rw (e, get-pop_other a b m h)
  ]

-- A key stands in at most one entry, as in every Python dictionary.
abbrev pub IsDict {ℓ} : {V : Type ℓ} → List (Text × V) → Type ℓ
IsDict [] = Unit
IsDict ((t, v) ∷ m) = (get t m ≡ none) × IsDict m

pub IsDict-set {ℓ} :
    {V : Type ℓ} (a : Text) (v : V) (m : List (Text × V)) → IsDict m → IsDict (set a v m)
unfolding set get
IsDict-set a v [] h = (refl, tt)
IsDict-set a v ((t, w) ∷ m) (new, h) = elim (Bool-cases (t =ᵇ a)) [
  | inl e ↦ rw e (new, h)
  | inr e ↦
      let apart : a ≢ t = λ same. let shown = =ᵇ-refl t in cc in
      rw e (get-set_other a t v m apart ∙ new, IsDict-set a v m h)
]
