-- ===== src/Base/Kv.antt =====
-- Python's `dict` with integer keys: entries in insertion order, one for each key that was set.
use aegis_hass.Base.{
  ℕ, ◌≡◌, refl, Bool, true, false, ◌==◌, if◌then◌else◌, Option, none, some, List, [], ◌∷◌, arith,
}

abbrev pub is_some {ℓ} : {A : Type ℓ} → Option A → Bool
is_some none = false
is_some (some a) = true

module _ {ℓ} {V : Type ℓ} where
  -- `d.get(k)`.
  unfoldable pub lookup : ℕ → List (ℕ × V) → Option V
  lookup k [] = none
  lookup k ((j, v) ∷ m) = if j == k then some v else lookup k m

  -- `d[k] = v`.
  unfoldable pub insert : ℕ → V → List (ℕ × V) → List (ℕ × V)
  insert k v [] = (k, v) ∷ []
  insert k v ((j, w) ∷ m) = if j == k then (j, v) ∷ m else (j, w) ∷ insert k v m

  -- `d.pop(k, None)`, what is left.
  unfoldable pub remove : ℕ → List (ℕ × V) → List (ℕ × V)
  remove k [] = []
  remove k ((j, w) ∷ m) = if j == k then remove k m else (j, w) ∷ remove k m

  -- `k in d`.
  unfoldable pub has_key : ℕ → List (ℕ × V) → Bool
  has_key k [] = false
  has_key k ((j, v) ∷ m) = if j == k then true else has_key k m

  -- `{**d, **e}`.
  unfoldable pub merge : List (ℕ × V) → List (ℕ × V) → List (ℕ × V)
  merge d [] = d
  merge d ((k, v) ∷ e) = insert k v (merge d e)

  pub lookup-insert :
      (k j : ℕ) (v : V) (m : List (ℕ × V))
      → lookup j (insert k v m) ≡ (if k == j then some v else lookup j m)
  unfolding lookup insert
  lookup-insert k j v (entry ∷ m) = let later = lookup-insert k j v m in ground (arith, later)
  lookup-insert k j v [] = refl

  pub lookup-remove :
      (k j : ℕ) (m : List (ℕ × V)) → lookup j (remove k m) ≡ (if k == j then none else lookup j m)
  unfolding lookup remove
  lookup-remove k j [] = ground arith
  lookup-remove k j ((i, w) ∷ m) = ground (arith, lookup-remove k j m)

  abbrev pub first_some : Option V → Option V → Option V
  first_some none o = o
  first_some (some v) o = some v

  -- The later dictionary wins.
  pub lookup-merge :
      (k : ℕ) (d e : List (ℕ × V)) → lookup k (merge d e) ≡ first_some (lookup k e) (lookup k d)
  unfolding lookup merge
  lookup-merge k d [] = refl
  lookup-merge k d ((j, v) ∷ e) =
      ground (arith, lookup-merge k d e, lookup-insert j k v (merge d e))

  pub has_key-lookup : (k : ℕ) (m : List (ℕ × V)) → has_key k m ≡ is_some (lookup k m)
  unfolding has_key lookup
  has_key-lookup k [] = refl
  has_key-lookup k ((j, v) ∷ m) = ground (arith, has_key-lookup k m)
