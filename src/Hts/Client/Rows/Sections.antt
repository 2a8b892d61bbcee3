-- ===== src/Hts/Client/Rows/Sections.antt =====
-- Bodies built of sections, and the walkers of api/hts/client.py over them.
use aegis_hass.Base.{
  ◌≡◌, ◌≢◌, refl, sym, ap, ◌∙◌, Bool, true, false, ◌==◌, Option, none, some, List, [], ◌∷◌, ◌++◌,
  map, append-nil, length, All, Bytes, ◌=ᵇ◌, =ᵇ-refl, =ᵇ→eq, Bool-cases, ◌⊎◌, inl, inr, is_nonempty,
  arith,
}
use aegis_hass.Hts.Client.Rows.{
  Dict, Row, put_key, device_pairs, extract_device_kv, close_row, walk, extract_all_devices_kv,
}

-- A device's section: its id, and its keys with their values.
abbrev pub Section : Type 0
Section = Bytes × List (Bytes × Bytes)

abbrev pub IsId : Bytes → Type 0
IsId p = length p ≡ 4

-- Ids have four bytes, keys do not; a value is any bytes, four among them.
abbrev pub IsSection : Section → Type 0
IsSection (id, pairs) = IsId id × All (λ p. length p.0 ≢ 4) pairs

abbrev pub pairs_params : List (Bytes × Bytes) → List Bytes
pairs_params [] = []
pairs_params ((key, value) ∷ pairs) = key ∷ value ∷ pairs_params pairs

abbrev pub body_params : List Section → List Bytes
body_params [] = []
body_params ((id, pairs) ∷ sections) = id ∷ (pairs_params pairs ++ body_params sections)

-- Later pairs overwrite earlier ones.
abbrev pub dict_from : Dict → List (Bytes × Bytes) → Dict
dict_from kv [] = kv
dict_from kv ((key, value) ∷ pairs) = dict_from (put_key key value kv) pairs

abbrev pub row_of : Section → Row
row_of (id, pairs) = (id, dict_from [] pairs)

not_id : (p : Bytes) → length p ≢ 4 → (length p == 4) ≡ false
not_id p h = ground arith

is_id : (p : Bytes) → IsId p → (length p == 4) ≡ true
is_id p h = ground arith

walk_id :
    (current : Option Row) (id : Bytes) (rest : List Bytes)
    → IsId id
    → walk current (id ∷ rest) ≡ close_row current ++ walk (some (id, [])) rest
unfolding walk
walk_id current id [] h = rw (is_id id h, walk)
walk_id current id (value ∷ rest) h = rw (is_id id h, walk)

walk_pairs :
    (id : Bytes) (kv : Dict) (pairs : List (Bytes × Bytes)) (rest : List Bytes)
    → All (λ p. length p.0 ≢ 4) pairs
    → walk (some (id, kv)) (pairs_params pairs ++ rest) ≡ walk (some (id, dict_from kv pairs)) rest
unfolding walk
walk_pairs id kv [] rest h = refl
walk_pairs id kv ((key, value) ∷ pairs) rest (hk, h) =
    rw (not_id key hk, walk) (walk_pairs id (put_key key value kv) pairs rest h)

walk_sections :
    (current : Option Row) (sections : List Section)
    → All IsSection sections
    → walk current (body_params sections) ≡ close_row current ++ map row_of sections
unfolding walk
walk_sections current [] h = sym (append-nil _)
walk_sections current ((id, pairs) ∷ sections) ((hid, hp), h) =
    walk_id current id _ hid
    ∙ ap (λ t. close_row current ++ t)
        (walk_pairs id [] pairs (body_params sections) hp
          ∙ walk_sections (some (id, dict_from [] pairs)) sections h)

walk_prefix :
    (front rest : List Bytes)
    → All (λ p. length p ≢ 4) front
    → walk none (front ++ rest) ≡ walk none rest
unfolding walk
walk_prefix [] rest h = refl
walk_prefix (p ∷ []) [] (hp, h) = rw (not_id p hp, walk)
walk_prefix (p ∷ []) (r ∷ rest) (hp, h) = rw (not_id p hp, walk)
walk_prefix (p ∷ q ∷ front) rest (hp, h) = rw (not_id p hp, walk) (walk_prefix (q ∷ front) rest h)

-- Whatever the devices and their pairs, with the sub-key and other parameters that have not four
-- bytes in front, `_extract_all_devices_kv` gives each section's id with the dictionary of its
-- pairs, in the body's order. Keys have not four bytes; values may.
pub extract_all_devices_kv-sections :
    (front : List Bytes) (sections : List Section)
    → All (λ p. length p ≢ 4) front
    → All IsSection sections
    → extract_all_devices_kv (front ++ body_params sections) ≡ map row_of sections
unfolding extract_all_devices_kv
extract_all_devices_kv-sections front sections hf h =
    walk_prefix front (body_params sections) hf ∙ walk_sections none sections h

device_pairs_end :
    (kv : Dict) (sections : List Section)
    → All IsSection sections
    → device_pairs false kv (body_params sections) ≡ kv
unfolding device_pairs
device_pairs_end kv [] h = refl
device_pairs_end kv ((id, []) ∷ []) h = refl
device_pairs_end kv ((id, []) ∷ (second, pairs) ∷ sections) ((hid, hp), h) = rw (is_id id hid)
device_pairs_end kv ((id, (key, value) ∷ pairs) ∷ sections) ((hid, hp), h) = rw (is_id id hid)

device_pairs_on :
    (first : Bool) (kv : Dict) (pairs : List (Bytes × Bytes)) (sections : List Section)
    → All (λ p. length p.0 ≢ 4) pairs
    → All IsSection sections
    → (first ≡ false) ⊎ (is_nonempty pairs ≡ true)
    → device_pairs first kv (pairs_params pairs ++ body_params sections) ≡ dict_from kv pairs
unfolding device_pairs
device_pairs_on first kv [] sections hp h (inl e) = rw e (device_pairs_end kv sections h)
device_pairs_on first kv [] sections hp h (inr e) = cc
device_pairs_on first kv ((key, value) ∷ pairs) sections (hk, hp) h e =
    rw (not_id key hk) (device_pairs_on false (put_key key value kv) pairs sections hp h (inl refl))

other_bytes : (p q : Bytes) → p ≢ q → (p =ᵇ q) ≡ false
other_bytes p q h = elim (Bool-cases (p =ᵇ q)) [ inl e ↦ absurd (h (=ᵇ→eq p q e)) | inr e ↦ e ]

find_marker :
    (front rest : List Bytes) (id : Bytes)
    → All (λ p. p ≢ id) front
    → extract_device_kv (front ++ (id ∷ rest)) id ≡ device_pairs true [] rest
unfolding extract_device_kv
find_marker [] rest id h = rw (=ᵇ-refl id)
find_marker (p ∷ front) rest id (hp, h) = rw (other_bytes p id hp, find_marker front rest id h)

-- A device's section, behind parameters that are not its id, is found by `_extract_device_kv`, which
-- gives the dictionary of that section's own pairs whatever sections follow, provided that it has
-- at least one pair.
pub extract_device_kv-section :
    (front : List Bytes) (id : Bytes) (pairs : List (Bytes × Bytes)) (sections : List Section)
    → All (λ p. p ≢ id) front
    → All IsSection ((id, pairs) ∷ sections)
    → is_nonempty pairs ≡ true
    → extract_device_kv (front ++ body_params ((id, pairs) ∷ sections)) id ≡ dict_from [] pairs
extract_device_kv-section front id pairs sections hf ((hid, hp), h) hn =
    find_marker front _ id hf ∙ device_pairs_on true [] pairs sections hp h (inr hn)
