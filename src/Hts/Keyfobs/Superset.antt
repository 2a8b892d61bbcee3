-- ===== src/Hts/Keyfobs/Superset.antt =====
-- Rows with more keys, and the looser of the two predicates, of api/hts/keyfobs.py.
use aegis_hass.Base.{
  ℕ, ◌≡◌, ◌≢◌, refl, sym, ap, ◌∙◌, Bool, true, false, Bool-cases, none, some, List, [], ◌∷◌, Bytes,
  inl, inr, arith,
}
use aegis_hass.Base.Kv.{lookup, insert, has_key, is_some, has_key-lookup, lookup-insert}
use aegis_hass.Base.Text.{Text}
use aegis_hass.Hts.Keyfobs.{
  keyfob_shape, user_row_markers, Keyfob, has_all, flags_hex_of, parse_keyfob,
  looks_like_keyfob_candidate,
}

-- A key that `parse_keyfob` does not read: neither a user marker, nor the name, the index or a flag.
abbrev pub IsUnread : ℕ → Type 0
IsUnread k =
    (k ≢ 0x01)
    × (k ≢ 0x02)
    × (k ≢ 0x03)
    × (k ≢ 0x0A)
    × (k ≢ 0x0B)
    × (k ≢ 0x0C)
    × (k ≢ 0x0D)
    × (k ≢ 0x0E)

unread_lookup :
    (k j : ℕ) (v : Bytes) (kv : List (ℕ × Bytes)) → k ≢ j → lookup j (insert k v kv) ≡ lookup j kv
unread_lookup k j v kv h = ground (arith, lookup-insert k j v kv)

unread_key :
    (k j : ℕ) (v : Bytes) (kv : List (ℕ × Bytes)) → k ≢ j → has_key j (insert k v kv) ≡ has_key j kv
unread_key k j v kv h =
    has_key-lookup j (insert k v kv)
    ∙ ap is_some (unread_lookup k j v kv h)
    ∙ sym (has_key-lookup j kv)

key_kept :
    (k j : ℕ) (v : Bytes) (kv : List (ℕ × Bytes))
    → has_key j kv ≡ true
    → has_key j (insert k v kv) ≡ true
key_kept k j v kv h =
    ground (arith, has_key-lookup j (insert k v kv), has_key-lookup j kv, lookup-insert k j v kv)

has_all_kept :
    (keys : List ℕ) (k : ℕ) (v : Bytes) (kv : List (ℕ × Bytes))
    → has_all keys kv ≡ true
    → has_all keys (insert k v kv) ≡ true
unfolding has_all
has_all_kept [] k v kv h = refl
has_all_kept (key ∷ keys) k v kv h = ground (arith, has_all_kept keys k v kv, key_kept k key v kv)

markers_kept :
    (k : ℕ) (v : Bytes) (kv : List (ℕ × Bytes))
    → k ≢ 0x01
    → k ≢ 0x03
    → has_all user_row_markers (insert k v kv) ≡ has_all user_row_markers kv
unfolding has_all
markers_kept k v kv h1 h3 = rw (unread_key k 0x01 v kv h1, unread_key k 0x03 v kv h3) refl

parse_keyfob-insert :
    (isprintable : Text → Bool) (device_id_hex hub_id : Text) (k : ℕ) (v : Bytes)
    (kv : List (ℕ × Bytes))
    → IsUnread k
    → has_all keyfob_shape kv ≡ true
    → parse_keyfob isprintable device_id_hex hub_id (insert k v kv)
      ≡ parse_keyfob isprintable device_id_hex hub_id kv
unfolding parse_keyfob flags_hex_of
parse_keyfob-insert isprintable device_id_hex hub_id k v kv (h1, h2, h3, ha, hb, hc, hd, he) shape =
    rw
      (
        shape,
        has_all_kept keyfob_shape k v kv shape,
        markers_kept k v kv h1 h3,
        unread_lookup k 0x02 v kv h2,
        unread_lookup k 0x0A v kv ha,
        unread_lookup k 0x0B v kv hb,
        unread_lookup k 0x0C v kv hc,
        unread_lookup k 0x0D v kv hd,
        unread_lookup k 0x0E v kv he,
      )
      refl

no_shape :
    (isprintable : Text → Bool) (device_id_hex hub_id : Text) (kv : List (ℕ × Bytes))
    → has_all keyfob_shape kv ≡ false
    → parse_keyfob isprintable device_id_hex hub_id kv ≡ none
unfolding parse_keyfob
no_shape isprintable device_id_hex hub_id kv e = rw e refl

-- A row that is a keyfob stays one, with the same snapshot, when a firmware adds a key that the
-- parser does not read, or gives such a key another value; the key is no user marker.
pub parse_keyfob-superset :
    (isprintable : Text → Bool) (device_id_hex hub_id : Text) (k : ℕ) (v : Bytes)
    (kv : List (ℕ × Bytes)) (keyfob : Keyfob)
    → IsUnread k
    → parse_keyfob isprintable device_id_hex hub_id kv ≡ some keyfob
    → parse_keyfob isprintable device_id_hex hub_id (insert k v kv) ≡ some keyfob
parse_keyfob-superset isprintable device_id_hex hub_id k v kv keyfob h e =
    elim (Bool-cases (has_all keyfob_shape kv)) [
      | inl shape ↦ parse_keyfob-insert isprintable device_id_hex hub_id k v kv h shape ∙ e
      | inr shape ↦ let nothing = no_shape isprintable device_id_hex hub_id kv shape in cc
    ]

shape_name : (kv : List (ℕ × Bytes)) → has_all keyfob_shape kv ≡ true → has_key 0x02 kv ≡ true
unfolding has_all
shape_name kv h = ground arith

shape_index : (kv : List (ℕ × Bytes)) → has_all keyfob_shape kv ≡ true → has_key 0x0A kv ≡ true
unfolding has_all
shape_index kv h = ground arith

-- Every row that `parse_keyfob` takes is one that `looks_like_keyfob_candidate` reports.
pub looks_like_keyfob_candidate-parse_keyfob :
    (isprintable : Text → Bool) (device_id_hex hub_id : Text) (kv : List (ℕ × Bytes))
    (keyfob : Keyfob)
    → parse_keyfob isprintable device_id_hex hub_id kv ≡ some keyfob
    → looks_like_keyfob_candidate isprintable device_id_hex kv ≡ true
unfolding parse_keyfob looks_like_keyfob_candidate
looks_like_keyfob_candidate-parse_keyfob isprintable device_id_hex hub_id kv keyfob e =
    ground (arith, shape_name kv, shape_index kv)
