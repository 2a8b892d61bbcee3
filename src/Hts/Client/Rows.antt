-- ===== src/Hts/Client/Rows.antt =====
-- The rows of a body or a delta: `_extract_direct_kv`, `_extract_device_kv`,
-- `_extract_all_devices_kv` and the tests on them, of api/hts/client.py.
pub mod Sections
use aegis_hass.Base.{
  ℕ, Bool, true, false, not, ◌&&◌, ◌||◌, ◌==◌, if◌then◌else◌, Option, none, some, List, [], ◌∷◌,
  ◌++◌, length, is_nonempty, Bytes, ◌=ᵇ◌,
}
use aegis_hass.Base.Kv.{insert, has_key}
use aegis_hass.Hts.HubState.Keys

abbrev pub Dict : Type 0
Dict = List (ℕ × Bytes)

-- `if len(key_p) == 1: kv[key_p[0]] = val_p`.
unfoldable pub put_key : Bytes → Bytes → Dict → Dict
put_key (k ∷ []) value kv = insert k value kv
put_key _ value kv = kv

-- The loop of `_extract_direct_kv`, `kv` being what it has.
abbrev pub direct_from : Dict → List Bytes → Dict
direct_from kv [] = kv
direct_from kv (key ∷ []) = kv
direct_from kv (key ∷ value ∷ rest) = direct_from (put_key key value kv) rest

unfoldable pub extract_direct_kv : List Bytes → Dict
extract_direct_kv params = direct_from [] params

-- The second loop of `_extract_device_kv`; `first` says that `i == start`.
unfoldable pub device_pairs : Bool → Dict → List Bytes → Dict
device_pairs first kv [] = kv
device_pairs first kv (key ∷ []) = kv
device_pairs first kv (key ∷ value ∷ rest) =
    let more = device_pairs false (put_key key value kv) rest in
    if length key == 4 && not first then kv else more

-- The first loop finds the marker.
unfoldable pub extract_device_kv : List Bytes → Bytes → Dict
extract_device_kv [] device_id = []
extract_device_kv (p ∷ rest) device_id =
    let more = extract_device_kv rest device_id in
    if p =ᵇ device_id then device_pairs true [] rest else more

abbrev pub Row : Type 0
Row = Bytes × Dict

-- `if current_id is not None: result.append((current_id, current_kv))`.
abbrev pub close_row : Option Row → List Row
close_row none = []
close_row (some row) = row ∷ []

-- The loop of `_extract_all_devices_kv`: the rows it appends from here on.
unfoldable pub walk : Option Row → List Bytes → List Row
walk current [] = close_row current
walk current (p ∷ []) =
    if length p == 4 then close_row current ++ ((p, []) ∷ []) else close_row current
walk current (p ∷ value ∷ rest) = elim (length p == 4) [
  | true ↦ close_row current ++ walk (some (p, [])) (value ∷ rest)
  | false ↦ elim current [
    | none ↦ walk none (value ∷ rest)
    | some (id, kv) ↦ walk (some (id, put_key p value kv)) rest
  ]
]

unfoldable pub extract_all_devices_kv : List Bytes → List Row
extract_all_devices_kv params = walk none params

-- `any(kv for _did, kv in rows)`.
unfoldable pub any_populated : List Row → Bool
any_populated [] = false
any_populated ((id, kv) ∷ rows) = is_nonempty kv || any_populated rows

unfoldable pub carries_device_rows : List Bytes → Bool
carries_device_rows params = any_populated (extract_all_devices_kv params)

unfoldable pub is_network_state_delta : Dict → Bool
is_network_state_delta kv =
    has_key Keys.active_channels kv
    || (has_key Keys.eth_enabled kv
        || (has_key Keys.wifi_enabled kv || has_key Keys.gprs_enabled kv))
