-- ===== src/Hts/Client/Sessions/Records.antt =====
-- Lists of session records, for `_parse_client_sessions` of api/hts/client.py.
use aegis_hass.Base.{
  ◌≤◌, ◌≡◌, ◌≢◌, refl, ap, ◌∙◌, true, false, List, [], ◌∷◌, ◌++◌, map, length, is_nonempty, All,
  Bytes, ◌=ᵇ◌, arith,
}
use aegis_hass.Base.TextMap.{unequal_texts}
use aegis_hass.Hts.Client.Rows.{Dict, put_key}
use aegis_hass.Hts.Client.Rows.Sections.{pairs_params, dict_from}
use aegis_hass.Hts.Client.Sessions.{
  separator, is_pair, session_records, session_of, parse_client_sessions,
}

-- Keys have one byte, and no value is the separator.
abbrev pub IsRecord : List (Bytes × Bytes) → Type 0
IsRecord pairs =
    All (λ p. (length p.0 ≡ 1) × (p.1 ≢ separator)) pairs
    × (is_nonempty (dict_from [] pairs) ≡ true)

-- Each record with its separator behind it.
abbrev pub records_params : List (List (Bytes × Bytes)) → List Bytes → List Bytes
records_params [] stub = stub
records_params (pairs ∷ records) stub =
    pairs_params pairs ++ (separator ∷ records_params records stub)

no_separator : (key : Bytes) → length key ≡ 1 → (key =ᵇ separator) ≡ false
no_separator key h = unequal_texts key separator (λ q. let two = ap length q in omega arith)

pair_test : (key value : Bytes) → length key ≡ 1 → value ≢ separator → is_pair key value ≡ true
pair_test key value hk hv =
    let other : (value =ᵇ separator) ≡ false = unequal_texts value separator hv in ground arith

read_pairs :
    (kv : Dict) (pairs : List (Bytes × Bytes)) (rest : List Bytes)
    → All (λ p. (length p.0 ≡ 1) × (p.1 ≢ separator)) pairs
    → session_records kv (pairs_params pairs ++ rest) ≡ session_records (dict_from kv pairs) rest
unfolding session_records
read_pairs kv [] rest h = refl
read_pairs kv ((key, value) ∷ pairs) rest ((hk, hv), h) =
    rw (no_separator key hk, pair_test key value hk hv, session_records)
      (read_pairs (put_key key value kv) pairs rest h)

read_separator :
    (kv : Dict) (rest : List Bytes)
    → is_nonempty kv ≡ true
    → session_records kv (separator ∷ rest) ≡ kv ∷ session_records [] rest
unfolding session_records
read_separator kv [] h = rw h refl
read_separator kv (param ∷ rest) h = rw h refl

read_records :
    (records : List (List (Bytes × Bytes))) (stub : List Bytes)
    → All IsRecord records
    → length stub ≤ 1
    → session_records [] (records_params records stub) ≡ map (dict_from []) records
unfolding session_records
read_records [] [] h hs = refl
read_records [] (param ∷ []) h hs = refl
read_records [] (param ∷ value ∷ stub) h hs = absurd (omega arith)
read_records (pairs ∷ records) stub ((hp, hn), h) hs =
    read_pairs [] pairs (separator ∷ records_params records stub) hp
    ∙ read_separator (dict_from [] pairs) (records_params records stub) hn
    ∙ ap (λ t. dict_from [] pairs ∷ t) (read_records records stub h hs)

-- A list of records behind the response key, each with a separator behind it, is read as exactly
-- those sessions, in order, and a key that stands alone at the end is passed over. Keys have one
-- byte, no value is the separator, and no record is without a pair.
pub parse_client_sessions-records :
    (first : Bytes) (records : List (List (Bytes × Bytes))) (stub : List Bytes)
    → All IsRecord records
    → length stub ≤ 1
    → parse_client_sessions (first ∷ records_params records stub)
      ≡ map session_of (map (dict_from []) records)
unfolding parse_client_sessions
parse_client_sessions-records first records stub h hs =
    ap (map session_of) (read_records records stub h hs)
