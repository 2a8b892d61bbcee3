-- ===== src/Hts/HubState/Network/Consistent.antt =====
-- The fields of a `HubNetworkState` against one another, in api/hts/hub_state.py.
use aegis_hass.Base.{ℕ, ◌≡◌, refl, Bool, Option, none, some, List, [], ◌∷◌, Bytes, arith}
use aegis_hass.Base.Kv.{lookup, is_some}
use aegis_hass.Hts.HubState.Keys
use aegis_hass.Hts.HubState.Values.{int_be_val}
use aegis_hass.Hts.HubState.Network.{
  HubNetworkState, default_state, parse_hub_params, set_by, set_int, or_keep, channel, nonzero,
  primary_of, primary_connection,
}

-- A flag that goes with a raw number.
abbrev pub flag_of : Option ℕ → Option Bool
flag_of none = none
flag_of (some n) = nonzero n

-- The three channel flags are known together, and each flag that has a raw number says whether that
-- is non-zero.
pub record IsConsistent (s : HubNetworkState) : Type 0 where
  pub wifi_known : is_some s.wifi_connected ≡ is_some s.ethernet_connected
  pub gsm_known : is_some s.gsm_connected ≡ is_some s.ethernet_connected
  pub panic_flag : s.siren_on_panic_button ≡ flag_of s.siren_on_panic_button_raw
  pub tamper_flag : s.siren_on_any_tamper ≡ flag_of s.siren_on_any_tamper_raw
  pub restore_flag : s.restore_pending ≡ flag_of s.alarm_happened_raw

default_state-IsConsistent : IsConsistent default_state
default_state-IsConsistent = record {
  wifi_known = refl;
  gsm_known = refl;
  panic_flag = refl;
  tamper_flag = refl;
  restore_flag = refl;
}

set_int-flag_of :
    (flag : Option Bool) (raw : Option ℕ) (o : Option Bytes)
    → flag ≡ flag_of raw
    → set_int nonzero flag o ≡ flag_of (set_int some raw o)
set_int-flag_of flag raw none h = h
set_int-flag_of flag raw (some v) h = kept (int_be_val v)
  where
    kept : (n : Option ℕ) → or_keep nonzero flag n ≡ flag_of (or_keep some raw n)
    kept none = h
    kept (some n) = refl

set_by-channel :
    (a b : ℕ) (x y : Option Bool) (o : Option Bytes)
    → is_some x ≡ is_some y
    → is_some (set_by (channel a) x o) ≡ is_some (set_by (channel b) y o)
set_by-channel a b x y none h = h
set_by-channel a b x y (some v) h = refl

-- Every row keeps a state consistent, whatever bytes it holds.
pub parse_hub_params-IsConsistent :
    (params : List (ℕ × Bytes)) (s : HubNetworkState)
    → IsConsistent s
    → IsConsistent (parse_hub_params params (some s))
unfolding parse_hub_params
parse_hub_params-IsConsistent params s h = record {
  wifi_known = set_by-channel 1 0 _ _ (lookup Keys.active_channels params) h.wifi_known;
  gsm_known = set_by-channel 2 0 _ _ (lookup Keys.active_channels params) h.gsm_known;
  panic_flag = set_int-flag_of _ _ (lookup Keys.siren_on_panic_button params) h.panic_flag;
  tamper_flag = set_int-flag_of _ _ (lookup Keys.siren_on_any_tamper params) h.tamper_flag;
  restore_flag = set_int-flag_of _ _ (lookup Keys.alarm_happened params) h.restore_flag;
}

-- The states of a hub from its first row on.
unfoldable pub parse_rows : List (List (ℕ × Bytes)) → HubNetworkState → HubNetworkState
parse_rows [] s = s
parse_rows (row ∷ rows) s = parse_rows rows (parse_hub_params row (some s))

parse_rows-IsConsistent :
    (rows : List (List (ℕ × Bytes))) (s : HubNetworkState)
    → IsConsistent s
    → IsConsistent (parse_rows rows s)
unfolding parse_rows
parse_rows-IsConsistent [] s h = h
parse_rows-IsConsistent (row ∷ rows) s h =
    parse_rows-IsConsistent rows (parse_hub_params row (some s))
      (parse_hub_params-IsConsistent row s h)

primary_unknown :
    (e w g : Option Bool)
    → is_some w ≡ is_some e
    → is_some g ≡ is_some e
    → is_some (primary_of e w g) ≡ is_some e
unfolding primary_of
primary_unknown e w g p q = ground arith

-- After any rows from the default state on: the state is consistent, and the primary connection is
-- known exactly where the channels are.
pub parse_rows_lem :
    (rows : List (List (ℕ × Bytes)))
    → IsConsistent (parse_rows rows default_state)
      × (is_some (primary_connection (parse_rows rows default_state))
          ≡ is_some (parse_rows rows default_state).ethernet_connected)
unfolding primary_connection
parse_rows_lem rows =
    let h : IsConsistent (parse_rows rows default_state) =
      parse_rows-IsConsistent rows default_state default_state-IsConsistent in
    (h, primary_unknown _ _ _ h.wifi_known h.gsm_known)
