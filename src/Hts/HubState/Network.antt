-- ===== src/Hts/HubState/Network.antt =====
-- `HubNetworkState` and `parse_hub_params` of api/hts/hub_state.py.
pub mod Merge
pub mod Consistent
use aegis_hass.Base.{
  ℕ, ◌^◌, bit_and, Bool, false, not, ◌==◌, if◌then◌else◌, Option, none, some, List, [], ◌∷◌, length,
  get_or, ◌-◌, Bytes, from_bytes,
}
use aegis_hass.Base.Kv.{lookup}
use aegis_hass.Base.Text.{Text, codes}
use aegis_hass.Hts.HubState.Keys
use aegis_hass.Hts.HubState.Values.{byte_val, bool_val, version_val, str_val, ip_val, int_be_val}

-- GSM_SIGNAL_MAP and WIFI_SIGNAL_MAP, which agree, with `.get(level, "unknown")`.
unfoldable pub signal_level : ℕ → Text
signal_level n =
    if n == 1
    then codes "weak"
    else if n == 2
    then codes "normal"
    else if n == 3
    then codes "strong"
    else codes "unknown"

-- GSM_NETWORK_MAP.
unfoldable pub network_type : ℕ → Text
network_type n =
    if n == 1
    then codes "gsm"
    else if n == 2
    then codes "2g"
    else if n == 3
    then codes "3g"
    else if n == 4
    then codes "4g"
    else codes "unknown"

pub record HubNetworkState : Type 0 where
  pub ethernet_connected : Option Bool
  pub wifi_connected : Option Bool
  pub gsm_connected : Option Bool
  pub ethernet_enabled : Bool
  pub ethernet_ip : Text
  pub ethernet_mask : Text
  pub ethernet_gateway : Text
  pub ethernet_dns : Text
  pub ethernet_dhcp : Bool
  pub wifi_enabled : Bool
  pub wifi_ssid : Text
  pub wifi_signal_level : Text
  pub wifi_ip : Text
  pub gsm_signal_level : Text
  pub gsm_network_type : Text
  pub externally_powered : Bool
  pub firmware_version : Text
  pub firmware_version_raw : ℕ
  pub siren_on_panic_button : Option Bool
  pub siren_on_any_tamper : Option Bool
  pub siren_on_panic_button_raw : Option ℕ
  pub siren_on_any_tamper_raw : Option ℕ
  pub restore_pending : Option Bool
  pub alarm_happened_raw : Option ℕ
  pub restore_required_raw : Option ℕ

-- `HubNetworkState()`.
abbrev pub default_state : HubNetworkState
default_state = record {
  ethernet_connected = none;
  wifi_connected = none;
  gsm_connected = none;
  ethernet_enabled = false;
  ethernet_ip = [];
  ethernet_mask = [];
  ethernet_gateway = [];
  ethernet_dns = [];
  ethernet_dhcp = false;
  wifi_enabled = false;
  wifi_ssid = [];
  wifi_signal_level = codes "unknown";
  wifi_ip = [];
  gsm_signal_level = codes "unknown";
  gsm_network_type = codes "unknown";
  externally_powered = false;
  firmware_version = [];
  firmware_version_raw = 0;
  siren_on_panic_button = none;
  siren_on_any_tamper = none;
  siren_on_panic_button_raw = none;
  siren_on_any_tamper_raw = none;
  restore_pending = none;
  alarm_happened_raw = none;
  restore_required_raw = none;
}

-- `primary_connection`, over the three flags.
unfoldable pub primary_of : Option Bool → Option Bool → Option Bool → Option Text
primary_of none none none = none
primary_of (some Bool.true) wifi gsm = some (codes "ethernet")
primary_of eth (some Bool.true) gsm = some (codes "wifi")
primary_of eth wifi (some Bool.true) = some (codes "gsm")
primary_of eth wifi gsm = some (codes "none")

unfoldable pub primary_connection : HubNetworkState → Option Text
unfolding primary_of
primary_connection s = primary_of s.ethernet_connected s.wifi_connected s.gsm_connected

-- What a field becomes: `if KEY in params: updates[field] = f(params[KEY])`, else the base's value.
abbrev pub set_by {ℓ} : {A : Type ℓ} → (Bytes → A) → A → Option Bytes → A
set_by f old none = old
set_by f old (some raw) = f raw

-- The same where `f` may decline the value (`if raw is not None`).
abbrev pub or_keep {ℓ} : {A : Type ℓ} → (ℕ → A) → A → Option ℕ → A
or_keep f old none = old
or_keep f old (some n) = f n

abbrev pub set_int {ℓ} : {A : Type ℓ} → (ℕ → A) → A → Option Bytes → A
set_int f old none = old
set_int f old (some raw) = or_keep f old (int_be_val raw)

abbrev pub channel : ℕ → Bytes → Option Bool
channel bit raw = some (not (bit_and (byte_val raw) (2 ^ bit) == 0))

-- `int.from_bytes(raw, "big") if len(raw) == 4 else 0`.
abbrev pub firmware_raw : Bytes → ℕ
firmware_raw raw = if length raw == 4 then from_bytes raw else 0

-- The last byte is the level.
abbrev pub last_byte : Bytes → ℕ
last_byte raw = get_or raw (length raw - 1) 0

abbrev pub nonzero : ℕ → Option Bool
nonzero n = some (not (n == 0))

abbrev pub base_of : Option HubNetworkState → HubNetworkState
base_of none = default_state
base_of (some s) = s

-- `dataclasses.replace(base, **updates)`, each update with its condition.
unfoldable pub parse_hub_params : List (ℕ × Bytes) → Option HubNetworkState → HubNetworkState
parse_hub_params params existing =
    let base : HubNetworkState = base_of existing in
    let at : ℕ → Option Bytes = λ k. lookup k params in
    record {
      ethernet_connected = set_by (channel 0) base.ethernet_connected (at Keys.active_channels);
      wifi_connected = set_by (channel 1) base.wifi_connected (at Keys.active_channels);
      gsm_connected = set_by (channel 2) base.gsm_connected (at Keys.active_channels);
      ethernet_enabled = set_by bool_val base.ethernet_enabled (at Keys.eth_enabled);
      ethernet_ip = set_by ip_val base.ethernet_ip (at Keys.eth_ip);
      ethernet_mask = set_by ip_val base.ethernet_mask (at Keys.eth_mask);
      ethernet_gateway = set_by ip_val base.ethernet_gateway (at Keys.eth_gate);
      ethernet_dns = set_by ip_val base.ethernet_dns (at Keys.eth_dns);
      ethernet_dhcp = set_by bool_val base.ethernet_dhcp (at Keys.eth_dhcp);
      wifi_enabled = set_by bool_val base.wifi_enabled (at Keys.wifi_enabled);
      wifi_ssid = set_by str_val base.wifi_ssid (at Keys.wifi_ssid);
      wifi_signal_level =
          set_by (λ raw. signal_level (byte_val raw)) base.wifi_signal_level (at Keys.wifi_level);
      wifi_ip = set_by ip_val base.wifi_ip (at Keys.wifi_ip);
      gsm_signal_level =
          set_by (λ raw. signal_level (last_byte raw)) base.gsm_signal_level
            (at Keys.gsm_signal_lvl);
      gsm_network_type =
          set_by (λ raw. network_type (byte_val raw)) base.gsm_network_type
            (at Keys.gsm_network_status);
      externally_powered = set_by bool_val base.externally_powered (at Keys.hub_powered);
      firmware_version = set_by version_val base.firmware_version (at Keys.hub_firmware);
      firmware_version_raw = set_by firmware_raw base.firmware_version_raw (at Keys.hub_firmware);
      siren_on_panic_button =
          set_int nonzero base.siren_on_panic_button (at Keys.siren_on_panic_button);
      siren_on_any_tamper = set_int nonzero base.siren_on_any_tamper (at Keys.siren_on_any_tamper);
      siren_on_panic_button_raw =
          set_int some base.siren_on_panic_button_raw (at Keys.siren_on_panic_button);
      siren_on_any_tamper_raw =
          set_int some base.siren_on_any_tamper_raw (at Keys.siren_on_any_tamper);
      restore_pending = set_int nonzero base.restore_pending (at Keys.alarm_happened);
      alarm_happened_raw = set_int some base.alarm_happened_raw (at Keys.alarm_happened);
      restore_required_raw = set_int some base.restore_required_raw (at Keys.restore_required);
    }
