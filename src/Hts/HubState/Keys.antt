-- ===== src/Hts/HubState/Keys.antt =====
-- The hub's key constants in use, of api/hts/hub_state.py.
use aegis_hass.Base.{ℕ}

abbrev pub hub_powered : ℕ
hub_powered = 3

abbrev pub gsm_signal_lvl : ℕ
gsm_signal_lvl = 4

abbrev pub eth_dhcp : ℕ
eth_dhcp = 16

abbrev pub wifi_level : ℕ
wifi_level = 18

abbrev pub hub_firmware : ℕ
hub_firmware = 0x37

abbrev pub eth_ip : ℕ
eth_ip = 35

abbrev pub eth_mask : ℕ
eth_mask = 36

abbrev pub eth_gate : ℕ
eth_gate = 37

abbrev pub eth_dns : ℕ
eth_dns = 38

abbrev pub wifi_ssid : ℕ
wifi_ssid = 39

abbrev pub wifi_ip : ℕ
wifi_ip = 42

abbrev pub active_channels : ℕ
active_channels = 72

abbrev pub siren_on_any_tamper : ℕ
siren_on_any_tamper = 0x65

abbrev pub siren_on_panic_button : ℕ
siren_on_panic_button = 0x66

abbrev pub restore_required : ℕ
restore_required = 0xBB

abbrev pub alarm_happened : ℕ
alarm_happened = 0xBC

abbrev pub eth_enabled : ℕ
eth_enabled = 74

abbrev pub wifi_enabled : ℕ
wifi_enabled = 75

abbrev pub gprs_enabled : ℕ
gprs_enabled = 76

abbrev pub gsm_network_status : ℕ
gsm_network_status = 122
