-- ===== src/Hts/HubState/Network/Merge.antt =====
-- Two updates in a row against one: `parse_hub_params` of api/hts/hub_state.py as a merge.
use aegis_hass.Base.{
  ℕ, ◌≡◌, refl, sym, ap, ◌∙◌, true, Option, none, some, List, is_nonempty, Bytes, from_bytes,
}
use aegis_hass.Base.Kv.{lookup, merge, first_some, lookup-merge}
use aegis_hass.Hts.HubState.Keys
use aegis_hass.Hts.HubState.Values.{byte_val, bool_val, version_val, str_val, ip_val, int_be_val}
use aegis_hass.Hts.HubState.Network.{
  HubNetworkState, parse_hub_params, base_of, set_by, set_int, channel, nonzero, firmware_raw,
  signal_level, network_type, last_byte,
}

-- No value of the row is empty. (`_int_be_val` declines an empty one.)
abbrev pub HasValues : List (ℕ × Bytes) → Type 0
HasValues kv = (k : ℕ) (v : Bytes) → lookup k kv ≡ some v → is_nonempty v ≡ true

set_by_later {ℓ} :
    {A : Type ℓ} (f : Bytes → A) (old : A) (l m : Option Bytes)
    → set_by f (set_by f old m) l ≡ set_by f old (first_some l m)
set_by_later f old none m = refl
set_by_later f old (some v) m = refl

pub int_known : (v : Bytes) → is_nonempty v ≡ true → int_be_val v ≡ some (from_bytes v)
unfolding int_be_val
int_known v h = rw h

set_int_later {ℓ} :
    {A : Type ℓ} (f : ℕ → A) (old : A) (l m : Option Bytes)
    → ((v : Bytes) → l ≡ some v → is_nonempty v ≡ true)
    → set_int f (set_int f old m) l ≡ set_int f old (first_some l m)
set_int_later f old none m h = refl
set_int_later f old (some v) m h = rw (int_known v (h v refl))

module _ (d e : List (ℕ × Bytes)) where
  set_by-merge {ℓ} :
      {A : Type ℓ} (f : Bytes → A) (old : A) (k : ℕ)
      → set_by f (set_by f old (lookup k d)) (lookup k e) ≡ set_by f old (lookup k (merge d e))
  set_by-merge f old k =
      set_by_later f old (lookup k e) (lookup k d) ∙ ap (set_by f old) (sym (lookup-merge k d e))

  set_int-merge {ℓ} :
      {A : Type ℓ} (f : ℕ → A) (old : A) (k : ℕ)
      → HasValues e
      → set_int f (set_int f old (lookup k d)) (lookup k e) ≡ set_int f old (lookup k (merge d e))
  set_int-merge f old k h =
      set_int_later f old (lookup k e) (lookup k d) (h k)
      ∙ ap (set_int f old) (sym (lookup-merge k d e))

  -- Applying one row and then another is applying the merged row, the later one winning: a delta
  -- changes what it mentions and keeps the rest. No value of the later row is empty.
  pub parse_hub_params-merge :
      (s : Option HubNetworkState)
      → HasValues e
      → parse_hub_params e (some (parse_hub_params d s)) ≡ parse_hub_params (merge d e) s
  unfolding parse_hub_params
  parse_hub_params-merge s h =
      let b : HubNetworkState = base_of s in
      λ i. record {
        ethernet_connected = set_by-merge (channel 0) b.ethernet_connected Keys.active_channels i;
        wifi_connected = set_by-merge (channel 1) b.wifi_connected Keys.active_channels i;
        gsm_connected = set_by-merge (channel 2) b.gsm_connected Keys.active_channels i;
        ethernet_enabled = set_by-merge bool_val b.ethernet_enabled Keys.eth_enabled i;
        ethernet_ip = set_by-merge ip_val b.ethernet_ip Keys.eth_ip i;
        ethernet_mask = set_by-merge ip_val b.ethernet_mask Keys.eth_mask i;
        ethernet_gateway = set_by-merge ip_val b.ethernet_gateway Keys.eth_gate i;
        ethernet_dns = set_by-merge ip_val b.ethernet_dns Keys.eth_dns i;
        ethernet_dhcp = set_by-merge bool_val b.ethernet_dhcp Keys.eth_dhcp i;
        wifi_enabled = set_by-merge bool_val b.wifi_enabled Keys.wifi_enabled i;
        wifi_ssid = set_by-merge str_val b.wifi_ssid Keys.wifi_ssid i;
        wifi_signal_level =
            set_by-merge (λ raw. signal_level (byte_val raw)) b.wifi_signal_level Keys.wifi_level i;
        wifi_ip = set_by-merge ip_val b.wifi_ip Keys.wifi_ip i;
        gsm_signal_level =
            set_by-merge (λ raw. signal_level (last_byte raw)) b.gsm_signal_level
              Keys.gsm_signal_lvl i;
        gsm_network_type =
            set_by-merge (λ raw. network_type (byte_val raw)) b.gsm_network_type
              Keys.gsm_network_status i;
        externally_powered = set_by-merge bool_val b.externally_powered Keys.hub_powered i;
        firmware_version = set_by-merge version_val b.firmware_version Keys.hub_firmware i;
        firmware_version_raw = set_by-merge firmware_raw b.firmware_version_raw Keys.hub_firmware i;
        siren_on_panic_button =
            set_int-merge nonzero b.siren_on_panic_button Keys.siren_on_panic_button h i;
        siren_on_any_tamper =
            set_int-merge nonzero b.siren_on_any_tamper Keys.siren_on_any_tamper h i;
        siren_on_panic_button_raw =
            set_int-merge some b.siren_on_panic_button_raw Keys.siren_on_panic_button h i;
        siren_on_any_tamper_raw =
            set_int-merge some b.siren_on_any_tamper_raw Keys.siren_on_any_tamper h i;
        restore_pending = set_int-merge nonzero b.restore_pending Keys.alarm_happened h i;
        alarm_happened_raw = set_int-merge some b.alarm_happened_raw Keys.alarm_happened h i;
        restore_required_raw = set_int-merge some b.restore_required_raw Keys.restore_required h i;
      }
