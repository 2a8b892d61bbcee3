-- ===== src/Hts/HubState/Readings/Deltas.antt =====
-- Rows in sequence, and the temperature byte, of api/hts/hub_state.py.
use aegis_hass.Base.{
  ℕ, ◌-◌, ◌≤◌, ◌<◌, ◌≡◌, ◌⊎◌, refl, sym, ap, ◌∙◌, true, Option, none, some, List, ◌∷◌, is_nonempty,
  Bytes, arith,
}
use aegis_hass.Base.Int.{pos, negsuc}
use aegis_hass.Base.Kv.{lookup, merge, first_some, lookup-merge}
use aegis_hass.Base.Text.{Text}
use aegis_hass.Hts.HubState.Network.Merge.{HasValues, int_known}
use aegis_hass.Hts.HubState.Readings.{
  DeviceReadings, wallswitch_key_map, relay_key_map, outlet_key_map, readings_key_map, reading,
  apply_key_map, readings_base, parse_device_readings, is_one_of, temperature_device_types,
  parse_device_temperature_c,
}

reading_later :
    (scale : ℕ) (old : Option ℕ) (l m : Option Bytes)
    → ((v : Bytes) → l ≡ some v → is_nonempty v ≡ true)
    → reading scale (reading scale old m) l ≡ reading scale old (first_some l m)
reading_later scale old none m h = refl
reading_later scale old (some v) m h = rw (int_known v (h v refl))

module _ (d e : List (ℕ × Bytes)) (h : HasValues e) where
  reading-merge :
      (scale : ℕ) (old : Option ℕ) (k : ℕ)
      → reading scale (reading scale old (lookup k d)) (lookup k e)
        ≡ reading scale old (lookup k (merge d e))
  reading-merge scale old k =
      reading_later scale old (lookup k e) (lookup k d) (h k)
      ∙ ap (reading scale old) (sym (lookup-merge k d e))

  wallswitch-merge :
      (r : DeviceReadings)
      → apply_key_map wallswitch_key_map e (apply_key_map wallswitch_key_map d r)
        ≡ apply_key_map wallswitch_key_map (merge d e) r
  unfolding apply_key_map wallswitch_key_map
  wallswitch-merge r i = record {
    current_ma = reading-merge 1000 r.current_ma 0x42 i;
    power_consumed_wh = reading-merge 1000 r.power_consumed_wh 0x43 i;
    voltage_v = reading-merge 1000 r.voltage_v 0x35 i;
    power_w = r.power_w;
  }

  relay-merge :
      (r : DeviceReadings)
      → apply_key_map relay_key_map e (apply_key_map relay_key_map d r)
        ≡ apply_key_map relay_key_map (merge d e) r
  unfolding apply_key_map relay_key_map
  relay-merge r i = record {
    current_ma = reading-merge 1000 r.current_ma 0x42 i;
    power_consumed_wh = reading-merge 1000 r.power_consumed_wh 0x43 i;
    voltage_v = reading-merge 1 r.voltage_v 0x35 i;
    power_w = r.power_w;
  }

  outlet-merge :
      (r : DeviceReadings)
      → apply_key_map outlet_key_map e (apply_key_map outlet_key_map d r)
        ≡ apply_key_map outlet_key_map (merge d e) r
  unfolding apply_key_map outlet_key_map
  outlet-merge r i = record {
    current_ma = reading-merge 10000 r.current_ma 0x41 i;
    power_consumed_wh = reading-merge 1000 r.power_consumed_wh 0x40 i;
    voltage_v = reading-merge 1000 r.voltage_v 0x42 i;
    power_w = reading-merge 1000 r.power_w 0x3F i;
  }

  -- For every device type, a row and then another give the readings of the merged row, the later
  -- one winning, and a type without a key map never has any. No value of the later row is empty.
  pub parse_device_readings-merge :
      (device_type : Text) (existing : Option DeviceReadings)
      → parse_device_readings device_type e (parse_device_readings device_type d existing)
        ≡ parse_device_readings device_type (merge d e) existing
  unfolding parse_device_readings readings_key_map
  parse_device_readings-merge device_type existing = ground (
    arith,
    wallswitch-merge (readings_base existing),
    relay-merge (readings_base existing),
    outlet-merge (readings_base existing),
  )

-- The temperature of a row with a byte for it: degrees above zero up to 85 and below zero down to
-- -40 are read in two's complement, and every other byte is declined.
pub parse_device_temperature_c-signed :
    (device_type : Text) (kv : List (ℕ × Bytes)) (b : ℕ) (rest : Bytes)
    → is_one_of device_type temperature_device_types ≡ true
    → lookup 0x02 kv ≡ some (b ∷ rest)
    → b < 256
    → ((b ≤ 85) × (parse_device_temperature_c device_type kv ≡ some (pos b)))
      ⊎ (((216 ≤ b) × (parse_device_temperature_c device_type kv ≡ some (negsuc (255 - b))))
          ⊎ ((85 < b) × (b < 216) × (parse_device_temperature_c device_type kv ≡ none)))
unfolding parse_device_temperature_c
parse_device_temperature_c-signed device_type kv b rest ht hk hb = rw (ht, hk) (ground arith)
