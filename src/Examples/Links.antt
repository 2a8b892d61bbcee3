-- ===== src/Examples/Links.antt =====
-- Tests of the HTS connection and the device rows of coordinator.py, and of the redacted payloads of
-- api/hts/client.py.
use aegis_hass.Base.{
  ℕ, ◌+◌, ◌*◌, ◌^◌, min, ◌≤◌, ◌≡◌, refl, true, false, none, List, [], ◌∷◌, ◌++◌, length, arith, ok,
  err,
}
use aegis_hass.Base.Text.{Text, codes}
use aegis_hass.Base.TextMap.{get, set}
use aegis_hass.Hts.Client.Redact.{redact_payload_hex, redact_payload_hex-same}
use aegis_hass.Coordinator.Link.{
  Link, manual_refresh_interval, rate_limited, request_manual_refresh,
}
use aegis_hass.Coordinator.Link.Backoff.{fail_all, fail_all-reconnect_delay}
use aegis_hass.Coordinator.Link.Refresh.{Between, nothing, then_other, request_manual_refresh-apart}
use aegis_hass.Coordinator.Rows.{Status, flag, case_tamper_key, tamper_key, without_hts_case_tamper}
use aegis_hass.Coordinator.Rows.Tamper.{tamper_left, without_hts_case_tamper_lem}

abbrev link : Link
link = record {
  is_connected = true;
  poll_interval = 300000;
  first_failure_at = none;
  connected_at = none;
  reconnect_delay = 30000;
  reconnect_pending = false;
  space_ids = [];
  chronic_issues = [];
  scheduled = [];
  first_offline_at = [];
  offline_issues = [];
  last_manual_refresh = [];
  updates = 0;
}

fail_all-reconnect_delay_example :
    ((fail_all (1000 ∷ 40000 ∷ []) link).reconnect_delay ≡ min (30000 * 2 ^ 2) 300000)
    × (length (fail_all (1000 ∷ 40000 ∷ []) link).scheduled ≡ 2 + 0)
fail_all-reconnect_delay_example =
    fail_all-reconnect_delay (1000 ∷ 40000 ∷ []) link refl refl (omega arith)

abbrev hub : Text
hub = 7 ∷ []

abbrev refreshed_at : ℕ → Link
refreshed_at now = record link { last_manual_refresh = (hub, now) ∷ [] }

first_refresh : request_manual_refresh 90000 hub link ≡ ok (refreshed_at 90000)
unfolding request_manual_refresh get set
first_refresh = refl

abbrev other_hub : Text
other_hub = 8 ∷ []

abbrev both_refreshed : ℕ → Link
both_refreshed now = record link { last_manual_refresh = (hub, now) ∷ (other_hub, 100000) ∷ [] }

other_hub-Between : Between hub (refreshed_at 90000) (both_refreshed 90000)
unfolding request_manual_refresh get set
other_hub-Between = then_other 100000 other_hub nothing (λ q. cc) refl

second_refresh :
    request_manual_refresh 200000 hub (both_refreshed 90000) ≡ ok (both_refreshed 200000)
unfolding request_manual_refresh get set
second_refresh = refl

-- A host that has been up for less than a minute: nothing was asked for, and the request is refused.
early_refresh : request_manual_refresh 20000 hub link ≡ err (rate_limited 40)
unfolding request_manual_refresh get
early_refresh = refl

request_manual_refresh-apart_example : 90000 + manual_refresh_interval ≤ 200000
request_manual_refresh-apart_example =
    request_manual_refresh-apart 90000 200000 hub link (refreshed_at 90000) (both_refreshed 90000)
      (both_refreshed 200000) first_refresh other_hub-Between second_refresh

abbrev tampered : List (Text × Status)
tampered =
    (tamper_key, flag true) ∷ (case_tamper_key, flag true) ∷ (codes "lid_opened", flag true) ∷ []

without_hts_case_tamper_lem_example :
    (get case_tamper_key (without_hts_case_tamper tampered) ≡ none)
    × (get tamper_key (without_hts_case_tamper tampered) ≡ tamper_left tampered)
without_hts_case_tamper_lem_example = without_hts_case_tamper_lem tampered

redact_payload_hex-same_example :
    redact_payload_hex ((1 ∷ []) ++ (codes "Anna" ++ (0 ∷ [])))
    ≡ redact_payload_hex ((1 ∷ []) ++ (codes "Paul" ++ (0 ∷ [])))
redact_payload_hex-same_example =
    redact_payload_hex-same (1 ∷ []) (codes "Anna") (codes "Paul") (0 ∷ [])
      (refl, (refl, (refl, (refl, tt)))) (refl, (refl, (refl, (refl, tt)))) (omega arith) refl
