-- ===== src/Coordinator/Link.antt =====
-- The HTS connection as coordinator.py keeps it: `_handle_hts_disconnect`, `_async_hts_reconnect_due`,
-- `_clear_hts_chronic_failure`, `_update_hub_offline_repairs`, `async_request_manual_refresh` and
-- `_prune_manual_refresh`. Times are milliseconds of `time.monotonic`.
pub mod Backoff
pub mod Refresh
use aegis_hass.Base.{
  ℕ, suc, ◌+◌, ◌-◌, ◌*◌, ◌/◌, min, max, Bool, true, false, not, ◌&&◌, ◌||◌, ltb, leb, if◌then◌else◌,
  Option, none, some, List, [], ◌∷◌, is_nonempty, ◌=ᵇ◌, Result, ok, err,
}
use aegis_hass.Base.Text.{Text}
use aegis_hass.Base.TextMap.{get, set, pop, has_text}
use aegis_hass.Coordinator.Models.{ConnectionStatus, offline, Space}
use aegis_hass.Coordinator.Overlays.{second}

abbrev pub minute : ℕ
minute = 60 * second

abbrev pub hts_chronic_failure : ℕ
hts_chronic_failure = 30 * minute

abbrev pub hts_reconnect_first_delay : ℕ
hts_reconnect_first_delay = 30 * second

abbrev pub hub_offline_threshold : ℕ
hub_offline_threshold = 24 * (60 * minute)

abbrev pub manual_refresh_interval : ℕ
manual_refresh_interval = 60 * second

-- The attributes, with the minutes of each space's repair issue for a chronic failure, the delays of
-- the reconnects that were scheduled, newest first, the hours of each hub's offline issue and the
-- number of `async_set_updated_data` calls.
pub record Link : Type 0 where
  pub is_connected : Bool
  pub poll_interval : ℕ
  pub first_failure_at : Option ℕ
  pub connected_at : Option ℕ
  pub reconnect_delay : ℕ
  pub reconnect_pending : Bool
  pub space_ids : List Text
  pub chronic_issues : List (Text × ℕ)
  pub scheduled : List ℕ
  pub first_offline_at : List (Text × ℕ)
  pub offline_issues : List (Text × ℕ)
  pub last_manual_refresh : List (Text × ℕ)
  pub updates : ℕ

-- The first failure of a run is noted, and a long run is reported.
abbrev pub first_failure : Option ℕ → ℕ → Option ℕ
first_failure none now = some now
first_failure (some first) now = some first

-- `for space_id in space_ids: async_register_hts_chronic_failure(...)`, and the clearing of it.
unfoldable pub register_all : List Text → ℕ → List (Text × ℕ) → List (Text × ℕ)
register_all [] minutes issues = issues
register_all (space_id ∷ rest) minutes issues =
    register_all rest minutes (set space_id minutes issues)

unfoldable pub clear_all : List Text → List (Text × ℕ) → List (Text × ℕ)
clear_all [] issues = issues
clear_all (space_id ∷ rest) issues = clear_all rest (pop space_id issues)

abbrev pub chronic : Option ℕ → ℕ → List Text → List (Text × ℕ) → List (Text × ℕ)
chronic none now space_ids issues = issues
chronic (some first) now space_ids issues =
    if leb hts_chronic_failure (now - first)
    then register_all space_ids ((now - first) / minute) issues
    else issues

-- `connected_at is not None and monotonic() - connected_at >= poll_interval`.
abbrev pub was_healthy : Option ℕ → ℕ → ℕ → Bool
was_healthy none now poll_interval = false
was_healthy (some connected_at) now poll_interval = leb poll_interval (now - connected_at)

unfoldable pub schedule_reconnect : Bool → Link → Link
schedule_reconnect reconnect l =
    if reconnect && not l.reconnect_pending
    then record l {
      reconnect_delay = min (l.reconnect_delay * 2) l.poll_interval;
      reconnect_pending = true;
      scheduled = l.reconnect_delay ∷ l.scheduled;
    }
    else l

unfoldable pub handle_hts_disconnect : ℕ → Bool → Link → Link
handle_hts_disconnect now reconnect l = schedule_reconnect reconnect (record l {
  is_connected = false;
  first_failure_at = first_failure l.first_failure_at now;
  chronic_issues = chronic l.first_failure_at now l.space_ids l.chronic_issues;
  updates = suc l.updates;
  connected_at = none;
  reconnect_delay =
      if was_healthy l.connected_at now l.poll_interval
      then hts_reconnect_first_delay
      else l.reconnect_delay;
})

-- `_async_hts_reconnect_due`, up to the start of the connection.
unfoldable pub hts_reconnect_due : Link → Link
hts_reconnect_due l = record l { reconnect_pending = false }

abbrev pub clear_issues : Option ℕ → List Text → List (Text × ℕ) → List (Text × ℕ)
clear_issues none space_ids issues = issues
clear_issues (some first) space_ids issues = clear_all space_ids issues

unfoldable pub clear_hts_chronic_failure : Link → Link
clear_hts_chronic_failure l = record l {
  first_failure_at = none;
  chronic_issues = clear_issues l.first_failure_at l.space_ids l.chronic_issues;
}

-- `setdefault`.
abbrev pub or_now : Option ℕ → ℕ → ℕ
or_now none now = now
or_now (some first) now = first

abbrev pub is_offline : ConnectionStatus → Bool
is_offline offline = true
is_offline _ = false

-- The issue is cleared for a hub that was noted offline.
abbrev pub clear_offline : Option ℕ → Text → List (Text × ℕ) → List (Text × ℕ)
clear_offline none space_id issues = issues
clear_offline (some first) space_id issues = pop space_id issues

unfoldable pub update_hub_offline : ℕ → Text → Space → Link → Link
update_hub_offline now space_id space l =
    let first = or_now (get space_id l.first_offline_at) now in
    if is_offline space.connection_status
    then record l {
      first_offline_at = set space_id first l.first_offline_at;
      offline_issues =
          if leb hub_offline_threshold (now - first)
          then set space_id ((now - first) / (60 * minute)) l.offline_issues
          else l.offline_issues;
    }
    else record l {
      first_offline_at = pop space_id l.first_offline_at;
      offline_issues = clear_offline (get space_id l.first_offline_at) space_id l.offline_issues;
    }

unfoldable pub update_hub_offline_repairs : ℕ → List (Text × Space) → Link → Link
update_hub_offline_repairs now [] l = l
update_hub_offline_repairs now ((space_id, space) ∷ spaces) l =
    update_hub_offline_repairs now spaces (update_hub_offline now space_id space l)

pub data RefreshError : Type 0 where
  hts_unavailable : RefreshError
  rate_limited : ℕ → RefreshError

-- `_last_manual_refresh.get(hub_id, 0.0)`.
abbrev pub or_zero : Option ℕ → ℕ
or_zero none = 0
or_zero (some last) = last

-- The state from which `request_full_status` is called, or the seconds to wait.
unfoldable pub request_manual_refresh : ℕ → Text → Link → Result RefreshError Link
request_manual_refresh now hub_id l =
    let elapsed = now - or_zero (get hub_id l.last_manual_refresh) in
    if not l.is_connected
    then err hts_unavailable
    else if ltb elapsed manual_refresh_interval
    then err (rate_limited (max 1 ((manual_refresh_interval - elapsed) / second)))
    else ok (record l { last_manual_refresh = set hub_id now l.last_manual_refresh })

-- `{s.hub_id for s in spaces.values() if s.hub_id}`.
unfoldable pub live_hubs : List (Text × Space) → List Text
live_hubs [] = []
live_hubs ((space_id, space) ∷ spaces) =
    if is_nonempty space.hub_id then space.hub_id ∷ live_hubs spaces else live_hubs spaces

unfoldable pub keep_hubs : List Text → List (Text × ℕ) → List (Text × ℕ)
keep_hubs hubs [] = []
keep_hubs hubs ((hub_id, last) ∷ rest) =
    if has_text hub_id hubs then (hub_id, last) ∷ keep_hubs hubs rest else keep_hubs hubs rest

unfoldable pub prune_manual_refresh : List (Text × Space) → Link → Link
prune_manual_refresh spaces l = record l {
  last_manual_refresh = keep_hubs (live_hubs spaces) l.last_manual_refresh;
}
