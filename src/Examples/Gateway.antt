-- ===== src/Examples/Gateway.antt =====
-- Tests of the gRPC client (api/client.py) and of the push payloads (notification_event_parser.py).
use aegis_hass.Base.{
  ℕ, zero, suc, ◌≤◌, ◌≡◌, refl, ltb, if◌then◌else◌, none, some, List, [], ◌∷◌, All, length, Bytes,
  arith, ok,
}
use aegis_hass.Base.Text.{codes}
use aegis_hass.Grpc.Session.{AjaxSession, set_session, LoginParams, get_login_params}
use aegis_hass.Grpc.Client.{GrpcClient, LoginResponse, login_success, login}
use aegis_hass.Grpc.Client.Keepalive.{reduce_times, reduce_times-floor}
use aegis_hass.Grpc.RateLimit.Spaced.{IsSpaced, sent}
use aegis_hass.Grpc.RateLimit.Requests.{request-IsSpaced}
use aegis_hass.Grpc.Retry.{Attempt, returned, transient, retry}
use aegis_hass.Grpc.Retry.Settles.{first_settled, EndsWith, retry-EndsWith}
use aegis_hass.Push.Wire.{find_embedded_messages, max_walk_candidates}
use aegis_hass.Push.Wire.Reads.{IsCandidate}
use aegis_hass.Push.Wire.Bounded.{find_embedded_messages-bounded}

-- A message with one field of four bytes.
abbrev nested : Bytes
nested = 10 ∷ 4 ∷ 1 ∷ 2 ∷ 3 ∷ 4 ∷ []

find_embedded_messages-bounded_example :
    All (IsCandidate nested) (find_embedded_messages nested)
    × (length (find_embedded_messages nested) ≤ max_walk_candidates)
find_embedded_messages-bounded_example = find_embedded_messages-bounded nested

-- A request after some idling, and then 70 more at once.
abbrev many : ℕ → List (ℕ × ℕ)
many zero = []
many (suc n) = (0, 0) ∷ many n

abbrev schedule : List (ℕ × ℕ)
schedule = (500, 3) ∷ many 70

request-IsSpaced_example : IsSpaced (sent 1000 [] schedule)
request-IsSpaced_example = request-IsSpaced 1000 schedule

-- The third attempt returns.
abbrev third_time : ℕ → Attempt ℕ ℕ
third_time n = if ltb n 2 then transient n else returned n

abbrev same_random : ℕ → ℕ
same_random n = 500

retry-EndsWith_example :
    EndsWith third_time 3 (first_settled third_time 3 0) (retry third_time same_random 1000 3)
retry-EndsWith_example = retry-EndsWith third_time same_random 1000 3

abbrev session : AjaxSession
session = record {
  session_token = none;
  user_hex_id = none;
  device_id = codes "device";
  app_label = codes "Ajax";
  email = some (codes "a@b");
  password_hash = some (codes "00");
}

abbrev client : GrpcClient
client = record {
  session = session;
  channel = some (record { number = 0; keepalive_time_ms = 240000 });
  keepalive_time_ms = 240000;
  closed = [];
  next_channel = 1;
}

reduce_times-floor_example : (reduce_times 2 client).keepalive_time_ms ≡ 60000
reduce_times-floor_example = reduce_times-floor 2 client (omega arith) (omega arith)

abbrev accepts : LoginParams → LoginResponse
accepts params = login_success (1 ∷ 2 ∷ []) (codes "user")

abbrev logged_in : GrpcClient
logged_in = record client {
  session = record session {
    session_token = some (codes "0102");
    user_hex_id = some (codes "user");
  };
}

login_runs : login accepts client ≡ ok logged_in
unfolding login get_login_params set_session
login_runs = refl
