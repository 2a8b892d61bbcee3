-- ===== src/Grpc/RateLimit.antt =====
-- `_check_rate_limit` of api/client.py. Times are milliseconds of `time.monotonic`.
pub mod Spaced
pub mod Positions
pub mod Requests
use aegis_hass.Base.{
  ℕ, zero, suc, ◌+◌, ◌-◌, ltb, leb, if◌then◌else◌, List, [], ◌∷◌, ◌++◌, length, Bool,
}

abbrev pub rate_limit_requests : ℕ
rate_limit_requests = 60

abbrev pub rate_limit_window : ℕ
rate_limit_window = 60000

-- `[t for t in timestamps if now - t < RATE_LIMIT_WINDOW]`.
unfoldable pub recent : ℕ → List ℕ → List ℕ
recent now [] = []
recent now (t ∷ timestamps) =
    if ltb now (t + rate_limit_window) then t ∷ recent now timestamps else recent now timestamps

abbrev pub first_or_zero : List ℕ → ℕ
first_or_zero [] = 0
first_or_zero (t ∷ timestamps) = t

-- How long a caller sleeps that finds the timestamps `kept`.
unfoldable pub wait_for : ℕ → List ℕ → ℕ
wait_for now kept =
    if leb rate_limit_requests (length kept)
    then rate_limit_window - (now - first_or_zero kept)
    else 0

-- The first half of `_check_rate_limit`, up to the sleep: what is kept, and the time to sleep.
unfoldable pub check_rate_limit : ℕ → List ℕ → List ℕ × ℕ
check_rate_limit now timestamps = let kept = recent now timestamps in (kept, wait_for now kept)

-- The second half: the request's own time.
unfoldable pub note_request : ℕ → List ℕ → List ℕ
note_request time timestamps = timestamps ++ (time ∷ [])

-- A request of one caller, no other one running: it wakes `late` after the time it asked for.
-- The timestamps and the time of the request.
unfoldable pub request : ℕ → ℕ → List ℕ → List ℕ × ℕ
request now late timestamps =
    let (kept, wait) = check_rate_limit now timestamps in
    let time = now + wait + late in (note_request time kept, time)
