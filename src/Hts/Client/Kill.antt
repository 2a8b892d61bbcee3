-- ===== src/Hts/Client/Kill.antt =====
-- `kill_client_sessions` of api/hts/client.py, over what its requests come to.
pub mod Exact
use aegis_hass.Base.{
  ℕ, Bool, if◌then◌else◌, List, [], ◌∷◌, ◌++◌, length, is_nonempty, Result, ok, err,
}
use aegis_hass.Base.Int.{ℤ}

-- A request is answered, or raises `HtsTerminationOutcomeUnknownError` or another exception.
pub data Reply : Type 0 where
  answered : Reply
  outcome_unknown : Reply
  request_failed : Reply

-- What the call raises: the unknown outcome with the session and those terminated before it, the
-- error that counts them (how many, of how many, at which session), or the request's own exception.
pub data KillError : Type 0 where
  termination_outcome_unknown : ℤ → List ℤ → KillError
  stopped_after : ℕ → ℕ → ℤ → KillError
  reraised : KillError

abbrev pub failure : ℕ → ℤ → List ℤ → KillError
failure total session_id succeeded =
    if is_nonempty succeeded then stopped_after (length succeeded) total session_id else reraised

-- The loop, each session with the reply to its request.
unfoldable pub kill_from : ℕ → List ℤ → List (ℤ × Reply) → Result KillError (List ℤ)
kill_from total succeeded [] = ok succeeded
kill_from total succeeded ((session_id, answered) ∷ rest) =
    kill_from total (succeeded ++ (session_id ∷ [])) rest
kill_from total succeeded ((session_id, outcome_unknown) ∷ rest) =
    err (termination_outcome_unknown session_id succeeded)
kill_from total succeeded ((session_id, request_failed) ∷ rest) =
    err (failure total session_id succeeded)

unfoldable pub kill_client_sessions : List (ℤ × Reply) → Result KillError (List ℤ)
kill_client_sessions requests = kill_from (length requests) [] requests
