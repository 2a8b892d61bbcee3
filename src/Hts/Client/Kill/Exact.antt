-- ===== src/Hts/Client/Kill/Exact.antt =====
-- The reports of `kill_client_sessions` of api/hts/client.py.
use aegis_hass.Base.{
  ℕ, suc, ◌≡◌, refl, sym, ap, ◌∙◌, ◌⊎◌, inl, inr, List, [], ◌∷◌, ◌++◌, append_assoc, append-nil,
  length, Result, ok, err,
}
use aegis_hass.Base.Int.{ℤ}
use aegis_hass.Hts.Client.Kill.{
  Reply, answered, outcome_unknown, request_failed, KillError, termination_outcome_unknown,
  stopped_after, reraised, failure, kill_from, kill_client_sessions,
}

abbrev pub all_answered : List ℤ → List (ℤ × Reply)
all_answered [] = []
all_answered (id ∷ ids) = (id, answered) ∷ all_answered ids

-- The error of a request that failed, by the sessions before it: the request's own where there is
-- none, else one that counts them, names the session and has the number of all requests.
abbrev pub IsFailure : ℕ → ℤ → List ℤ → KillError → Type 0
IsFailure total id [] error = error ≡ reraised
IsFailure total id (first ∷ more) error = error ≡ stopped_after (suc (length more)) total id

failure-IsFailure :
    (total : ℕ) (id : ℤ) (killed : List ℤ) → IsFailure total id killed (failure total id killed)
failure-IsFailure total id [] = refl
failure-IsFailure total id (first ∷ more) = refl

-- All requests were answered, or the first that was not ended the loop.
abbrev pub IsExact : ℕ → List ℤ → List (ℤ × Reply) → Result KillError (List ℤ) → Type 0
IsExact total before requests result =
    (killed : List ℤ) × (((requests ≡ all_answered killed) × (result ≡ ok (before ++ killed)))
      ⊎ ((id : ℤ) × (rest : List (ℤ × Reply)) × (((requests
                ≡ all_answered killed ++ ((id, outcome_unknown) ∷ rest))
              × (result ≡ err (termination_outcome_unknown id (before ++ killed))))
            ⊎ ((requests ≡ all_answered killed ++ ((id, request_failed) ∷ rest))
                × (error : KillError) × (result ≡ err error)
                × IsFailure total id (before ++ killed) error))))

one_more :
    (total : ℕ) (before : List ℤ) (id : ℤ) (requests : List (ℤ × Reply))
    (result : Result KillError (List ℤ))
    → IsExact total (before ++ (id ∷ [])) requests result
    → IsExact total before ((id, answered) ∷ requests) result
one_more total before id requests result (killed, inl (e, r)) = (
  id ∷ killed,
  inl (ap (λ t. (id, answered) ∷ t) e, r ∙ ap ok (append_assoc before (id ∷ []) killed)),
)
one_more total before id requests result (killed, inr (last, rest, inl (e, r))) = (
  id ∷ killed,
  inr (
    last,
    rest,
    inl (
      ap (λ t. (id, answered) ∷ t) e,
      r ∙ ap (λ t. err (termination_outcome_unknown last t)) (append_assoc before (id ∷ []) killed),
    ),
  ),
)
one_more total before id requests result (killed, inr (last, rest, inr (e, error, r, f))) = (
  id ∷ killed,
  inr (
    last,
    rest,
    inr (
      ap (λ t. (id, answered) ∷ t) e,
      error,
      r,
      rw (sym (append_assoc before (id ∷ []) killed)) f,
    ),
  ),
)

kill_from-IsExact :
    (total : ℕ) (before : List ℤ) (requests : List (ℤ × Reply))
    → IsExact total before requests (kill_from total before requests)
unfolding kill_from
kill_from-IsExact total before [] = ([], inl (refl, ap ok (sym (append-nil before))))
kill_from-IsExact total before ((id, answered) ∷ requests) =
    one_more total before id requests _ (kill_from-IsExact total (before ++ (id ∷ [])) requests)
kill_from-IsExact total before ((id, outcome_unknown) ∷ requests) = (
  [],
  inr (
    id,
    requests,
    inl (refl, ap (λ t. err (termination_outcome_unknown id t)) (sym (append-nil before))),
  ),
)
kill_from-IsExact total before ((id, request_failed) ∷ requests) = (
  [],
  inr (
    id,
    requests,
    inr (
      refl,
      failure total id before,
      refl,
      rw (append-nil before) (failure-IsFailure total id before),
    ),
  ),
)

-- The call returns all sessions, in order, where every request was answered; otherwise it raises at
-- the first that was not. Where that one's outcome is unknown, the error names it and the sessions
-- before it; where it failed, the error is the request's own if it was the first, else it says how
-- many sessions stand before it, out of how many, and names it. All before it were answered.
pub kill_client_sessions-IsExact :
    (requests : List (ℤ × Reply))
    → IsExact (length requests) [] requests (kill_client_sessions requests)
unfolding kill_client_sessions
kill_client_sessions-IsExact requests = kill_from-IsExact (length requests) [] requests
