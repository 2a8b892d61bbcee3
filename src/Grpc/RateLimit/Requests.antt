-- ===== src/Grpc/RateLimit/Requests.antt =====
-- The spacing of requests that one caller after another sends through `_check_rate_limit` of
-- api/client.py.
use aegis_hass.Base.{
  ℕ, ◌+◌, ◌-◌, ◌≤◌, ◌<◌, ◌≡◌, refl, sym, ap, ◌∙◌, leb, ◌==◌, true, Bool-cases, List, [], ◌∷◌, ◌++◌,
  append_assoc, append-nil, length, length-append, length-drop, drop, All, All-append, inl, inr,
  arith, get_or,
}
use aegis_hass.Grpc.RateLimit.{
  rate_limit_requests, rate_limit_window, recent, first_or_zero, wait_for, check_rate_limit,
  note_request, request,
}
use aegis_hass.Grpc.RateLimit.Spaced.{
  IsSpaced, IsOrdered, sent, Behind-snoc, Behind-longer, recent-split,
}
use aegis_hass.Grpc.RateLimit.Positions.{
  drop-all, drop-append, get_or-drop, get_or-left, get_or-first, Behind-at, IsOrdered-at,
  expired-at, IsOrdered-right, IsOrdered-snoc, expired-later, recent-first,
}

-- The times of all requests, and those that the client still has.
record IsLog (now : ℕ) (log timestamps : List ℕ) : Type 0 where
  pub spaced : IsSpaced log
  pub ordered : IsOrdered now log
  pub gone : List ℕ
  pub split : log ≡ gone ++ timestamps
  pub expired : All (λ t. t + rate_limit_window ≤ now) gone

-- No more than the limit's number of requests is ever recent.
recent-length :
    (now time : ℕ) (log gone kept : List ℕ)
    → IsSpaced log
    → IsOrdered now log
    → now ≤ time
    → log ≡ gone ++ kept
    → (rate_limit_requests < length kept → time < first_or_zero kept + rate_limit_window)
    → length kept ≤ rate_limit_requests
recent-length now time log gone kept spaced ordered later split fresh =
    elim (Bool-cases (leb (length kept) rate_limit_requests)) [
      | inl e ↦ ground (arith, e)
      | inr e ↦
          let many : rate_limit_requests < length kept = ground (arith, e) in
          let size : length log ≡ length gone + length kept =
            ap length split ∙ length-append gone kept in
          let first : get_or log (length gone) 0 ≡ first_or_zero kept =
            ap (λ l. get_or l (length gone) 0) split ∙ get_or-first gone kept in
          let ahead =
            Behind-at log (drop rate_limit_requests log) (length gone) spaced
              (omega (arith, length-drop rate_limit_requests log, size, many))
              (omega (arith, size, many)) in
          let last =
            IsOrdered-at now log (rate_limit_requests + length gone) ordered
              (omega (arith, size, many)) in
          let place = get_or-drop rate_limit_requests (length gone) log in
          absurd (omega (arith, ahead, last, place, first, fresh many, later))
    ]

-- What a caller waits for is a window behind the request that stands sixty before it.
sixty_before :
    (now time : ℕ) (log gone kept : List ℕ)
    → All (λ t. t + rate_limit_window ≤ time) gone
    → log ≡ gone ++ kept
    → length kept ≤ rate_limit_requests
    → rate_limit_requests ≤ length log
    → (length kept ≡ rate_limit_requests → first_or_zero kept + rate_limit_window ≤ time)
    → get_or log (length log - rate_limit_requests) 0 + rate_limit_window ≤ time
sixty_before now time log gone kept expired split short many first =
    let size : length log ≡ length gone + length kept = ap length split ∙ length-append gone kept in
    elim (Bool-cases (length kept == rate_limit_requests)) [
      | inl e ↦
          let full : length kept ≡ rate_limit_requests = ground (arith, e) in
          let place : length log - rate_limit_requests ≡ length gone = omega (arith, size, full) in
          let at_first : get_or log (length log - rate_limit_requests) 0 ≡ first_or_zero kept =
            ap (λ k. get_or log k 0) place
            ∙ ap (λ l. get_or l (length gone) 0) split
            ∙ get_or-first gone kept in
          omega (arith, at_first, first full)
      | inr e ↦
          let fewer : length kept < rate_limit_requests = ground (arith, e, short) in
          let k = length log - rate_limit_requests in
          let inside : k < length gone = omega (arith, size, fewer, many) in
          let at_gone : get_or log k 0 ≡ get_or gone k 0 =
            ap (λ l. get_or l k 0) split ∙ get_or-left gone kept k inside in
          omega (arith, at_gone, expired-at time gone k expired inside)
    ]

IsSpaced-snoc :
    (log : List ℕ) (time : ℕ)
    → IsSpaced log
    → (rate_limit_requests ≤ length log
        → get_or log (length log - rate_limit_requests) 0 + rate_limit_window ≤ time)
    → IsSpaced (log ++ (time ∷ []))
IsSpaced-snoc log time spaced behind = elim (Bool-cases (leb rate_limit_requests (length log))) [
  | inr e ↦
      let short : length (log ++ (time ∷ [])) ≤ rate_limit_requests =
        ground (arith, length-append log (time ∷ []), e) in
      rw (drop-all rate_limit_requests (log ++ (time ∷ [])) short) tt
  | inl e ↦
      let many : rate_limit_requests ≤ length log = ground (arith, e) in
      let rest = drop rate_limit_requests log in
      let size = length-drop rate_limit_requests log in
      let place : get_or (log ++ (time ∷ [])) (length rest) 0
          ≡ get_or log (length log - rate_limit_requests) 0 =
        get_or-left log (time ∷ []) (length rest) (omega (arith, size, many))
        ∙ ap (λ k. get_or log k 0) size in
      rw (drop-append rate_limit_requests log (time ∷ []) many) (
        Behind-snoc (log ++ (time ∷ [])) rest time
          (Behind-longer log rest (time ∷ []) (omega (arith, size)) spaced)
          (omega (arith, place, behind many)))
]

-- The sleep of a full client ends when its oldest request leaves the window.
wait_for-full :
    (now late : ℕ) (kept : List ℕ)
    → first_or_zero kept ≤ now
    → length kept ≡ rate_limit_requests
    → first_or_zero kept + rate_limit_window ≤ now + wait_for now kept + late
unfolding wait_for
wait_for-full now late kept before full =
    let limit : leb rate_limit_requests (length kept) ≡ true = ground (arith, full) in
    rw limit (omega (arith, before))

request-IsLog :
    (now idle late : ℕ) (log timestamps : List ℕ)
    → IsLog now log timestamps
    → let time : ℕ = now + idle + wait_for (now + idle) (recent (now + idle) timestamps) + late in
      IsLog time (log ++ (time ∷ [])) (recent (now + idle) timestamps ++ (time ∷ []))
request-IsLog now idle late log timestamps w =
    let start = now + idle in
    let kept = recent start timestamps in
    let time = start + wait_for start kept + late in
    let ordered : IsOrdered now timestamps =
      IsOrdered-right now w.gone timestamps (rw w.split at w.ordered) in
    let (old, parted, expired) = recent-split start now timestamps ordered in
    let gone = w.gone ++ old in
    let split : log ≡ gone ++ kept =
      w.split ∙ ap (λ l. w.gone ++ l) parted ∙ sym (append_assoc w.gone old kept) in
    let all_gone =
      All-append (λ t. t + rate_limit_window ≤ start) w.gone old
        (expired-later now start w.gone (omega arith) w.expired) expired in
    let late_gone = expired-later start time gone (omega arith) all_gone in
    let short =
      recent-length now start log gone kept w.spaced w.ordered (omega arith) split
        (λ many. recent-first start timestamps (length kept - 1) (omega (arith, many))) in
    let first_before : length kept ≡ rate_limit_requests → first_or_zero kept ≤ start = λ full.
      omega (
        arith,
        get_or-first [] kept,
        IsOrdered-at now kept 0 (IsOrdered-right now old kept (rw parted at ordered))
            (omega (arith, full)),
      ) in
    record {
      spaced = IsSpaced-snoc log time w.spaced (λ many.
          sixty_before now time log gone kept late_gone split short many
            (λ full. wait_for-full start late kept (first_before full) full));
      ordered = IsOrdered-snoc now time log w.ordered (omega arith);
      gone = gone;
      split = ap (λ l. l ++ (time ∷ [])) split ∙ append_assoc gone kept (time ∷ []);
      expired = late_gone;
    }

sent-IsSpaced :
    (now : ℕ) (log timestamps : List ℕ) (schedule : List (ℕ × ℕ))
    → IsLog now log timestamps
    → IsSpaced (log ++ sent now timestamps schedule)
unfolding sent request check_rate_limit note_request
sent-IsSpaced now log timestamps [] w = rw (append-nil log) w.spaced
sent-IsSpaced now log timestamps ((idle, late) ∷ more) w =
    let start = now + idle in
    let time = start + wait_for start (recent start timestamps) + late in
    let later =
      sent-IsSpaced time (log ++ (time ∷ [])) _ more
        (request-IsLog now idle late log timestamps w) in
    rw (append_assoc log (time ∷ []) (sent time (recent start timestamps ++ (time ∷ [])) more)) at
      later

-- Requests that are sent one after another keep the limit: however long the caller idles before
-- each, and however late it wakes from its sleep, there is at least a window of 60 seconds between
-- a request and the sixtieth after it.
pub request-IsSpaced : (start : ℕ) (schedule : List (ℕ × ℕ)) → IsSpaced (sent start [] schedule)
request-IsSpaced start schedule =
    sent-IsSpaced start [] [] schedule
      (record { spaced = tt; ordered = tt; gone = []; split = refl; expired = tt })
