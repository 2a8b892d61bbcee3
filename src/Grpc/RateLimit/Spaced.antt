-- ===== src/Grpc/RateLimit/Spaced.antt =====
-- Requests one after another through `_check_rate_limit` of api/client.py.
use aegis_hass.Base.{
  ℕ, ◌+◌, ◌≤◌, ◌<◌, ◌≡◌, refl, sym, ap, ltb, true, Bool-cases, List, [], ◌∷◌, ◌++◌, length, drop,
  All, inl, inr, arith, get_or,
}
use aegis_hass.Grpc.RateLimit.{rate_limit_requests, rate_limit_window, recent, request}

-- Each of the second list is at least a window behind the one at its place in the first.
abbrev pub Behind : List ℕ → List ℕ → Type 0
Behind xs [] = Unit
Behind [] (y ∷ ys) = Unit
Behind (x ∷ xs) (y ∷ ys) = (x + rate_limit_window ≤ y) × Behind xs ys

-- Between a request and the sixtieth after it lies a window at least.
abbrev pub IsSpaced : List ℕ → Type 0
IsSpaced log = Behind log (drop rate_limit_requests log)

-- Times that do not fall, up to `now`.
abbrev pub IsOrdered : ℕ → List ℕ → Type 0
IsOrdered now [] = Unit
IsOrdered now (t ∷ rest) = (t ≤ now) × All (λ u. t ≤ u) rest × IsOrdered now rest

-- Requests that start `idle` after the last one was sent, and wake `late`: every time, in order.
unfoldable pub sent : ℕ → List ℕ → List (ℕ × ℕ) → List ℕ
sent now timestamps [] = []
sent now timestamps ((idle, late) ∷ more) =
    let (kept, time) = request (now + idle) late timestamps in time ∷ sent time kept more

pub Behind-snoc :
    (xs ys : List ℕ) (t : ℕ)
    → Behind xs ys
    → get_or xs (length ys) 0 + rate_limit_window ≤ t
    → Behind xs (ys ++ (t ∷ []))
Behind-snoc [] [] t h l = tt
Behind-snoc (x ∷ xs) [] t h l = (l, tt)
Behind-snoc [] (y ∷ ys) t h l = tt
Behind-snoc (x ∷ xs) (y ∷ ys) t (first, h) l = (first, Behind-snoc xs ys t h l)

pub Behind-longer :
    (xs ys more : List ℕ) → length ys ≤ length xs → Behind xs ys → Behind (xs ++ more) ys
Behind-longer xs [] more l h = tt
Behind-longer [] (y ∷ ys) more l h = absurd (omega (arith, l))
Behind-longer (x ∷ xs) (y ∷ ys) more l (first, h) =
    (first, Behind-longer xs ys more (omega (arith, l)) h)

-- All that is recent in an ordered list stands at its end.
all_recent :
    (now t : ℕ) (rest : List ℕ)
    → now < t + rate_limit_window
    → All (λ u. t ≤ u) rest
    → recent now rest ≡ rest
unfolding recent
all_recent now t [] l h = refl
all_recent now t (u ∷ rest) l (first, h) =
    let here : ltb now (u + rate_limit_window) ≡ true = ground (arith, l, first) in
    rw here (ap (λ r. u ∷ r) (all_recent now t rest l h))

pub recent-split :
    (now bound : ℕ) (log : List ℕ)
    → IsOrdered bound log
    → (old : List ℕ) × (log ≡ old ++ recent now log) × All (λ t. t + rate_limit_window ≤ now) old
unfolding recent
recent-split now bound [] h = ([], refl, tt)
recent-split now bound (t ∷ rest) (below, above, h) =
    elim (Bool-cases (ltb now (t + rate_limit_window))) [
      | inl e ↦ ([], rw e (ap (λ r. t ∷ r) (sym (all_recent now t rest (ground arith) above))), tt)
      | inr e ↦
          let (old, split, expired) = recent-split now bound rest h in
          (t ∷ old, rw e (ap (λ r. t ∷ r) split), (ground arith, expired))
    ]
