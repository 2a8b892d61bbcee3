-- ===== src/Grpc/Retry/Settles.antt =====
-- How `_retry` of api/client.py ends, and how long it can sleep.
use aegis_hass.Base.{
  ℕ, zero, suc, ◌+◌, ◌≡◌, refl, ap, Option, none, some, List, [], ◌++◌, arith, Result, ok, err,
}
use aegis_hass.Grpc.Retry.{
  Attempt, returned, transient, fatal, Retried, after_attempt, slept, retry_from, retry,
}

module _ {ℓ κ} {E : Type ℓ} {A : Type κ} where
  -- How an attempt that settles the call ends it.
  abbrev pub settled : Attempt E A → Option (Result (Option E) A)
  settled (returned a) = some (ok a)
  settled (fatal e) = some (err (some e))
  settled (transient e) = none

  abbrev pub error_of : Attempt E A → Option E
  error_of (returned a) = none
  error_of (transient e) = some e
  error_of (fatal e) = some e

  abbrev pub settled_or :
      Option (Result (Option E) A)
      → ℕ
      → Option (Result (Option E) A × ℕ)
      → Option (Result (Option E) A × ℕ)
  settled_or (some r) attempt later = some (r, attempt)
  settled_or none attempt later = later

  -- The first of the attempts from a number on that settles the call, and its number.
  abbrev pub first_settled : (ℕ → Attempt E A) → ℕ → ℕ → Option (Result (Option E) A × ℕ)
  first_settled call zero attempt = none
  first_settled call (suc left) attempt =
      settled_or (settled (call attempt)) attempt (first_settled call left (suc attempt))

  abbrev pub last_error : (ℕ → Attempt E A) → ℕ → Option E
  last_error call zero = none
  last_error call (suc last) = error_of (call last)

  -- The end of the call, after at most `max_retries` attempts.
  abbrev pub EndsWith :
      (ℕ → Attempt E A) → ℕ → Option (Result (Option E) A × ℕ) → Retried E A → Type (ℓ ⊔ κ)
  EndsWith call max_retries (some (r, attempt)) done =
      (done.result ≡ r) × (done.attempts ≡ suc attempt)
  EndsWith call max_retries none done =
      (done.result ≡ err (last_error call max_retries)) × (done.attempts ≡ max_retries)

  after_attempt-EndsWith :
      (call : ℕ → Attempt E A) (total attempt : ℕ) (delays : List ℕ) (o : Attempt E A)
      (later : Option (Result (Option E) A × ℕ)) (more : E → Retried E A)
      → ((e : E) → o ≡ transient e → EndsWith call total later (more e))
      → EndsWith call total
          (settled_or (settled o) attempt later)
          (after_attempt o (suc attempt) delays more)
  after_attempt-EndsWith call total attempt delays (returned a) later more h = (refl, refl)
  after_attempt-EndsWith call total attempt delays (fatal e) later more h = (refl, refl)
  after_attempt-EndsWith call total attempt delays (transient e) later more h = h e refl

  retry_from-EndsWith :
      (call : ℕ → Attempt E A) (random : ℕ → ℕ) (base_delay left attempt total : ℕ)
      (delays : List ℕ)
      → attempt + left ≡ total
      → EndsWith call total
          (first_settled call left attempt)
          (retry_from call random base_delay left attempt (last_error call attempt) delays)
  unfolding retry_from
  retry_from-EndsWith call random base_delay zero attempt total delays h =
      let e : attempt ≡ total = omega (arith, h) in (ap (λ k. err (last_error call k)) e, e)
  retry_from-EndsWith call random base_delay (suc left) attempt total delays h =
      after_attempt-EndsWith call total attempt delays (call attempt) _ _ (λ e f.
        let later =
          retry_from-EndsWith call random base_delay left (suc attempt) total
            (delays ++ slept call random base_delay left attempt) (omega (arith, h)) in
        let failed : error_of (call attempt) ≡ some e = ap error_of f in rw failed at later)

  -- `_retry` ends with the first of its attempts that returns or fails with an error that is not
  -- transient, and makes no other after it; if all attempts fail transiently, it makes as many as it
  -- was allowed and raises the error of the last, which is `None` if it was allowed none.
  pub retry-EndsWith :
      (call : ℕ → Attempt E A) (random : ℕ → ℕ) (base_delay max_retries : ℕ)
      → EndsWith call max_retries
          (first_settled call max_retries 0)
          (retry call random base_delay max_retries)
  unfolding retry
  retry-EndsWith call random base_delay max_retries =
      retry_from-EndsWith call random base_delay max_retries 0 max_retries [] (omega arith)
