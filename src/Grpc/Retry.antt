-- ===== src/Grpc/Retry.antt =====
-- `_retry` of api/client.py. Delays are thousandths of a second.
pub mod Settles
use aegis_hass.Base.{
  ℕ, zero, suc, ◌+◌, ◌-◌, ◌*◌, ◌/◌, ◌^◌, ltb, if◌then◌else◌, Bool, Option, none, some, List, [],
  ◌∷◌, ◌++◌, Result, ok, err,
}

-- What an attempt does: return, fail with one of `_TRANSIENT_CODES`, a `ConnectionError` or an
-- `OSError`, or fail with any other error, which is passed on.
pub data Attempt {ℓ κ} (E : Type ℓ) (A : Type κ) : Type (ℓ ⊔ κ) where
  returned : A → Attempt E A
  transient : E → Attempt E A
  fatal : E → Attempt E A

-- What the caller sees, how many attempts were made and the delays slept in between. The error is
-- none where `raise` is given `None`, after no attempt.
pub record Retried {ℓ κ} (E : Type ℓ) (A : Type κ) : Type (ℓ ⊔ κ) where
  pub result : Result (Option E) A
  pub attempts : ℕ
  pub delays : List ℕ

-- `base_delay * (2**attempt) * (0.8 + 0.4 * random.random())`, with `random` in thousandths.
unfoldable pub backoff : ℕ → ℕ → ℕ → ℕ
backoff base_delay attempt random = base_delay * 2 ^ attempt * (8000 + 4 * random) / 10000

-- What follows an attempt; `more` goes on after a transient error.
abbrev pub after_attempt {ℓ κ} :
    {E : Type ℓ} {A : Type κ} → Attempt E A → ℕ → List ℕ → (E → Retried E A) → Retried E A
after_attempt (returned a) attempts delays more = record {
  result = ok a;
  attempts = attempts;
  delays = delays;
}
after_attempt (fatal e) attempts delays more = record {
  result = err (some e);
  attempts = attempts;
  delays = delays;
}
after_attempt (transient e) attempts delays more = more e

module _ {ℓ κ} {E : Type ℓ} {A : Type κ} (call : ℕ → Attempt E A) (random : ℕ → ℕ)
    (base_delay : ℕ) where
  -- The sleep after a failed attempt, but for the last one.
  abbrev pub slept : ℕ → ℕ → List ℕ
  slept zero attempt = []
  slept (suc left) attempt = backoff base_delay attempt (random attempt) ∷ []

  -- The loop, with `left` attempts to come from the attempt with this number.
  unfoldable pub retry_from : ℕ → ℕ → Option E → List ℕ → Retried E A
  retry_from zero attempt last delays = record {
    result = err last;
    attempts = attempt;
    delays = delays;
  }
  retry_from (suc left) attempt last delays =
      after_attempt (call attempt) (suc attempt) delays
        (λ e. retry_from left (suc attempt) (some e) (delays ++ slept left attempt))

  unfoldable pub retry : ℕ → Retried E A
  retry max_retries = retry_from max_retries 0 none []
