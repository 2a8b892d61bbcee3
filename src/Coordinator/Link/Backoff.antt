-- ===== src/Coordinator/Link/Backoff.antt =====
-- The delays between reconnects in coordinator.py.
use aegis_hass.Base.{
  ℕ, zero, suc, ◌+◌, ◌*◌, ◌^◌, min, ◌≤◌, ◌≡◌, refl, sym, ap, ◌∙◌, true, false, none, List, [], ◌∷◌,
  length, arith, leb, Bool-cases, inl, inr,
}
use aegis_hass.Coordinator.Link.{Link, schedule_reconnect, handle_hts_disconnect, hts_reconnect_due}

-- Drops at these times, each followed by its reconnect's timer before the next drop, where no attempt
-- is made but by that timer and none connects.
abbrev pub fail_all : List ℕ → Link → Link
fail_all [] l = l
fail_all (now ∷ times) l = fail_all times (hts_reconnect_due (handle_hts_disconnect now true l))

fail_once :
    (now : ℕ) (l : Link)
    → l.connected_at ≡ none
    → l.reconnect_pending ≡ false
    → let d : Link = hts_reconnect_due (handle_hts_disconnect now true l) in
      (d.reconnect_delay ≡ min (l.reconnect_delay * 2) l.poll_interval)
      × (d.scheduled ≡ l.reconnect_delay ∷ l.scheduled)
      × (d.poll_interval ≡ l.poll_interval)
      × (d.connected_at ≡ none)
      × (d.reconnect_pending ≡ false)
unfolding handle_hts_disconnect schedule_reconnect hts_reconnect_due
fail_once now l alone free = rw (alone, free) (refl, refl, refl, refl, refl)

pow_suc : (n : ℕ) → 2 ^ suc n ≡ 2 * 2 ^ n
pow_suc n = grind arith

pow_double : (n : ℕ) → (2 ^ suc n ≡ 2 * 2 ^ n) × (1 ≤ 2 ^ n)
pow_double zero = (omega arith, omega arith)
pow_double (suc n) = let (e, l) = pow_double n in (pow_suc (suc n), omega (arith, e, l))

mul_mono : (p a m : ℕ) → p ≤ a → p * m ≤ a * m
mul_mono p a zero h = omega arith
mul_mono p a (suc m) h =
    let later = mul_mono p a m h in
    let left : p * suc m ≡ p * m + p = grind arith in
    let right : a * suc m ≡ a * m + a = grind arith in omega (arith, later, left, right, h)

capped : (d p m : ℕ) → 1 ≤ m → min (min (d * 2) p * m) p ≡ min (d * (2 * m)) p
capped d p m l = elim (Bool-cases (leb (d * 2) p)) [
  | inl e ↦
      let low : min (d * 2) p ≡ d * 2 = ground (arith, e) in
      let same : d * 2 * m ≡ d * (2 * m) = grind arith in rw low (ap (λ k. min k p) same)
  | inr e ↦
      let high : min (d * 2) p ≡ p = ground (arith, e) in
      let above : p ≤ d * 2 = ground (arith, e) in
      let one : p ≤ p * m = grind (arith, l) in
      let same : d * 2 * m ≡ d * (2 * m) = grind arith in
      let more : p * m ≤ d * (2 * m) = omega (arith, same, mul_mono p (d * 2) m above) in
      rw high (omega (arith, one, more))
]

-- Reconnects back off. Start with no reconnect pending, no connection that came up, and a delay of at
-- most the poll interval, and let any number of attempts drop before they connect, each with its
-- reconnect's timer run before the next drop. Then the delay of the next reconnect is the first one
-- times two to the number of drops, or the poll interval if that is less, and each drop has scheduled
-- exactly one reconnect. A drop while a reconnect is pending is left out.
pub fail_all-reconnect_delay :
    (times : List ℕ) (l : Link)
    → l.connected_at ≡ none
    → l.reconnect_pending ≡ false
    → l.reconnect_delay ≤ l.poll_interval
    → ((fail_all times l).reconnect_delay
        ≡ min (l.reconnect_delay * 2 ^ length times) l.poll_interval)
      × (length (fail_all times l).scheduled ≡ length times + length l.scheduled)
fail_all-reconnect_delay [] l alone free below = (omega (arith, below), omega arith)
fail_all-reconnect_delay (now ∷ times) l alone free below =
    let d = hts_reconnect_due (handle_hts_disconnect now true l) in
    let (delay, scheduled, poll, alone', free') = fail_once now l alone free in
    let below' : d.reconnect_delay ≤ d.poll_interval = omega (arith, delay, poll) in
    let (later, count) = fail_all-reconnect_delay times d alone' free' below' in
    let (e, one) = pow_double (length times) in
    (
      later
          ∙ (λ i. min (delay i * 2 ^ length times) (poll i))
          ∙ capped l.reconnect_delay l.poll_interval (2 ^ length times) one
          ∙ ap (λ k. min (l.reconnect_delay * k) l.poll_interval) (sym e),
      omega (arith, count, ap length scheduled),
    )
