-- ===== src/Grpc/Client/Keepalive.antt =====
-- How the keepalive interval of api/client.py tunes itself.
use aegis_hass.Base.{
  ℕ, zero, suc, ◌*◌, ◌/◌, ◌^◌, max, ◌≤◌, ◌≡◌, refl, not, ◌==◌, Bool-cases, inl, inr, arith,
}
use aegis_hass.Grpc.Client.{keepalive_floor_ms, GrpcClient, reduce_keepalive}

-- Reductions one after another.
abbrev pub reduce_times : ℕ → GrpcClient → GrpcClient
reduce_times zero c = c
reduce_times (suc n) c = reduce_times n (reduce_keepalive c).1

interval-reduce :
    (c : GrpcClient)
    → (reduce_keepalive c).1.keepalive_time_ms ≡ max (c.keepalive_time_ms / 2) keepalive_floor_ms
unfolding reduce_keepalive
interval-reduce c =
    elim (Bool-cases (max (c.keepalive_time_ms / 2) keepalive_floor_ms == c.keepalive_time_ms)) [
      | inl e ↦ rw e (ground (arith, e))
      | inr e ↦ rw e refl
    ]

-- A call of `reduce_keepalive` reports that the interval moved exactly when the interval is another
-- one after it, and an interval that is not below the floor never rises, and stays at or above the
-- floor.
pub reduce_keepalive_lem :
    (c : GrpcClient)
    → keepalive_floor_ms ≤ c.keepalive_time_ms
    → let (moved, d) = reduce_keepalive c in
      (moved ≡ not (d.keepalive_time_ms == c.keepalive_time_ms))
      × (keepalive_floor_ms ≤ d.keepalive_time_ms)
      × (d.keepalive_time_ms ≤ c.keepalive_time_ms)
unfolding reduce_keepalive
reduce_keepalive_lem c floor =
    elim (Bool-cases (max (c.keepalive_time_ms / 2) keepalive_floor_ms == c.keepalive_time_ms)) [
      | inl e ↦ rw e (ground arith, floor, omega arith)
      | inr e ↦ rw e (rw e refl, omega arith, ground (arith, floor))
    ]

doubled : (n t : ℕ) → t ≤ keepalive_floor_ms * 2 ^ suc n → t / 2 ≤ keepalive_floor_ms * 2 ^ n
doubled n t h = grind arith

pow_pos : (n : ℕ) → 1 ≤ 2 ^ n
pow_pos zero = omega arith
pow_pos (suc n) = grind (arith, pow_pos n)

floor_below : (n : ℕ) → keepalive_floor_ms ≤ keepalive_floor_ms * 2 ^ n
floor_below n = omega (arith, pow_pos n)

-- The interval converges: one that is at least the floor, and at most the floor times a power of two,
-- is at the floor after that many reductions, and reductions beyond that leave it there.
pub reduce_times-floor :
    (n : ℕ) (c : GrpcClient)
    → keepalive_floor_ms ≤ c.keepalive_time_ms
    → c.keepalive_time_ms ≤ keepalive_floor_ms * 2 ^ n
    → (reduce_times n c).keepalive_time_ms ≡ keepalive_floor_ms
reduce_times-floor zero c floor h = omega (arith, floor, h)
reduce_times-floor (suc n) c floor h =
    let d = (reduce_keepalive c).1 in
    let at_d = interval-reduce c in
    reduce_times-floor n d (omega (arith, at_d))
      (omega (arith, at_d, doubled n c.keepalive_time_ms h, floor_below n))
