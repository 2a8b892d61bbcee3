-- ===== src/Coordinator/Delays/Longest.antt =====
-- A detector's settings row and the exit delay of its space, in coordinator.py.
use aegis_hass.Base.{
  ℕ, ◌≤◌, ◌≡◌, ap, ◌∙◌, Bool, true, not, ◌||◌, Bool-cases, some, List, [], ◌∷◌, inl, inr, arith,
  ◌=ᵇ◌, =ᵇ→eq, Bytes,
}
use aegis_hass.Base.Text.{Text}
use aegis_hass.Base.TextMap.{get, set}
use aegis_hass.Coordinator.Models.{Space, ArmDelays, Coordinator}
use aegis_hass.Coordinator.Delays.{
  parse_arm_delays, track_arm_delays, is_on_hub, hub_arm_delays, space_arm_delays, is_set,
  longest_exit, space_exit_delay_seconds,
}

-- The delay counts for an arm, in night mode or not.
abbrev pub counts : Bool → ArmDelays → Bool
counts night d = not night || is_set d.in_night_mode

longest_exit-first :
    (night : Bool) (d : ArmDelays) (rest : List ArmDelays)
    → counts night d ≡ true
    → d.arm_delay_seconds ≤ longest_exit night (d ∷ rest)
unfolding longest_exit
longest_exit-first night d rest h = rw h (omega arith)

longest_exit-later :
    (night : Bool) (d : ArmDelays) (rest : List ArmDelays)
    → longest_exit night rest ≤ longest_exit night (d ∷ rest)
unfolding longest_exit
longest_exit-later night d rest = elim (Bool-cases (counts night d)) [
  | inl e ↦ rw e (omega arith)
  | inr e ↦ rw e (omega arith)
]

hub_arm_delays-set :
    (night : Bool) (hub device : Text) (d : ArmDelays) (devices : List (Text × Text))
    (m : List (Text × ArmDelays))
    → is_on_hub hub (get device devices) ≡ true
    → counts night d ≡ true
    → d.arm_delay_seconds ≤ longest_exit night (hub_arm_delays hub devices (set device d m))
unfolding hub_arm_delays set
hub_arm_delays-set night hub device d devices [] on h = rw on (longest_exit-first night d [] h)
hub_arm_delays-set night hub device d devices ((t, old) ∷ m) on h =
    elim (Bool-cases (t =ᵇ device)) [
      | inl e ↦
          let same : is_on_hub hub (get t devices) ≡ true =
            ap (λ r. is_on_hub hub (get r devices)) (=ᵇ→eq t device e) ∙ on in
          rw (e, same) (longest_exit-first night d _ h)
      | inr e ↦
          let later = hub_arm_delays-set night hub device d devices m on h in
          elim (Bool-cases (is_on_hub hub (get t devices))) [
            | inl f ↦
                rw (e, f)
                  (omega (
                    arith,
                    later,
                    longest_exit-later night old (hub_arm_delays hub devices (set device d m)),
                  ))
            | inr f ↦ rw (e, f) later
          ]
    ]

-- A settings row that carries delays counts at once: when the device is on the hub of a tracked
-- space, and the delay applies to the kind of arm, the exit delay of the space is from then on at
-- least the one in the row.
pub space_exit_delay_seconds-track_arm_delays :
    (night : Bool) (s device : Text) (space : Space) (kv : List (ℕ × Bytes)) (d : ArmDelays)
    (c : Coordinator)
    → get s c.spaces ≡ some space
    → is_on_hub space.hub_id (get device c.device_hubs) ≡ true
    → parse_arm_delays kv ≡ some d
    → counts night d ≡ true
    → d.arm_delay_seconds ≤ space_exit_delay_seconds s night (track_arm_delays device kv c)
unfolding space_exit_delay_seconds space_arm_delays track_arm_delays
space_exit_delay_seconds-track_arm_delays night s device space kv d c found on row h =
    rw (row, found)
      (hub_arm_delays-set night space.hub_id device d c.device_hubs c.device_arm_delays on h)
