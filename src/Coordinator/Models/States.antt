-- ===== src/Coordinator/Models/States.antt =====
-- The states of api/models.py are told apart by their values.
use aegis_hass.Base.{ℕ, ◌≡◌, refl, sym, ap, ◌∙◌, true, ◌==◌, ==_iff, if◌then◌else◌}
use aegis_hass.Coordinator.Models.{
  SecurityState, state_none, armed, disarmed, night_mode, partially_armed, awaiting_exit_timer,
  awaiting_second_stage, two_stage_incomplete, awaiting_vds, value, same_state,
}

from_value : ℕ → SecurityState
from_value n =
    if n == 1
    then armed
    else if n == 2
    then disarmed
    else if n == 3
    then night_mode
    else if n == 4
    then partially_armed
    else if n == 5
    then awaiting_exit_timer
    else if n == 6
    then awaiting_second_stage
    else if n == 7
    then two_stage_incomplete
    else if n == 8
    then awaiting_vds
    else state_none

from_value_lem : (state : SecurityState) → from_value (value state) ≡ state
unfolding from_value
from_value_lem state_none = refl
from_value_lem armed = refl
from_value_lem disarmed = refl
from_value_lem night_mode = refl
from_value_lem partially_armed = refl
from_value_lem awaiting_exit_timer = refl
from_value_lem awaiting_second_stage = refl
from_value_lem two_stage_incomplete = refl
from_value_lem awaiting_vds = refl

pub same_state_eq : (a b : SecurityState) → same_state a b ≡ true → a ≡ b
unfolding same_state
same_state_eq a b e =
    sym (from_value_lem a) ∙ ap from_value ((==_iff (value a) (value b)).0 e) ∙ from_value_lem b
