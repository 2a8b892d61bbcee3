-- ===== src/Hts/Client/Listen.antt =====
-- The receive loop `listen` of api/hts/client.py, over the results of its reads.
pub mod Survives
use aegis_hass.Base.{
  ℕ, suc, Bool, true, false, not, ◌&&◌, ◌==◌, leb, if◌then◌else◌, List, [], ◌∷◌, is_nonempty,
}
use aegis_hass.Hts.Messages.{MsgType, MsgKind, HtsMessage, is_no_ack, kind_value, msg_type_value}

-- What the call of a message's handler comes to: it returns, or an exception leaves it. For
-- `_handle_update` that is the exception of `on_state_update`, or of `bytes.fromhex`.
pub data HandlerOutcome : Type 0 where
  handler_returned : HandlerOutcome
  handler_raised : HandlerOutcome

-- What one `_receive_message` comes to: a message, `TimeoutError`, `ConnectionError`, or the
-- `ValueError` of an undecodable frame. A message stands with what its handler comes to.
pub data Inbound : Type 0 where
  received : HtsMessage → HandlerOutcome → Inbound
  read_timeout : Inbound
  connection_error : Inbound
  undecodable : Inbound

-- What the loop does: it sends an ACK, or calls one of the handlers.
pub data Action : Type 0 where
  send_ack : HtsMessage → Action
  call_update : HtsMessage → Action
  call_registration : HtsMessage → Action
  call_answer : HtsMessage → Action
  call_event : HtsMessage → Action

-- How the loop ends: by a `break`, or by the exception of a handler, of which the loop catches none.
-- In each case `finally` closes the connection. `listening` is no end: the results that are listed are used up.
pub data Ending : Type 0 where
  too_many_timeouts : Ending
  connection_lost : Ending
  handler_error : Ending
  listening : Ending

abbrev pub max_consecutive_read_timeouts : ℕ
max_consecutive_read_timeouts = 3

abbrev pub msg_type_event : ℕ
msg_type_event = 0x08

abbrev pub is_type : MsgType → HtsMessage → Bool
is_type t msg = kind_value msg.msg_type == msg_type_value t

-- `not msg.is_no_ack and msg.msg_type != MsgType.ACK`.
unfoldable pub needs_ack : HtsMessage → Bool
needs_ack msg = not (is_no_ack msg) && not (is_type MsgType.ack msg)

unfoldable pub dispatch : HtsMessage → List Action
dispatch msg =
    if is_type MsgType.updates msg
    then call_update msg ∷ []
    else if is_type MsgType.user_registration msg
    then call_registration msg ∷ []
    else if is_type MsgType.ack msg
    then call_answer msg ∷ []
    else if kind_value msg.msg_type == msg_type_event
    then call_event msg ∷ []
    else []

-- Whether an exception leaves the round; a message of another type has no handler.
unfoldable pub is_raised : HtsMessage → HandlerOutcome → Bool
unfolding dispatch
is_raised msg handler_returned = false
is_raised msg handler_raised = is_nonempty (dispatch msg)

unfoldable pub on_message : HtsMessage → List Action
unfolding needs_ack dispatch
on_message msg = if needs_ack msg then send_ack msg ∷ dispatch msg else dispatch msg

abbrev pub Listened : Type 0
Listened = List (List Action) × Ending

abbrev pub then_listen : List Action → Listened → Listened
then_listen actions (rounds, ending) = (actions ∷ rounds, ending)

-- From `_consecutive_read_timeouts` on: the actions of each round that received a message, in order,
-- and the end.
unfoldable pub listen : ℕ → List Inbound → Listened
listen timeouts [] = ([], listening)
listen timeouts (received msg outcome ∷ rest) =
    let next = listen 0 rest in
    then_listen (on_message msg) (if is_raised msg outcome then ([], handler_error) else next)
listen timeouts (undecodable ∷ rest) = listen 0 rest
listen timeouts (connection_error ∷ rest) = ([], connection_lost)
listen timeouts (read_timeout ∷ rest) =
    let next = listen (suc timeouts) rest in
    if leb max_consecutive_read_timeouts (suc timeouts) then ([], too_many_timeouts) else next
