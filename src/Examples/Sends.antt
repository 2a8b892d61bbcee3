-- ===== src/Examples/Sends.antt =====
-- Examples for sequence numbers and acknowledgements (api/hts/client.py).
use aegis_hass.Base.{[]}
use aegis_hass.Hts.Messages.{MsgType, MsgKind, HtsMessage}
use aegis_hass.Hts.Channel.Send.{Endpoint}

abbrev endpoint : Endpoint
endpoint = record { sender_id = 77; receiver_id = 1; seq_num = 0xFFFFFE }

abbrev original : HtsMessage
original = record {
  sender = 1;
  receiver = 77;
  seq_num = 0x050607;
  link = 2;
  flags = 0;
  msg_type = MsgKind.known MsgType.ping;
  payload = [];
}
