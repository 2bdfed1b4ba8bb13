-- ===== src/MultiClient/Hub/Tests.antt =====
-- multiclient.go: the theorems about the channels of a multiclient at concrete messages.
use nkn_sdk_go.Base.{refl, true, false, List, [], ◌∷◌}
use nkn_sdk_go.Base.Int.{ℤ, pos}
use nkn_sdk_go.Base.Bytes.{Bytes, text}
use nkn_sdk_go.Message.{binary}
use nkn_sdk_go.Client.State.{Message}
use nkn_sdk_go.Fixtures.Clients.{emitter}
use nkn_sdk_go.MultiClient.Hub.{Hub}
use nkn_sdk_go.MultiClient.Hub.Closed.{IsValid}

abbrev hub : Hub
hub = record {
  on_connect = emitter 1;
  on_message = emitter 3;
  on_message_event = emitter 100;
  msg_cache = [];
  is_closed = false;
  on_close = false;
}

hub-IsValid : IsValid hub
hub-IsValid = record {
  connect_closed = refl;
  message_closed = refl;
  event_closed = refl;
  signal_closed = refl;
}

abbrev message : Bytes → Message
message src = record {
  src = src;
  content = text "hi";
  type = binary;
  encrypted = true;
  message_id = text "id";
  no_reply = false;
}

abbrev copies : List (ℤ × Message)
copies = (pos 0, message (text "__0__.bob")) ∷ (pos 1, message (text "__1__.bob")) ∷ []

abbrev bob : Message
bob = message (text "bob")

abbrev closed_hub : Hub
closed_hub = record {
  on_connect = record (emitter 1) { closed = true };
  on_message = record (emitter 3) { closed = true };
  on_message_event = record (emitter 100) { closed = true };
  msg_cache = [];
  is_closed = true;
  on_close = true;
}

closed_hub-IsValid : IsValid closed_hub
closed_hub-IsValid = record {
  connect_closed = refl;
  message_closed = refl;
  event_closed = refl;
  signal_closed = refl;
}
