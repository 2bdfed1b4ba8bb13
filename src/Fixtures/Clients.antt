-- ===== src/Fixtures/Clients.antt =====
-- A client with a connection, a network on which every write goes through, and signatures of the
-- signed numbers.
use nkn_sdk_go.Base.{ℕ, suc, refl, false, [], ◌∷◌, some}
use nkn_sdk_go.Base.Int.{pos}
use nkn_sdk_go.Base.Bytes.{text}
use nkn_sdk_go.Errors.{ok}
use nkn_sdk_go.Channel.{Emitter}
use nkn_sdk_go.Client.State.{Client, Node, Net, connected, waiting}
use nkn_sdk_go.Client.State.Invariant.{IsValid, IsCalm}
use nkn_sdk_go.Client.Outbound.{Signing}

abbrev pub emitter : {A : Type 0} → ℕ → Emitter A
emitter size = record {
  buffer = [];
  size = size;
  closed = false;
  has_callback = false;
  called = [];
}

abbrev pub toy_node : Node
toy_node = record {
  addr = text "10.0.0.1";
  rpc_addr = [];
  pub_key = text "key";
  id = text "id";
  sdp = [];
}

abbrev pub toy_client : Client ℕ
toy_client = record {
  keys = record { world = 0; shared_keys = [] };
  is_closed = false;
  state = connected;
  node = some toy_node;
  conn = some 1;
  stats = some (record {
    connect_time = pos 500;
    reconnect_count = 2;
    last_reconnect = pos 900;
    send_failure_count = 1;
  });
  sig_chain_block_hash = [];
  on_connect = emitter 1;
  on_message = emitter 10;
  on_message_event = emitter 100;
  reconnect_closed = false;
  handler = waiting;
  challenge_signature = emitter 1;
  rpc_server = [];
}

pub toy_client-IsValid : IsValid toy_client
toy_client-IsValid = record {
  connect_closed = refl;
  message_closed = refl;
  event_closed = refl;
  reconnect_closed_eq = refl;
  challenge_closed = refl;
  has_conn = λ e. cc;
}

abbrev pub toy_net : Net ℕ
toy_net = record { write = λ n b w. (ok tt, suc w); close_conn = λ n w. (ok tt, w) }

pub toy_net-IsCalm : IsCalm toy_net
toy_net-IsCalm = record { calm_write = λ n b w e. cc; calm_close = λ n w e. cc }

abbrev pub toy_signing : Signing ℕ
toy_signing = record {
  decode_hex = λ b. ok b;
  rand_uint32 = λ w. (w, suc w);
  sign = λ pk hash nonce id key size. ok (size ∷ key);
  marshal_outbound = λ m. ok m.block_hash;
  compress = λ b. ok b;
  marshal_client_message = λ z b. ok b;
}
