-- ===== src/Relay.antt =====
-- The connection to the relay server: websocketconnection.cpp (class `WsAppConnection`, a socket) and
-- wsservicecloudgamethread.cpp (class `WsServiceCloudGameThread`, which owns it and connects again
-- after an accident). websocketpp and the queue of Qt's signals are outside: their calls into the
-- program are events. `run` of the thread is one step here, up to its event loop.
pub mod Laws
pub mod Goes
mod Tests
use push_streamer_client.Prelude.{
  ℕ, zero, suc, ◌≡◌, Bool, true, false, not, ◌&&◌, ◌||◌, Option, none, some, List, [], ◌∷◌, ◌++◌,
  String, if◌then◌else◌,
}
use push_streamer_client.Prelude.Int.{ℤ, pos, negsuc}
use push_streamer_client.Qt.{is_empty}

-- `WsAppConnection`: `m_uri` and `m_isConnected`. `m_outter` is always the thread.
pub record Socket : Type 0 where
  pub uri : String
  pub is_connected : Bool

-- `websocketpp::frame::opcode`, as far as it is used.
pub data Opcode : Type 0 where
  text ping pong : Opcode

-- The calls of websocketpp, and the texts that are passed on to be parsed.
pub data Output : Type 0 where
  connect_to : String → Output
  send_frame : Opcode → String → Output
  close_socket : Output
  parse : String → Output

-- `WsServiceCloudGameThread`; `running` is `isRunning()`, and `pending` counts the emitted
-- `AccidentalSignal`s that the slot has not received.
pub record Relay : Type 0 where
  pub ws_url : String
  pub login_command : String
  pub active_disconnect : Bool
  pub running : Bool
  pub socket : Option Socket
  pub pending : ℕ
  pub outputs : List Output

unfoldable pub new_relay : Relay
new_relay = record {
  ws_url = "";
  login_command = "";
  active_disconnect = false;
  running = false;
  socket = none;
  pending = 0;
  outputs = [];
}

abbrev pub output : Relay → Output → Relay
output r o = record r { outputs = r.outputs ++ o ∷ [] }

-- `WsAppConnection::init`: an empty url is refused.
unfoldable pub init : Socket → String → Socket × ℤ
init s url = if is_empty url then (s, negsuc 0) else (record s { uri = url }, pos 0)

-- The thread's `run`. `valid` says which uris `get_connection` accepts.
unfoldable pub run_thread : (String → Bool) → Relay → Relay
run_thread valid r =
    let s = (init (record { uri = ""; is_connected = false }) r.ws_url).0 in
    let r' = record r { running = true; socket = some s } in
    if valid s.uri then output r' (connect_to s.uri) else r'

-- `QThread::start` does nothing to a thread that runs.
unfoldable pub start : (String → Bool) → Relay → Relay
start valid r = if r.running then r else run_thread valid r

-- `ConnectWS`.
unfoldable pub connect_ws : (String → Bool) → Relay → String → String → Relay
connect_ws valid r url login = start valid (record r { ws_url = url; login_command = login })

-- `close` and `closeByAccident` of the socket, and its reset.
unfoldable pub drop_socket : Relay → Relay
drop_socket r =
    let r' = record r { socket = none } in
    elim r.socket [ none ↦ r | some s ↦ if s.is_connected then output r' close_socket else r' ]

-- `DisconnectWS` up to the end of the thread, and the rest, in which the socket is closed and destroyed: its
-- destructor stops websocketpp and waits for its thread, so that no callback comes afterwards.
unfoldable pub begin_disconnect : Relay → Relay
begin_disconnect r = record r { active_disconnect = true; running = false }

unfoldable pub disconnect_ws : Relay → Relay
disconnect_ws r = drop_socket (begin_disconnect r)

-- `AccidentalTermination`.
unfoldable pub accidental_termination : (String → Bool) → Relay → Relay
accidental_termination valid r =
    let r' = drop_socket (record r { running = false }) in
    if not r'.active_disconnect then connect_ws valid r' r'.ws_url r'.login_command else r'

-- `WsAppConnection::Send`: the new outputs and the return code. The text is sent in UTF-8, which is
-- taken to be not empty for a text that is not.
unfoldable pub send : Relay → Socket → String → Opcode → Relay × ℤ
send r s msg opcode =
    if not (is_empty msg) && s.is_connected
    then (output r (send_frame opcode msg), pos 0)
    else (r, negsuc 0)

-- `SendCallback`.
unfoldable pub send_callback : Relay → String → Relay
send_callback r msg = elim r.socket [ none ↦ r | some s ↦ (send r s msg text).0 ]

-- `on_open` sets the flag of its socket.
unfoldable pub set_connected : Option Socket → Option Socket
set_connected none = none
set_connected (some s) = some (record s { is_connected = true })

-- `on_open` and `ConnectedCallback`, which clears the flag of the disconnection without a test.
unfoldable pub on_open : Relay → Relay
on_open r = record r { socket = set_connected r.socket; active_disconnect = false }

-- websocketpp has a callback to call only while there is a socket.
unfoldable pub while_socket : Option Socket → Relay → Relay → Relay
while_socket none r called = r
while_socket (some s) r called = called

-- `on_message` and `MessageCallback`.
unfoldable pub on_message : Relay → String → Relay
on_message r msg = elim r.socket [
  | none ↦ r
  | some s ↦ if is_empty msg then r else output r (parse msg)
]

-- `on_close`, `on_failure` and `On_Interrupt`, each with its callback: the flag of the socket stays.
unfoldable pub on_accident : Relay → Relay
on_accident r = elim r.socket [ none ↦ r | some s ↦ record r { pending = suc r.pending } ]

-- `on_ping`: a text in a pong, through `Send`. It returns true, by which websocketpp sends the pong
-- of its own that is not an output here.
unfoldable pub on_ping : Relay → Relay
on_ping r = elim r.socket [ none ↦ r | some s ↦ (send r s "on_ping" pong).0 ]

-- `on_pong`: a ping, without a test of the flag. A failure of `client::send`, which throws, is not
-- modelled.
unfoldable pub on_pong : Relay → Relay
on_pong r = elim r.socket [ none ↦ r | some s ↦ output r (send_frame ping "on_pong") ]

-- The next `AccidentalSignal` reaches its slot.
unfoldable pub deliver : (String → Bool) → ℕ → Relay → Relay
deliver valid zero r = r
deliver valid (suc n) r = accidental_termination valid (record r { pending = n })

-- What happens to the relay, other than calls of `ConnectWS` and `DisconnectWS`.
pub data Event : Type 0 where
  opened accident delivered pinged ponged : Event
  message sending : String → Event

unfoldable pub step : (String → Bool) → Relay → Event → Relay
step valid r opened = while_socket r.socket r (on_open r)
step valid r accident = on_accident r
step valid r delivered = deliver valid r.pending r
step valid r pinged = on_ping r
step valid r ponged = on_pong r
step valid r (message msg) = on_message r msg
step valid r (sending msg) = send_callback r msg

unfoldable pub steps : (String → Bool) → Relay → List Event → Relay
steps valid r [] = r
steps valid r (e ∷ es) = steps valid (step valid r e) es

-- `DisconnectWS` with the calls of websocketpp that come while it runs.
unfoldable pub disconnect_during : (String → Bool) → Relay → List Event → Relay
disconnect_during valid r es = drop_socket (steps valid (begin_disconnect r) es)
