-- ===== src/KeyLink.antt =====
-- cloudstreamer.cpp: the connection of the class `KeyBoardThread` to the server of the player's keys: its
-- start and stop, its socket (websocketconnection.cpp), the thread that connects again after an
-- accident, and the timer that pings. websocketpp and Qt's timers are outside: their calls into the
-- program are events. `run` of the thread is one step here, up to its event loop.
pub mod Laws
pub mod Pings
mod Tests
use push_streamer_client.Prelude.{
  ℕ, zero, suc, ◌≡◌, Bool, true, false, not, ◌&&◌, ◌||◌, Option, none, some, List, [], ◌∷◌, ◌++◌,
  String, if◌then◌else◌,
}
use push_streamer_client.Qt.{is_empty}
use push_streamer_client.Relay.{Socket, init}

-- The calls of websocketpp and of CloudGame.h (`KeyMouseClose`, `KeyMouseInit`, `KeyPing`), and the
-- message of the ping for a device.
pub data LinkOutput : Type 0 where
  connect_to send_text send_ping handle : String → LinkOutput
  close_socket key_mouse_close key_mouse_init key_ping : LinkOutput

-- The fields of `KeyBoardThread`. `running` is `isRunning()`. `ping_timer` and `ping_thread` say that
-- the pointers `m_keyPingTimer` and `m_keyPingThread` are not null, and `pinging` that the timer
-- runs and is connected. `pending` counts the
-- threads of `StartReconnectThread` that have not run.
pub record Link : Type 0 where
  pub ws_url : String
  pub login_command : String
  pub device_number : String
  pub running : Bool
  pub socket : Option Socket
  pub pending : ℕ
  pub ping_timer : Bool
  pub ping_thread : Bool
  pub pinging : Bool
  pub outputs : List LinkOutput

-- The constructor.
unfoldable pub new_link : String → Link
new_link device = record {
  ws_url = "";
  login_command = "";
  device_number = device;
  running = false;
  socket = none;
  pending = 0;
  ping_timer = false;
  ping_thread = false;
  pinging = false;
  outputs = [];
}

abbrev pub put_output : Link → LinkOutput → Link
put_output l o = record l { outputs = l.outputs ++ o ∷ [] }

-- `StartKeyPingTimer`.
unfoldable pub start_key_ping_timer : Link → Link
start_key_ping_timer l =
    if l.ping_timer then l else record l { ping_timer = true; ping_thread = true; pinging = true }

-- `StopKeyPingTImer`: the pointer to the timer is not reset.
unfoldable pub stop_key_ping_timer : Link → Link
stop_key_ping_timer l =
    if l.ping_thread then record l { ping_thread = false; pinging = false } else l

-- `CloseWebsocket`, and the part of `StopAccidental` that closes: `close` and `closeByAccident` of the
-- socket, and its reset: the destructor of the socket ends its thread, so that no handler of it is
-- called later.
unfoldable pub close_websocket : Link → Link
close_websocket l =
    let gone = record l { socket = none } in
    elim l.socket [
      | none ↦ l
      | some s ↦ if s.is_connected then put_output gone close_socket else gone
    ]

-- `StartWebSocket`. `valid` says which uris `get_connection` accepts.
unfoldable pub start_web_socket : (String → Bool) → Link → Link
start_web_socket valid l =
    let s = (init (record { uri = ""; is_connected = false }) l.ws_url).0 in
    let l' = record l { socket = some s } in
    if is_empty l.ws_url then l else if valid s.uri then put_output l' (connect_to s.uri) else l'

-- `run`.
unfoldable pub run_thread : (String → Bool) → Link → Link
run_thread valid l = start_web_socket valid (close_websocket (record l { running = true }))

-- `QThread::start` does nothing to a thread that runs. `StartAccidental` is this call.
unfoldable pub start_thread : (String → Bool) → Link → Link
start_thread valid l = if l.running then l else run_thread valid l

-- The keyboard and the mouse of the device are opened anew. `is_valid` is `KeyMouseIsValid`.
unfoldable pub open_device : Bool → Link → Link
open_device is_valid l =
    put_output (if is_valid then put_output l key_mouse_close else l) key_mouse_init

-- `start`, with its result; the key files are in KeyMessages.
unfoldable pub start : (String → Bool) → Bool → Link → String → String → Link × Bool
start valid is_valid l ws_url login =
    let l1 = open_device is_valid (record l { ws_url = ws_url; login_command = login }) in
    let l2 = start_key_ping_timer (stop_key_ping_timer l1) in
    if is_empty ws_url || is_empty login then (l, false) else (start_thread valid l2, true)

-- `stop`; it returns true.
unfoldable pub stop : Link → Link
stop l =
    close_websocket
      (record (put_output (stop_key_ping_timer l) key_mouse_close) { running = false })

-- `StopAccidental` and `StartAccidental`, in the thread of `StartReconnectThread`.
unfoldable pub reconnect : (String → Bool) → Link → Link
reconnect valid l = start_thread valid (close_websocket (record l { running = false }))

-- `Send` of a text that is not empty.
unfoldable pub send_on : Link → LinkOutput → Link
send_on l o = elim l.socket [ none ↦ l | some s ↦ if s.is_connected then put_output l o else l ]

-- `on_open` and `ConnectedCallback`: the login is sent.
unfoldable pub on_open : Link → Link
on_open l = elim l.socket [
  | none ↦ l
  | some s ↦
      let l' = record l { socket = some (record s { is_connected = true }) } in
      if is_empty l.login_command then l' else put_output l' (send_text l.login_command)
]

-- `DisconnectedCallback`, `FailureCallback` and `InterruptCallback`: the signal is connected directly,
-- and `AccidentalTermination` starts the thread that connects again.
unfoldable pub on_accident : Link → Link
on_accident l = elim l.socket [ none ↦ l | some s ↦ record l { pending = suc l.pending } ]

-- A thread of `StartReconnectThread` runs.
unfoldable pub on_reconnect : (String → Bool) → Link → ℕ → Link
on_reconnect valid l zero = l
on_reconnect valid l (suc n) = reconnect valid (record l { pending = n })

-- `OnKeyPingTimer`.
unfoldable pub on_key_ping_timer : Link → Link
on_key_ping_timer l =
    let l1 = put_output l key_ping in
    if is_empty l.device_number then l1 else send_on l1 (send_ping l.device_number)

-- `on_message` and `MessageCallback`, which is in KeyMessages.
unfoldable pub on_message : Link → String → Link
on_message l msg = elim l.socket [ none ↦ l | some s ↦ put_output l (handle msg) ]

-- What happens to the connection, with the calls of `start` and `stop`.
pub data LinkEvent : Type 0 where
  starts : Bool → String → String → LinkEvent
  stops opened accident reconnects ping_time : LinkEvent
  message : String → LinkEvent

unfoldable pub step : (String → Bool) → Link → LinkEvent → Link
step valid l (starts is_valid ws_url login) = (start valid is_valid l ws_url login).0
step valid l stops = stop l
step valid l opened = on_open l
step valid l accident = on_accident l
step valid l reconnects = on_reconnect valid l l.pending
step valid l ping_time = if l.pinging then on_key_ping_timer l else l
step valid l (message msg) = on_message l msg

unfoldable pub steps : (String → Bool) → Link → List LinkEvent → Link
steps valid l [] = l
steps valid l (e ∷ es) = steps valid (step valid l e) es
