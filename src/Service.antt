-- ===== src/Service.antt =====
-- wsservicecloudgame.cpp: the class `WSCloudGameService`, which passes the calls of the program on to the
-- thread of the relay connection, and the messages of the relay server on to what is bound to it: in
-- the program the session, by the signal `ParseMessage`.
pub mod Laws
pub mod Heard
mod Tests
use push_streamer_client.Prelude.{
  ℕ, zero, suc, ◌≡◌, refl, Bool, true, false, Option, none, some, List, [], ◌∷◌, length, String,
  if◌then◌else◌,
}
use push_streamer_client.Qt.{Qt, is_empty}
use push_streamer_client.Relay.{
  Relay, Output, connect_to, send_frame, close_socket, parse, Event, new_relay, connect_ws,
  disconnect_ws, send_callback, step as relay_step,
}
use push_streamer_client.Session.{Run, done, ◌>>=◌, World, Session}
use push_streamer_client.Session.Messages.{Json}
use push_streamer_client.Session.Dispatch.{handle_message}

-- What is bound to the service: a state, and what a message does to it.
pub record Receiver : Type 1 where
  pub State : Type 0
  pub receive : State → String → State

-- The session as a receiver: messages that come after a wait without an end, or an assertion, are
-- lost.
abbrev pub session_receiver : (qt : Qt) → World → Json → ℕ → Receiver
session_receiver qt w js n = record {
  State = Run (Session qt);
  receive = λ r msg. r >>= λ s. handle_message qt w js n s msg;
}

-- The new part of a list that has grown.
unfoldable pub drop : ℕ → List Output → List Output
drop zero os = os
drop (suc n) [] = []
drop (suc n) (o ∷ os) = drop n os

module _ (rc : Receiver) where
  -- `WSCloudGameService`; `bound` says that `m_cloudGameIterator` is not null.
  pub record Service : Type 0 where
    pub relay : Relay
    pub bound : Bool
    pub receiver : rc.State

  -- `WSCloudGameService`, with what is to be bound to it.
  unfoldable pub new_service : rc.State → Service
  new_service t = record { relay = new_relay; bound = false; receiver = t }

  -- `BindOutter`.
  unfoldable pub bind_outter : Service → Service
  bind_outter s = record s { bound = true }

  -- `ConnectWS` and `DisconnectWS`; both return 0.
  unfoldable pub service_connect : (String → Bool) → Service → String → String → Service
  service_connect valid s url login = record s { relay = connect_ws valid s.relay url login }

  unfoldable pub service_disconnect : Service → Service
  service_disconnect s = record s { relay = disconnect_ws s.relay }

  -- `Parse`.
  unfoldable pub service_parse : Service → String → Service
  service_parse s text =
      if is_empty text
      then s
      else if s.bound
      then record s { receiver = rc.receive s.receiver text }
      else s

  -- The signals `Parse` among some outputs of the thread.
  unfoldable pub pass_on : Service → List Output → Service
  pass_on s [] = s
  pass_on s (parse text ∷ os) = pass_on (service_parse s text) os
  pass_on s (connect_to t ∷ os) = pass_on s os
  pass_on s (send_frame o t ∷ os) = pass_on s os
  pass_on s (close_socket ∷ os) = pass_on s os

  -- An event of the relay connection.
  unfoldable pub service_step : (String → Bool) → Service → Event → Service
  service_step valid s e =
      let r = relay_step valid s.relay e in
      pass_on (record s { relay = r }) (drop (length s.relay.outputs) r.outputs)

  unfoldable pub service_steps : (String → Bool) → Service → List Event → Service
  service_steps valid s [] = s
  service_steps valid s (e ∷ es) = service_steps valid (service_step valid s e) es
