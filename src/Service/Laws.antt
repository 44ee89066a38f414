-- ===== src/Service/Laws.antt =====
-- The theorems of wsservicecloudgame.cpp: which messages reach what is bound to the service.
use push_streamer_client.Prelude.{
  ◌≡◌, refl, ◌∙◌, sym, ap, subst, Bool, true, false, some, List, [], ◌∷◌, ◌++◌, length, map, All,
  String, arith,
}
use push_streamer_client.Qt.{is_empty}
use push_streamer_client.Relay.{
  Relay, Socket, Output, Event, message, parse, on_message, step as relay_step,
}
use push_streamer_client.Relay.Laws.{IsOff, disconnect_ws-IsOff, step-IsOff}
use push_streamer_client.Service.{
  Receiver, drop, Service, service_disconnect, service_parse, pass_on, service_step, service_steps,
}

drop-length : (os : List Output) → drop (length os) os ≡ []
unfolding drop
drop-length [] = refl
drop-length (o ∷ os) = drop-length os

pub drop-append : (os ps : List Output) → drop (length os) (os ++ ps) ≡ ps
unfolding drop
drop-append [] ps = refl
drop-append (o ∷ os) ps = drop-append os ps

pub relay_message :
    (valid : String → Bool) (r : Relay) (k : Socket) (text : String)
    → r.socket ≡ some k
    → is_empty text ≡ false
    → ((relay_step valid r (message text)).socket ≡ some k)
      × ((relay_step valid r (message text)).outputs ≡ r.outputs ++ parse text ∷ [])
unfolding relay_step on_message
relay_message valid r k text e h = ground arith

module _ (rc : Receiver) where
  -- An event of a relay that is off.
  service_step-IsOff :
      (valid : String → Bool) (s : Service rc) (e : Event)
      → IsOff s.relay
      → IsOff (service_step rc valid s e).relay
        × ((service_step rc valid s e).receiver ≡ s.receiver)
  unfolding service_step pass_on
  service_step-IsOff valid s e h =
      let (off, same) = step-IsOff valid s.relay e h in
      let s' : Service rc = record s { relay = relay_step valid s.relay e } in
      subst (λ os. IsOff (pass_on rc s' os).relay × ((pass_on rc s' os).receiver ≡ s.receiver))
        (sym (ap (drop (length s.relay.outputs)) same ∙ drop-length s.relay.outputs)) (off, refl)

  service_steps-IsOff :
      (valid : String → Bool) (es : List Event) (s : Service rc)
      → IsOff s.relay
      → (service_steps rc valid s es).receiver ≡ s.receiver
  unfolding service_steps
  service_steps-IsOff valid [] s h = refl
  service_steps-IsOff valid (e ∷ es) s h =
      let (off, same) = service_step-IsOff valid s e h in
      service_steps-IsOff valid es (service_step rc valid s e) off ∙ same

  -- After `DisconnectWS` of the service, no sequence of events of the connection, late messages included,
  -- reaches what is bound to the service.
  pub disconnect-unreached :
      (valid : String → Bool) (s : Service rc) (es : List Event)
      → (service_steps rc valid (service_disconnect rc s) es).receiver ≡ s.receiver
  unfolding service_disconnect
  disconnect-unreached valid s es =
      service_steps-IsOff valid es (service_disconnect rc s) (disconnect_ws-IsOff s.relay)

  -- The receiver after some messages, in their order.
  unfoldable pub receive_all : rc.State → List String → rc.State
  receive_all t [] = t
  receive_all t (m ∷ ms) = receive_all (rc.receive t m) ms

  -- A service with a receiver, and a relay with a socket.
  abbrev pub IsOpen : Service rc → Socket → Type 0
  IsOpen s k = (s.relay.socket ≡ some k) × (s.bound ≡ true)

  pub service_parse-open :
      (s : Service rc) (text : String)
      → s.bound ≡ true
      → is_empty text ≡ false
      → service_parse rc s text ≡ record s { receiver = rc.receive s.receiver text }
  unfolding service_parse
  service_parse-open s text b h = ground arith

  pub message-IsOpen :
      (valid : String → Bool) (s : Service rc) (k : Socket) (text : String)
      → IsOpen s k
      → is_empty text ≡ false
      → IsOpen (service_step rc valid s (message text)) k
        × ((service_step rc valid s (message text)).receiver ≡ rc.receive s.receiver text)
  unfolding service_step pass_on
  message-IsOpen valid s k text (e, b) h =
      let (socket, outputs) = relay_message valid s.relay k text e h in
      let s' : Service rc = record s { relay = relay_step valid s.relay (message text) } in
      let P : Service rc → Type 0 = λ x. IsOpen x k × (x.receiver ≡ rc.receive s.receiver text) in
      subst (λ os. P (pass_on rc s' os))
        (sym (
          ap (drop (length s.relay.outputs)) outputs
          ∙ drop-append s.relay.outputs (parse text ∷ [])))
        (subst P (sym (service_parse-open s' text b h)) ((socket, b), refl))

  -- While the connection has a socket and a receiver is bound, messages that are not empty reach the
  -- receiver, each once and in their order.
  pub messages-received :
      (valid : String → Bool) (texts : List String) (s : Service rc) (k : Socket)
      → s.relay.socket ≡ some k
      → s.bound ≡ true
      → All (λ t. is_empty t ≡ false) texts
      → (service_steps rc valid s (map message texts)).receiver ≡ receive_all s.receiver texts
  unfolding service_steps receive_all
  messages-received valid [] s k e b h = refl
  messages-received valid (t ∷ ts) s k e b h =
      let ((e', b'), same) = message-IsOpen valid s k t (e, b) h.0 in
      messages-received valid ts (service_step rc valid s (message t)) k e' b' h.1
      ∙ ap (λ x. receive_all x ts) same
