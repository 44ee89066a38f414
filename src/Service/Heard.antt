-- ===== src/Service/Heard.antt =====
-- What reaches the receiver of wsservicecloudgame.cpp while the connection is opened, lost and made again.
use push_streamer_client.Prelude.{
  ◌≡◌, refl, ◌∙◌, ap, sym, subst, Bool, true, List, [], ◌∷◌, ◌++◌, length, String, Bool-cases, inl,
  inr, arith, if◌then◌else◌,
}
use push_streamer_client.Qt.{is_empty}
use push_streamer_client.Relay.{
  Output, connect_to, send_frame, close_socket, parse, Event, step as relay_step,
}
use push_streamer_client.Service.{
  Receiver, drop, Service, service_parse, pass_on, service_step, service_steps,
}
use push_streamer_client.Service.Laws.{drop-append, receive_all, service_parse-open}
use push_streamer_client.Relay.Goes.{
  passed_texts, text_of_event, texts_of_events, IsAlive, step-GoesOn,
}

module _ (rc : Receiver) where
  receive_all-append :
      (ts us : List String) (x : rc.State)
      → receive_all rc x (ts ++ us) ≡ receive_all rc (receive_all rc x ts) us
  unfolding receive_all
  receive_all-append [] us x = refl
  receive_all-append (t ∷ ts) us x = receive_all-append ts us (rc.receive x t)

  service_parse-empty : (s : Service rc) (t : String) → is_empty t ≡ true → service_parse rc s t ≡ s
  unfolding service_parse
  service_parse-empty s t e = ground arith

  pass_on-received :
      (os : List Output) (s : Service rc)
      → s.bound ≡ true
      → ((pass_on rc s os).relay ≡ s.relay)
        × ((pass_on rc s os).bound ≡ true)
        × ((pass_on rc s os).receiver ≡ receive_all rc s.receiver (passed_texts os))
  unfolding pass_on passed_texts receive_all
  pass_on-received [] s b = (refl, b, refl)
  pass_on-received (connect_to t ∷ os) s b = pass_on-received os s b
  pass_on-received (send_frame o t ∷ os) s b = pass_on-received os s b
  pass_on-received (close_socket ∷ os) s b = pass_on-received os s b
  pass_on-received (parse t ∷ os) s b =
      let P : Service rc → Type 0 = λ x.
        ((pass_on rc x os).relay ≡ s.relay)
        × ((pass_on rc x os).bound ≡ true)
        × ((pass_on rc x os).receiver
            ≡ receive_all rc s.receiver
                (if is_empty t then passed_texts os else t ∷ passed_texts os)) in
      elim (Bool-cases (is_empty t)) [
        | inl e ↦ subst P (sym (service_parse-empty s t e)) (rw e (pass_on-received os s b))
        | inr e ↦
            subst P (sym (service_parse-open rc s t b e))
              (rw e (pass_on-received os (record s { receiver = rc.receive s.receiver t }) b))
      ]

  -- A service with a receiver, whose connection has a socket and was not disconnected.
  abbrev pub IsHearing : Service rc → Type 0
  IsHearing s = IsAlive s.relay × (s.bound ≡ true)

  service_step-heard :
      (valid : String → Bool) (s : Service rc) (e : Event)
      → IsHearing s
      → IsHearing (service_step rc valid s e)
        × ((service_step rc valid s e).receiver ≡ receive_all rc s.receiver (text_of_event e))
  unfolding service_step
  service_step-heard valid s e (alive, b) =
      let ((os, o, t), alive') = step-GoesOn valid s.relay e alive in
      let s' : Service rc = record s { relay = relay_step valid s.relay e } in
      let (relay, bound, receiver) = pass_on-received os s' b in
      subst
        (λ us.
          IsHearing (pass_on rc s' us)
          × ((pass_on rc s' us).receiver ≡ receive_all rc s.receiver (text_of_event e)))
        (sym (ap (drop (length s.relay.outputs)) o ∙ drop-append s.relay.outputs os))
        ((subst IsAlive (sym relay) alive', bound), receiver ∙ ap (receive_all rc s.receiver) t)

  -- The messages among any events of a connection that has a socket and was not disconnected reach the
  -- receiver.
  pub service_steps-heard :
      (valid : String → Bool) (es : List Event) (s : Service rc)
      → IsHearing s
      → (service_steps rc valid s es).receiver ≡ receive_all rc s.receiver (texts_of_events es)
  unfolding service_steps texts_of_events receive_all
  service_steps-heard valid [] s h = refl
  service_steps-heard valid (e ∷ es) s h =
      let (h', same) = service_step-heard valid s e h in
      service_steps-heard valid es (service_step rc valid s e) h'
      ∙ ap (λ x. receive_all rc x (texts_of_events es)) same
      ∙ sym (receive_all-append (text_of_event e) (texts_of_events es) s.receiver)
