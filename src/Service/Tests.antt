-- ===== src/Service/Tests.antt =====
-- The messages that reach what is bound to the service of wsservicecloudgame.cpp, at concrete inputs: a
-- receiver that keeps the messages.
use push_streamer_client.Prelude.{◌≡◌, refl, Bool, true, false, List, [], ◌∷◌, ◌++◌, map, String}
use push_streamer_client.Relay.{
  message, accident, delivered, new_relay, connect_ws, start, run_thread, init,
}
use push_streamer_client.Service.{
  Receiver, Service, new_service, bind_outter, service_connect, service_disconnect, service_steps,
}
use push_streamer_client.Service.Laws.{receive_all, disconnect-unreached, messages-received}

abbrev keeping : Receiver
keeping = record { State = List String; receive = λ ts t. ts ++ t ∷ [] }

abbrev any : String → Bool
any url = true

abbrev bound : Service keeping
bound = service_connect keeping any (bind_outter keeping (new_service keeping [])) "ws" ""

messages-received_example :
    (service_steps keeping any bound (map message ("a" ∷ "b" ∷ []))).receiver ≡ "a" ∷ "b" ∷ []
unfolding receive_all new_service bind_outter service_connect connect_ws start run_thread init
    new_relay
messages-received_example =
    messages-received keeping any ("a" ∷ "b" ∷ []) bound
      (record { uri = "ws"; is_connected = false }) refl refl (refl, (refl, tt))

disconnect-unreached_example :
    (service_steps keeping any
      (service_disconnect keeping bound)
      (message "a" ∷ accident ∷ delivered ∷ message "b" ∷ [])).receiver
    ≡ bound.receiver
disconnect-unreached_example =
    disconnect-unreached keeping any bound (message "a" ∷ accident ∷ delivered ∷ message "b" ∷ [])
