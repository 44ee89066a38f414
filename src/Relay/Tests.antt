-- ===== src/Relay/Tests.antt =====
-- The theorems of the relay connection at concrete inputs.
use push_streamer_client.Prelude.{◌≡◌, refl, Bool, true, false, none, some, [], ◌∷◌, ◌++◌, String}
use push_streamer_client.Relay.{
  Relay, opened, accident, delivered, sending, connect_to, close_socket, send_frame, text, ping,
  pong, pinged, ponged, on_ping, on_pong, new_relay, connect_ws, start, run_thread, init,
  disconnect_during, message, set_connected, while_socket, drop_socket, on_open, on_accident,
  deliver, accidental_termination, send, send_callback, step, steps,
}
use push_streamer_client.Relay.Laws.{
  IsOff, is_other_callback, disconnect_ws-silent, accident_reconnects, open_undoes_disconnect,
}

abbrev accepts : String → Bool
accepts url = true

abbrev connected : Relay
connected = on_open (connect_ws accepts new_relay "ws://relay" "login")

-- An accident, a new connection, and a message on it.
recovers :
    (steps accepts connected
      (sending "a" ∷ accident ∷ delivered ∷ sending "lost" ∷ opened ∷ sending "b" ∷ [])).outputs
    ≡ connect_to "ws://relay"
      ∷ send_frame text "a"
      ∷ close_socket
      ∷ connect_to "ws://relay"
      ∷ send_frame text "b"
      ∷ []
unfolding new_relay connect_ws start run_thread init on_open set_connected while_socket steps step
    send_callback send on_accident deliver accidental_termination drop_socket
recovers = refl

disconnect_ws-silent_example :
    let r = disconnect_during accepts (on_accident connected) (accident ∷ message "late" ∷ []) in
    IsOff (steps accepts r (delivered ∷ opened ∷ sending "x" ∷ []))
    × ((steps accepts r (delivered ∷ opened ∷ sending "x" ∷ [])).outputs ≡ r.outputs)
unfolding is_other_callback
disconnect_ws-silent_example =
    disconnect_ws-silent accepts (on_accident connected) (accident ∷ message "late" ∷ [])
      (delivered ∷ opened ∷ sending "x" ∷ []) (refl, (refl, tt))

-- The first socket has failed twice; the second one opens while the user disconnects.
abbrev failed_twice : Relay
failed_twice =
    steps accepts (connect_ws accepts new_relay "ws://relay" "login")
      (accident ∷ accident ∷ delivered ∷ [])

open_undoes_disconnect_example :
    let r' = disconnect_during accepts failed_twice (opened ∷ []) in
    let r'' = step accepts r' delivered in
    (r'.socket ≡ none)
    × (r''.socket ≡ some (record { uri = "ws://relay"; is_connected = false }))
    × (r''.outputs ≡ r'.outputs ++ connect_to "ws://relay" ∷ [])
    × (r''.running ≡ true)
unfolding new_relay connect_ws start run_thread init steps step on_accident deliver
    accidental_termination drop_socket
open_undoes_disconnect_example =
    open_undoes_disconnect accepts failed_twice
      (record { uri = "ws://relay"; is_connected = false }) 0 refl refl refl refl

accident_reconnects_example :
    let r' = step accepts (step accepts connected accident) delivered in
    (r'.socket ≡ some (record { uri = "ws://relay"; is_connected = false }))
    × (r'.outputs ≡ connect_to "ws://relay" ∷ close_socket ∷ connect_to "ws://relay" ∷ [])
    × (r'.running ≡ true)
    × (r'.pending ≡ 0)
unfolding new_relay connect_ws start run_thread init on_open set_connected while_socket drop_socket
accident_reconnects_example =
    accident_reconnects accepts connected (record { uri = "ws://relay"; is_connected = true }) refl
      refl refl refl

-- A ping gets a pong, and a pong gets the next ping.
answers :
    (steps accepts connected (pinged ∷ ponged ∷ ponged ∷ [])).outputs
    ≡ connect_to "ws://relay"
      ∷ send_frame pong "on_ping"
      ∷ send_frame ping "on_pong"
      ∷ send_frame ping "on_pong"
      ∷ []
unfolding new_relay connect_ws start run_thread init on_open set_connected while_socket steps step
    send on_ping on_pong
answers = refl
