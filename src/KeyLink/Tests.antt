-- ===== src/KeyLink/Tests.antt =====
-- The connection of `KeyBoardThread` in cloudstreamer.cpp at concrete inputs.
use push_streamer_client.Prelude.{◌≡◌, refl, Bool, true, false, some, [], ◌∷◌, ◌++◌, String}
use push_streamer_client.Relay.{init}
use push_streamer_client.KeyLink.{
  Link, new_link, start_key_ping_timer, stop_key_ping_timer, close_websocket, start_web_socket,
  run_thread, start_thread, open_device, start, stop, send_on, on_open, on_key_ping_timer, step,
  steps, starts, stops, opened, accident, reconnects, ping_time, connect_to, send_text, send_ping,
  key_ping, key_mouse_init, key_mouse_close, close_socket,
}
use push_streamer_client.KeyLink.Pings.{pings, stopped_never_pings}
use push_streamer_client.KeyLink.Laws.{accident-login}

abbrev any : String → Bool
any url = true

-- A link that was started and is connected.
abbrev connected : Link
connected = steps any (new_link "d1") (starts false "ws" "login" ∷ opened ∷ [])

connected_outputs :
    (step any connected ping_time).outputs
    ≡ key_mouse_init ∷ connect_to "ws" ∷ send_text "login" ∷ key_ping ∷ send_ping "d1" ∷ []
unfolding steps step new_link start open_device start_key_ping_timer stop_key_ping_timer
    start_thread run_thread close_websocket start_web_socket init on_open on_key_ping_timer send_on
connected_outputs = refl

-- The second start has no timer.
restarted_outputs :
    (steps any connected (stops ∷ starts false "ws" "login" ∷ opened ∷ ping_time ∷ [])).outputs
    ≡ key_mouse_init
      ∷ connect_to "ws"
      ∷ send_text "login"
      ∷ key_mouse_close
      ∷ close_socket
      ∷ key_mouse_init
      ∷ connect_to "ws"
      ∷ send_text "login"
      ∷ []
unfolding steps step new_link start stop open_device start_key_ping_timer stop_key_ping_timer
    start_thread run_thread close_websocket start_web_socket init on_open on_key_ping_timer send_on
restarted_outputs = refl

stopped_never_pings_example :
    pings (steps any (stop connected) (starts false "ws" "login" ∷ opened ∷ ping_time ∷ [])).outputs
    ≡ pings connected.outputs
unfolding steps step new_link start open_device start_key_ping_timer stop_key_ping_timer
    start_thread run_thread close_websocket start_web_socket init on_open
stopped_never_pings_example =
    stopped_never_pings any connected (starts false "ws" "login" ∷ opened ∷ ping_time ∷ []) refl
      refl

accident-login_test :
    let r = steps any connected (accident ∷ reconnects ∷ opened ∷ []) in
    (r.socket ≡ some (record { uri = "ws"; is_connected = true }))
    × (r.outputs ≡ (close_websocket connected).outputs ++ connect_to "ws" ∷ send_text "login" ∷ [])
unfolding steps step new_link start open_device start_key_ping_timer stop_key_ping_timer
    start_thread run_thread start_web_socket init on_open close_websocket
accident-login_test =
    accident-login any connected (record { uri = "ws"; is_connected = true }) refl refl refl refl
