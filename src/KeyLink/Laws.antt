-- ===== src/KeyLink/Laws.antt =====
-- When the connection of `KeyBoardThread` in cloudstreamer.cpp is made again.
use mathlib.Core.List.{append_assoc}
use push_streamer_client.Prelude.{
  suc, ◌≡◌, ◌∙◌, sym, ap, subst, Bool, true, false, some, List, [], ◌∷◌, ◌++◌, String, arith,
}
use push_streamer_client.Qt.{is_empty}
use push_streamer_client.Relay.{Socket, init}
use push_streamer_client.KeyLink.{
  Link, LinkOutput, connect_to, send_text, close_websocket, start_web_socket, run_thread,
  start_thread, reconnect, on_open, on_accident, on_reconnect, step, steps, opened, accident,
  reconnects,
}

-- A new socket to a url, asked to connect after some outputs.
abbrev pub Connecting : Link → String → List LinkOutput → Type 0
Connecting l url os =
    (l.socket ≡ some (record { uri = url; is_connected = false }))
    × (l.outputs ≡ os ++ connect_to url ∷ [])
    × (l.running ≡ true)

start_web_socket-Connecting :
    (valid : String → Bool) (l : Link)
    → is_empty l.ws_url ≡ false
    → valid l.ws_url ≡ true
    → l.running ≡ true
    → Connecting (start_web_socket valid l) l.ws_url l.outputs
unfolding start_web_socket init
start_web_socket-Connecting valid l u v r = ground arith

-- The thread that connects again, of a link whose socket is closed already or still there.
reconnect-Connecting :
    (valid : String → Bool) (l : Link)
    → is_empty l.ws_url ≡ false
    → valid l.ws_url ≡ true
    → Connecting (reconnect valid l) l.ws_url (close_websocket l).outputs
unfolding reconnect start_thread run_thread close_websocket start_web_socket init
reconnect-Connecting valid l u v = ground arith

on_accident-pending :
    (l : Link) (s : Socket)
    → l.socket ≡ some s
    → on_accident l ≡ record l { pending = suc l.pending }
unfolding on_accident
on_accident-pending l s e = ground arith

reconnect-login :
    (valid : String → Bool) (l : Link) → (reconnect valid l).login_command ≡ l.login_command
unfolding reconnect start_thread run_thread close_websocket start_web_socket
reconnect-login valid l = ground arith

on_open-login :
    (l : Link) (s : Socket)
    → l.socket ≡ some s
    → is_empty l.login_command ≡ false
    → ((on_open l).socket ≡ some (record s { is_connected = true }))
      × ((on_open l).outputs ≡ l.outputs ++ send_text l.login_command ∷ [])
unfolding on_open
on_open-login l s e u = ground arith

-- After an accident of a link with a socket, when the thread that connects again has run and the
-- connection is open: the link has a connected socket to its url, and its outputs after the end of
-- the old socket are the connection and then the login. The url is one that
-- `get_connection` accepts.
pub accident-login :
    (valid : String → Bool) (l : Link) (s : Socket)
    → l.socket ≡ some s
    → is_empty l.ws_url ≡ false
    → is_empty l.login_command ≡ false
    → valid l.ws_url ≡ true
    → let r = steps valid l (accident ∷ reconnects ∷ opened ∷ []) in
      (r.socket ≡ some (record { uri = l.ws_url; is_connected = true }))
      × (r.outputs
          ≡ (close_websocket l).outputs ++ connect_to l.ws_url ∷ send_text l.login_command ∷ [])
unfolding steps step on_reconnect
accident-login valid l s e u g v =
    let r = reconnect valid l in
    let (socket, outputs, _) = reconnect-Connecting valid l u v in
    let login = reconnect-login valid l in
    let (o, p) = on_open-login r _ socket (ap is_empty login ∙ g) in
    subst
      (λ x.
        let r = on_open (on_reconnect valid x x.pending) in
        (r.socket ≡ some (record { uri = l.ws_url; is_connected = true }))
        × (r.outputs
            ≡ (close_websocket l).outputs ++ connect_to l.ws_url ∷ send_text l.login_command ∷ []))
      (sym (on_accident-pending l s e))
      (
        o,
        p
            ∙ ap (λ t. r.outputs ++ send_text t ∷ []) login
            ∙ ap (λ os. os ++ send_text l.login_command ∷ []) outputs
            ∙ append_assoc (close_websocket l).outputs (connect_to l.ws_url ∷ [])
                (send_text l.login_command ∷ []),
      )
