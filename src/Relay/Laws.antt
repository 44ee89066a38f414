-- ===== src/Relay/Laws.antt =====
-- The theorems of the relay connection: when it connects again, and when it is silent.
use push_streamer_client.Prelude.{
  ℕ, zero, suc, ◌≡◌, refl, ◌∙◌, sym, subst, ap, ap₂, All, Bool, true, false, none, some, List, [],
  ◌∷◌, ◌++◌, String, arith,
}
use push_streamer_client.Qt.{is_empty}
use push_streamer_client.Relay.{
  Relay, Socket, Event, opened, accident, delivered, pinged, ponged, message, sending, connect_to,
  init, start, run_thread, connect_ws, drop_socket, begin_disconnect, disconnect_ws,
  disconnect_during, set_connected, while_socket, send, accidental_termination, send_callback,
  on_ping, on_pong, on_open, on_message, on_accident, deliver, step, steps,
}

-- An active disconnection: no socket, no thread, and the flag set.
abbrev pub IsOff : Relay → Type 0
IsOff r = (r.active_disconnect ≡ true) × (r.running ≡ false) × (r.socket ≡ none)

pub disconnect_ws-IsOff : (r : Relay) → IsOff (disconnect_ws r)
unfolding disconnect_ws drop_socket begin_disconnect
disconnect_ws-IsOff r = ground arith

deliver-IsOff :
    (valid : String → Bool) (n : ℕ) (r : Relay)
    → IsOff r
    → IsOff (deliver valid n r) × ((deliver valid n r).outputs ≡ r.outputs)
unfolding deliver accidental_termination drop_socket
deliver-IsOff valid zero r h = (h, refl)
deliver-IsOff valid (suc n) r h = ground arith

-- One event of a relay that is off: it stays off and outputs nothing.
pub step-IsOff :
    (valid : String → Bool) (r : Relay) (e : Event)
    → IsOff r
    → IsOff (step valid r e) × ((step valid r e).outputs ≡ r.outputs)
unfolding step on_open set_connected while_socket on_accident on_message send_callback on_ping
    on_pong
step-IsOff valid r opened h = ground arith
step-IsOff valid r accident h = ground arith
step-IsOff valid r delivered h = deliver-IsOff valid r.pending r h
step-IsOff valid r pinged h = ground arith
step-IsOff valid r ponged h = ground arith
step-IsOff valid r (message msg) h = ground arith
step-IsOff valid r (sending msg) h = ground arith

steps-IsOff :
    (valid : String → Bool) (es : List Event) (r : Relay)
    → IsOff r
    → IsOff (steps valid r es) × ((steps valid r es).outputs ≡ r.outputs)
unfolding steps
steps-IsOff valid [] r h = (h, refl)
steps-IsOff valid (e ∷ es) r h =
    let (h', o) = step-IsOff valid r e h in
    let (h'', o') = steps-IsOff valid es (step valid r e) h' in (h'', o' ∙ o)

-- A callback of websocketpp other than `on_open`: the slots of the thread are not called while
-- `DisconnectWS` runs, which is in their thread.
unfoldable pub is_other_callback : Event → Bool
is_other_callback accident = true
is_other_callback pinged = true
is_other_callback ponged = true
is_other_callback (message m) = true
is_other_callback _ = false

-- The thread has ended, and the flag is set.
abbrev IsEnding : Relay → Type 0
IsEnding r = (r.active_disconnect ≡ true) × (r.running ≡ false)

callback-IsEnding :
    (valid : String → Bool) (r : Relay) (e : Event)
    → is_other_callback e ≡ true
    → IsEnding r
    → IsEnding (step valid r e)
unfolding step is_other_callback on_accident on_message on_ping on_pong send
callback-IsEnding valid r accident o h = ground arith
callback-IsEnding valid r pinged o h = ground arith
callback-IsEnding valid r ponged o h = ground arith
callback-IsEnding valid r (message m) o h = ground arith
callback-IsEnding valid r opened o h = ground arith
callback-IsEnding valid r delivered o h = ground arith
callback-IsEnding valid r (sending m) o h = ground arith

callbacks-IsEnding :
    (valid : String → Bool) (es : List Event) (r : Relay)
    → All (λ e. is_other_callback e ≡ true) es
    → IsEnding r
    → IsEnding (steps valid r es)
unfolding steps
callbacks-IsEnding valid [] r o h = h
callbacks-IsEnding valid (e ∷ es) r o h =
    callbacks-IsEnding valid es (step valid r e) o.1 (callback-IsEnding valid r e o.0 h)

drop-IsOff : (r : Relay) → IsEnding r → IsOff (drop_socket r)
unfolding drop_socket
drop-IsOff r h = ground arith

-- `DisconnectWS`, with any callbacks of websocketpp but `on_open` while it runs. After it, no sequence of
-- events, late accidents included, makes the relay connect again, send or pass on a message, until
-- `ConnectWS` is called.
pub disconnect_ws-silent :
    (valid : String → Bool) (r : Relay) (during after : List Event)
    → All (λ e. is_other_callback e ≡ true) during
    → let r' = disconnect_during valid r during in
      IsOff (steps valid r' after) × ((steps valid r' after).outputs ≡ r'.outputs)
unfolding disconnect_during begin_disconnect
disconnect_ws-silent valid r during after o =
    steps-IsOff valid after (disconnect_during valid r during)
      (drop-IsOff _ (callbacks-IsEnding valid during (begin_disconnect r) o (refl, refl)))

on_accident-pending :
    (r : Relay) (s : Socket)
    → r.socket ≡ some s
    → on_accident r ≡ record r { pending = suc r.pending }
unfolding on_accident
on_accident-pending r s e = ground arith

accident_step :
    (valid : String → Bool) (r : Relay) (s : Socket)
    → r.socket ≡ some s
    → step valid (step valid r accident) delivered ≡ accidental_termination valid r
unfolding step deliver
accident_step valid r s e = ap (λ x. deliver valid x.pending x) (on_accident-pending r s e)

reconnected :
    (valid : String → Bool) (r : Relay)
    → r.active_disconnect ≡ false
    → is_empty r.ws_url ≡ false
    → valid r.ws_url ≡ true
    → let r' = accidental_termination valid r in
      (r'.socket ≡ some (record { uri = r.ws_url; is_connected = false }))
      × (r'.outputs ≡ (drop_socket r).outputs ++ connect_to r.ws_url ∷ [])
      × (r'.running ≡ true)
      × (r'.pending ≡ r.pending)
unfolding accidental_termination drop_socket connect_ws start run_thread init
reconnected valid r a u v = ground arith

-- An accident of a relay that was not disconnected actively: when its signal is delivered, the relay
-- has a new socket, not yet connected, to the url it had, and asked for the connection; the url is
-- one that `get_connection` accepts.
pub accident_reconnects :
    (valid : String → Bool) (r : Relay) (s : Socket)
    → r.socket ≡ some s
    → r.active_disconnect ≡ false
    → is_empty r.ws_url ≡ false
    → valid r.ws_url ≡ true
    → let r' = step valid (step valid r accident) delivered in
      (r'.socket ≡ some (record { uri = r.ws_url; is_connected = false }))
      × (r'.outputs ≡ (drop_socket r).outputs ++ connect_to r.ws_url ∷ [])
      × (r'.running ≡ true)
      × (r'.pending ≡ r.pending)
accident_reconnects valid r s e a u v =
    subst
      (λ r'.
        (r'.socket ≡ some (record { uri = r.ws_url; is_connected = false }))
        × (r'.outputs ≡ (drop_socket r).outputs ++ connect_to r.ws_url ∷ [])
        × (r'.running ≡ true)
        × (r'.pending ≡ r.pending))
      (sym (accident_step valid r s e)) (reconnected valid r a u v)

dropped :
    (r : Relay) (s : Socket)
    → r.socket ≡ some s
    → let r' = drop_socket r in
      (r'.active_disconnect ≡ r.active_disconnect)
      × (r'.pending ≡ r.pending)
      × (r'.ws_url ≡ r.ws_url)
      × (r'.socket ≡ none)
unfolding drop_socket
dropped r s e = ground arith

outputs_dropped : (r : Relay) → r.socket ≡ none → (drop_socket r).outputs ≡ r.outputs
unfolding drop_socket
outputs_dropped r e = ground arith

deliver-first :
    (valid : String → Bool) (r : Relay) (n : ℕ)
    → r.pending ≡ suc n
    → step valid r delivered ≡ accidental_termination valid (record r { pending = n })
unfolding step deliver
deliver-first valid r n e = ap (λ k. deliver valid k r) e

opened_during :
    (valid : String → Bool) (r : Relay) (s : Socket)
    → r.socket ≡ some s
    → disconnect_during valid r (opened ∷ [])
      ≡ drop_socket (record r {
        active_disconnect = false;
        running = false;
        socket = some (record s { is_connected = true });
      })
unfolding disconnect_during steps step while_socket on_open set_connected begin_disconnect
opened_during valid r s e =
    ap
      (λ k. drop_socket (
        while_socket k (begin_disconnect r)
          (record (begin_disconnect r) { socket = set_connected k; active_disconnect = false })))
      e

-- `DisconnectWS` of a relay with a socket, while the signal of an earlier accident waits to be
-- delivered, and the socket opens while `DisconnectWS` runs: `ConnectedCallback` clears the flag that
-- `DisconnectWS` has set, and when the signal is delivered the relay connects again, to the url
-- that it had, although it was disconnected. The url is one that `get_connection` accepts.
pub open_undoes_disconnect :
    (valid : String → Bool) (r : Relay) (s : Socket) (n : ℕ)
    → r.socket ≡ some s
    → r.pending ≡ suc n
    → is_empty r.ws_url ≡ false
    → valid r.ws_url ≡ true
    → let r' = disconnect_during valid r (opened ∷ []) in
      let r'' = step valid r' delivered in
      (r'.socket ≡ none)
      × (r''.socket ≡ some (record { uri = r.ws_url; is_connected = false }))
      × (r''.outputs ≡ r'.outputs ++ connect_to r.ws_url ∷ [])
      × (r''.running ≡ true)
open_undoes_disconnect valid r s n e p u v =
    let open' : Relay = record r {
      active_disconnect = false;
      running = false;
      socket = some (record s { is_connected = true });
    } in
    let x = drop_socket open' in
    let (a, q, w, g) = dropped open' (record s { is_connected = true }) refl in
    let y : Relay = record x { pending = n } in
    let (k, o, t, _) = reconnected valid y a (ap is_empty w ∙ u) (ap valid w ∙ v) in
    subst
      (λ r'.
        (r'.socket ≡ none)
        × ((step valid r' delivered).socket
            ≡ some (record { uri = r.ws_url; is_connected = false }))
        × ((step valid r' delivered).outputs ≡ r'.outputs ++ connect_to r.ws_url ∷ [])
        × ((step valid r' delivered).running ≡ true))
      (sym (opened_during valid r s e))
      (subst
        (λ r''.
          (x.socket ≡ none)
          × (r''.socket ≡ some (record { uri = r.ws_url; is_connected = false }))
          × (r''.outputs ≡ x.outputs ++ connect_to r.ws_url ∷ [])
          × (r''.running ≡ true))
        (sym (deliver-first valid x n (q ∙ p)))
        (
          g,
          k ∙ ap (λ url. some (record { uri = url; is_connected = false })) w,
          o ∙ ap₂ (λ os url. os ++ connect_to url ∷ []) (outputs_dropped y g) w,
          t,
        ))
