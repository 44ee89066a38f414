-- ===== src/KeyLink/Pings.antt =====
-- When the timer of `KeyBoardThread` in cloudstreamer.cpp pings.
use push_streamer_client.Prelude.{
  ℕ, zero, suc, ◌+◌, ◌≡◌, refl, ◌∙◌, sym, subst, Bool, true, false, List, [], ◌∷◌, ◌++◌, String,
  arith, if◌then◌else◌, if-both, ◌||◌,
}
use push_streamer_client.Qt.{is_empty}
use push_streamer_client.Relay.{init}
use push_streamer_client.KeyLink.{
  Link, LinkOutput, LinkEvent, send_ping, send_text, connect_to, handle, close_socket,
  key_mouse_close, key_mouse_init, key_ping, put_output, start_key_ping_timer, stop_key_ping_timer,
  close_websocket, start_web_socket, run_thread, start_thread, open_device, start, stop, reconnect,
  on_open, on_accident, on_reconnect, on_key_ping_timer, on_message, step, steps, starts, stops,
  opened, accident, reconnects, ping_time, message,
}

-- A call of `KeyPing`, or the message of a ping.
unfoldable pub is_ping : LinkOutput → ℕ
is_ping key_ping = 1
is_ping (send_ping d) = 1
is_ping _ = 0

unfoldable pub pings : List LinkOutput → ℕ
pings [] = 0
pings (o ∷ os) = is_ping o + pings os

-- The timer was started once and is stopped.
abbrev pub IsMute : Link → Type 0
IsMute l = (l.ping_timer ≡ true) × (l.pinging ≡ false)

-- The link pings no more than another one.
abbrev pub Silent : Link → Link → Type 0
Silent r l = IsMute r × (pings r.outputs ≡ pings l.outputs)

pings-append :
    (os : List LinkOutput) (o : LinkOutput) → is_ping o ≡ 0 → pings (os ++ o ∷ []) ≡ pings os
unfolding pings
pings-append [] o e = ground arith
pings-append (p ∷ os) o e = ground (arith, pings-append os o e)

put_output-Silent :
    (r l : Link) (o : LinkOutput) → is_ping o ≡ 0 → Silent r l → Silent (put_output r o) l
put_output-Silent r l o e s = (s.0, pings-append r.outputs o e ∙ s.1)

close_websocket-Silent : (r l : Link) → Silent r l → Silent (close_websocket r) l
unfolding close_websocket is_ping
close_websocket-Silent r l s = ground (arith, pings-append r.outputs close_socket refl)

start_web_socket-Silent :
    (valid : String → Bool) (r l : Link) → Silent r l → Silent (start_web_socket valid r) l
unfolding start_web_socket is_ping
start_web_socket-Silent valid r l s = ground (
  arith,
  pings-append r.outputs
      (connect_to (init (record { uri = ""; is_connected = false }) r.ws_url).0.uri) refl,
)

start_thread-Silent :
    (valid : String → Bool) (r l : Link) → Silent r l → Silent (start_thread valid r) l
unfolding start_thread run_thread
start_thread-Silent valid r l s =
    if-both (λ x. Silent x l) r.running s
      (start_web_socket-Silent valid _ l (close_websocket-Silent (record r { running = true }) l s))

open_device-Silent : (b : Bool) (r l : Link) → Silent r l → Silent (open_device b r) l
unfolding open_device is_ping
open_device-Silent b r l s =
    put_output-Silent (if b then put_output r key_mouse_close else r) l key_mouse_init refl
      (if-both (λ x. Silent x l) b (put_output-Silent r l key_mouse_close refl s) s)

timer-Silent : (r l : Link) → Silent r l → Silent (start_key_ping_timer (stop_key_ping_timer r)) l
unfolding start_key_ping_timer stop_key_ping_timer
timer-Silent r l s = ground arith

start-Silent :
    (valid : String → Bool) (b : Bool) (l : Link) (url login : String)
    → IsMute l
    → Silent (start valid b l url login).0 l
unfolding start
start-Silent valid b l url login m =
    if-both (λ (x : Link × Bool). Silent x.0 l) (is_empty url || is_empty login) (m, refl)
      (start_thread-Silent valid _ l (
        timer-Silent _ l
          (open_device-Silent b (record l { ws_url = url; login_command = login }) l (m, refl))))

stopped-Silent : (l : Link) → Silent (stop_key_ping_timer l) l → Silent (stop l) l
unfolding stop is_ping
stopped-Silent l s =
    let r = put_output (stop_key_ping_timer l) key_mouse_close in
    close_websocket-Silent (record r { running = false }) l
      (put_output-Silent (stop_key_ping_timer l) l key_mouse_close refl s)

stop_timer-Silent : (l : Link) → IsMute l → Silent (stop_key_ping_timer l) l
unfolding stop_key_ping_timer
stop_timer-Silent l m = ground arith

first_stop-Silent :
    (l : Link) → l.ping_timer ≡ true → l.pinging ≡ l.ping_thread → Silent (stop_key_ping_timer l) l
unfolding stop_key_ping_timer
first_stop-Silent l t p = ground arith

on_open-Silent : (l : Link) → IsMute l → Silent (on_open l) l
unfolding on_open is_ping
on_open-Silent l m = ground (arith, pings-append l.outputs (send_text l.login_command) refl)

on_message-Silent : (l : Link) (msg : String) → IsMute l → Silent (on_message l msg) l
unfolding on_message is_ping
on_message-Silent l msg m = ground (arith, pings-append l.outputs (handle msg) refl)

on_reconnect-Silent :
    (valid : String → Bool) (l : Link) (n : ℕ) → IsMute l → Silent (on_reconnect valid l n) l
unfolding on_reconnect reconnect
on_reconnect-Silent valid l zero m = (m, refl)
on_reconnect-Silent valid l (suc n) m =
    start_thread-Silent valid _ l
      (close_websocket-Silent (record l { running = false; pending = n }) l (m, refl))

step-Silent :
    (valid : String → Bool) (l : Link) (e : LinkEvent) → IsMute l → Silent (step valid l e) l
unfolding step on_accident
step-Silent valid l (starts b url login) m = start-Silent valid b l url login m
step-Silent valid l stops m = stopped-Silent l (stop_timer-Silent l m)
step-Silent valid l opened m = on_open-Silent l m
step-Silent valid l accident m = ground arith
step-Silent valid l reconnects m = on_reconnect-Silent valid l l.pending m
step-Silent valid l ping_time m =
    subst (λ b. Silent (if b then on_key_ping_timer l else l) l) (sym m.1) (m, refl)
step-Silent valid l (message msg) m = on_message-Silent l msg m

steps-Silent :
    (valid : String → Bool) (es : List LinkEvent) (l : Link)
    → IsMute l
    → Silent (steps valid l es) l
unfolding steps
steps-Silent valid [] l m = (m, refl)
steps-Silent valid (e ∷ es) l m =
    let (m1, p1) = step-Silent valid l e m in
    let (m2, p2) = steps-Silent valid es (step valid l e) m1 in (m2, p2 ∙ p1)

-- Once a link that had a timer, running if its thread is there, is stopped, no sequence of events, further starts included, makes
-- the timer ping again: `StopKeyPingTImer` keeps the pointer to the old timer, and
-- `StartKeyPingTimer` makes no new one then.
pub stopped_never_pings :
    (valid : String → Bool) (l : Link) (es : List LinkEvent)
    → l.ping_timer ≡ true
    → l.pinging ≡ l.ping_thread
    → pings (steps valid (stop l) es).outputs ≡ pings l.outputs
stopped_never_pings valid l es t p =
    let (m, e) = stopped-Silent l (first_stop-Silent l t p) in
    (steps-Silent valid es (stop l) m).1 ∙ e
