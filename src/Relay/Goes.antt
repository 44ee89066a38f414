-- ===== src/Relay/Goes.antt =====
-- What an event of the relay's connection passes on, while it is not disconnected.
use mathlib.Core.List.{append_assoc, append-nil}
use push_streamer_client.Prelude.{
  ℕ, zero, suc, ◌≡◌, refl, ◌∙◌, ap, sym, subst, Bool, true, false, not, ◌&&◌, none, some, List, [],
  ◌∷◌, ◌++◌, String, if-both, option-both, Bool-cases, inl, inr, arith, if◌then◌else◌,
}
use push_streamer_client.Prelude.Int.{ℤ}
use push_streamer_client.Qt.{is_empty}
use push_streamer_client.Relay.{
  Relay, Socket, Opcode, text, ping, pong, Output, connect_to, send_frame, close_socket, parse,
  Event, opened, accident, delivered, pinged, ponged, message, sending, on_open, set_connected,
  while_socket, on_accident, on_message, on_ping, on_pong, send, send_callback, deliver,
  accidental_termination, drop_socket, connect_ws, start, run_thread, init, step as relay_step,
}

-- The texts that some outputs pass on, and the messages among some events; none is empty.
unfoldable pub passed_texts : List Output → List String
passed_texts [] = []
passed_texts (parse t ∷ os) = if is_empty t then passed_texts os else t ∷ passed_texts os
passed_texts (connect_to t ∷ os) = passed_texts os
passed_texts (send_frame o t ∷ os) = passed_texts os
passed_texts (close_socket ∷ os) = passed_texts os

unfoldable pub text_of_event : Event → List String
text_of_event (message t) = if is_empty t then [] else t ∷ []
text_of_event _ = []

unfoldable pub texts_of_events : List Event → List String
texts_of_events [] = []
texts_of_events (e ∷ es) = text_of_event e ++ texts_of_events es

-- A relay with a socket that was not disconnected.
abbrev pub IsAlive : Relay → Type 0
IsAlive r = ((k : Socket) × (r.socket ≡ some k)) × (r.active_disconnect ≡ false)

-- A relay with more outputs, which pass on some texts.
abbrev pub Passes : Relay → Relay → List String → Type 0
Passes r r' ts = (os : List Output) × (r'.outputs ≡ r.outputs ++ os) × (passed_texts os ≡ ts)

same-Passes : (r r' : Relay) → r'.outputs ≡ r.outputs → Passes r r' []
unfolding passed_texts
same-Passes r r' e = ([], e ∙ sym (append-nil r.outputs), refl)

drop_socket-Passes : (r : Relay) → Passes r (drop_socket r) []
unfolding drop_socket passed_texts
drop_socket-Passes r =
    let gone : Passes r (record r { socket = none }) [] =
      same-Passes r (record r { socket = none }) refl in
    option-both (λ (r' : Relay). Passes r r' []) r.socket _ _ (same-Passes r r refl)
      (λ k.
        if-both (λ (r' : Relay). Passes r r' []) k.is_connected (close_socket ∷ [], refl, refl)
          gone)

drop_socket-flag : (r : Relay) → (drop_socket r).active_disconnect ≡ r.active_disconnect
unfolding drop_socket
drop_socket-flag r = ground arith

drop_socket-running : (r : Relay) → (drop_socket r).running ≡ r.running
unfolding drop_socket
drop_socket-running r = ground arith

-- What an event of a relay leaves, with the texts that it passes on.
abbrev pub GoesOn : Relay → List String → Relay → Type 0
GoesOn r ts r' = Passes r r' ts × IsAlive r'

run_thread-GoesOn :
    (valid : String → Bool) (r : Relay)
    → r.active_disconnect ≡ false
    → GoesOn r [] (run_thread valid r)
unfolding run_thread passed_texts
run_thread-GoesOn valid r a =
    let k = (init (record { uri = ""; is_connected = false }) r.ws_url).0 in
    let alive : ((k' : Socket) × (some k ≡ some k')) × (r.active_disconnect ≡ false) =
      ((k, refl), a) in
    if-both (GoesOn r []) (valid k.uri) ((connect_to k.uri ∷ [], refl, refl), alive)
      (same-Passes r (record r { running = true; socket = some k }) refl, alive)

restart :
    (valid : String → Bool) (r : Relay)
    → r.running ≡ false
    → connect_ws valid r r.ws_url r.login_command ≡ run_thread valid r
unfolding connect_ws start run_thread
restart valid r n = simp (start, n)

passed_texts-append :
    (os ps : List Output) → passed_texts (os ++ ps) ≡ passed_texts os ++ passed_texts ps
unfolding passed_texts
passed_texts-append [] ps = refl
passed_texts-append (connect_to t ∷ os) ps = passed_texts-append os ps
passed_texts-append (send_frame o t ∷ os) ps = passed_texts-append os ps
passed_texts-append (close_socket ∷ os) ps = passed_texts-append os ps
passed_texts-append (parse t ∷ os) ps = ground (arith, passed_texts-append os ps)

Passes-trans :
    (r r' r'' : Relay) (ts : List String) → Passes r r' [] → Passes r' r'' ts → Passes r r'' ts
Passes-trans r r' r'' ts (os, e, f) (os', e', f') = (
  os ++ os',
  e' ∙ ap (λ us. us ++ os') e ∙ append_assoc r.outputs os os',
  passed_texts-append os os' ∙ ap (λ us. us ++ passed_texts os') f ∙ f',
)

accident-GoesOn :
    (valid : String → Bool) (r : Relay)
    → r.active_disconnect ≡ false
    → GoesOn r [] (accidental_termination valid r)
unfolding accidental_termination
accident-GoesOn valid r a =
    let r' = drop_socket (record r { running = false }) in
    let flag = drop_socket-flag (record r { running = false }) ∙ a in
    let (p, alive) = run_thread-GoesOn valid r' flag in
    let went : GoesOn r [] (run_thread valid r') = (
      Passes-trans r r' (run_thread valid r') [] (drop_socket-Passes (record r { running = false }))
          p,
      alive,
    ) in
    subst
      (λ (b : Bool).
        GoesOn r [] (if not b then connect_ws valid r' r'.ws_url r'.login_command else r'))
      (sym flag)
      (subst (GoesOn r [])
        (sym (restart valid r' (drop_socket-running (record r { running = false })))) went)

deliver-GoesOn :
    (valid : String → Bool) (n : ℕ) (r : Relay) → IsAlive r → GoesOn r [] (deliver valid n r)
unfolding deliver
deliver-GoesOn valid zero r h = (same-Passes r r refl, h)
deliver-GoesOn valid (suc n) r h = accident-GoesOn valid (record r { pending = n }) h.1

send-GoesOn :
    (r : Relay) (k : Socket) (t : String) (o : Opcode) → IsAlive r → GoesOn r [] (send r k t o).0
unfolding send passed_texts
send-GoesOn r k t o h =
    if-both (λ (x : Relay × ℤ). GoesOn r [] x.0) (not (is_empty t) && k.is_connected)
      ((send_frame o t ∷ [], refl, refl), h) (same-Passes r r refl, h)

message-GoesOn :
    (r : Relay) (t : String) → IsAlive r → GoesOn r (text_of_event (message t)) (on_message r t)
unfolding on_message text_of_event passed_texts
message-GoesOn r t ((k, e), a) = elim (Bool-cases (is_empty t)) [
  | inl m ↦ rw (on_message, e, m) (same-Passes r r refl, ((k, e), a))
  | inr m ↦ rw (on_message, e, m) ((parse t ∷ [], refl, rw m refl), ((k, e), a))
]

pub step-GoesOn :
    (valid : String → Bool) (r : Relay) (e : Event)
    → IsAlive r
    → GoesOn r (text_of_event e) (relay_step valid r e)
unfolding relay_step text_of_event on_open set_connected while_socket on_accident on_message on_ping
    on_pong send_callback passed_texts
step-GoesOn valid r delivered h = deliver-GoesOn valid r.pending r h
step-GoesOn valid r opened ((k, e), a) =
    let next : Relay = record r {
      socket = some (record k { is_connected = true });
      active_disconnect = false;
    } in
    rw e (same-Passes r next refl, ((record k { is_connected = true }, refl), refl))
step-GoesOn valid r accident h =
    option-both (GoesOn r []) r.socket _ _ (same-Passes r r refl, h)
      (λ k. (same-Passes r (record r { pending = suc r.pending }) refl, h))
step-GoesOn valid r pinged h =
    option-both (GoesOn r []) r.socket _ _ (same-Passes r r refl, h)
      (λ k. send-GoesOn r k "on_ping" pong h)
step-GoesOn valid r ponged h =
    option-both (GoesOn r []) r.socket _ _ (same-Passes r r refl, h)
      (λ k. ((send_frame ping "on_pong" ∷ [], refl, refl), h))
step-GoesOn valid r (sending t) h =
    option-both (GoesOn r []) r.socket _ _ (same-Passes r r refl, h) (λ k. send-GoesOn r k t text h)
step-GoesOn valid r (message t) h = message-GoesOn r t h
