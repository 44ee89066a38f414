-- ===== src/Session/Outgoing/Handshake.antt =====
-- The answer of the relay server to a connection, and the SignIn message that cloudstreamer.cpp and
-- wsservicecloudgamethread.cpp send it back.
use push_streamer_client.Prelude.{
  ℕ, ◌≡◌, refl, arith, true, false, none, some, List, [], ◌∷◌, ◌++◌, String,
}
use push_streamer_client.Qt.{Qt, is_empty}
use push_streamer_client.Relay.{Relay, Socket, text, send_frame, send, send_callback}
use push_streamer_client.Session.{done, World, Session, sign_in}
use push_streamer_client.Session.Messages.{Json}
use push_streamer_client.Session.Number.{generate_random_number}
use push_streamer_client.Session.Dispatch.{
  sign_in_ws_service, dispatch_answer, parse_message_callback,
}
use push_streamer_client.Session.Outgoing.{
  Builder, BuilderLaws, root, sign_in_members, transfer_sign_string, effect_text, send_effect,
}
use push_streamer_client.Session.Outgoing.Signed.{
  Accepted, LocalTexts, SignInData, root-Accepted, sign_in_members-SignInData,
}

-- A text goes out in a frame if the socket is connected.
pub send_callback-connected :
    (r : Relay) (k : Socket) (t : String)
    → r.socket ≡ some k
    → k.is_connected ≡ true
    → is_empty t ≡ false
    → (send_callback r t).outputs ≡ r.outputs ++ send_frame text t ∷ []
unfolding send_callback send
send_callback-connected r k t e c h = ground arith

module _ (qt : Qt) (w : World) (js : Json) (b : Builder js) (sign_key : String) where
  open js use {Value}

  -- The number of the device in its file, or "".
  abbrev pub device_number : String
  device_number = elim w.device_file [ none ↦ "" | some t ↦ t ]

  -- The server's answer: an object with the code "0" and no type.
  pub record IsAnswer (message : String) : Type 0 where
    pub value : Value
    pub parsed : js.parse message ≡ some value
    pub no_type : js.is_member value "type" ≡ false
    pub has_code : js.is_member value "code" ≡ true
    pub code_is : js.as_string (js.get value "code") ≡ some "0"

  answered :
      (s : Session qt) (message : String)
      → IsAnswer message
      → parse_message_callback qt w js s message ≡ done (sign_in_ws_service qt w js s, none)
  unfolding parse_message_callback dispatch_answer
  answered s message a =
      rw (parse_message_callback, a.parsed, a.no_type, dispatch_answer, a.has_code, a.code_is) refl

  -- After the answer of the server the session sends one message, which a connected socket sends as a
  -- text frame, and which a server that knows the key accepts as the SignIn of the device; the
  -- draws of `qrand` are such that `generateRandomNumber` ends.
  pub sign_in-Accepted :
      BuilderLaws js b
      → LocalTexts qt w js b sign_key
      → (s : Session qt) (message : String) (r : Relay) (k : Socket) (draws : List ℕ) (n m ms : ℕ)
      → IsAnswer message
      → r.socket ≡ some k
      → k.is_connected ≡ true
      → generate_random_number draws ≡ some n
      → let v =
          root qt w js b sign_key n ms "SignIn" ""
            (sign_in_members qt w js b sign_key device_number) in
        js.parse (js.write v) ≡ some v
        → is_empty (js.write v) ≡ false
        → (s' : Session qt) × (t : String) × (parse_message_callback qt w js s message
            ≡ done (s', none))
          × (s'.effects ≡ s.effects ++ sign_in device_number ∷ [])
          × (s'.device_no ≡ device_number)
          × ((send_effect qt w js b sign_key r draws m ms s'.session_id
                (sign_in device_number)).outputs
              ≡ r.outputs ++ send_frame text t ∷ [])
          × Accepted qt w js b sign_key t "SignIn" "" (SignInData qt w js b sign_key device_number)
  unfolding sign_in_ws_service send_effect effect_text transfer_sign_string
  sign_in-Accepted laws kept s message r k draws n m ms a e c g p h = (
    sign_in_ws_service qt w js s,
    js.write (
        root qt w js b sign_key n ms "SignIn" ""
          (sign_in_members qt w js b sign_key device_number)),
    answered s message a,
    refl,
    refl,
    rw (send_effect, effect_text, transfer_sign_string, g) (send_callback-connected r k _ e c h),
    root-Accepted qt w js b sign_key laws kept n ms _ "SignIn" "" _ _ p
        (sign_in_members-SignInData qt w js b sign_key laws device_number),
  )
