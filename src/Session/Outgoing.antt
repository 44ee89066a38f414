-- ===== src/Session/Outgoing.antt =====
-- cloudstreamer.cpp: the messages that the session sends to the relay server, as texts:
-- `WSServiceTransferSignString` (SignIn), `WSServiceTransferSignStringEx` (GameReportDeviceState) and
-- `MessageFeedBack` (ReceiveCallback). Each is signed: a hash of the time, the key of the service and a
-- number. The hash is the one of the `World`; `g_signKey`, the time and what `qrand` gives are arguments.
pub mod Signed
pub mod Handshake
pub mod Tests
use push_streamer_client.Prelude.{
  ℕ, ◌≡◌, Bool, true, Option, none, some, List, [], ◌∷◌, ◌++◌, String, str_append, str_eq,
  if◌then◌else◌,
}
use push_streamer_client.Prelude.Int.{ℤ, pos}
use push_streamer_client.Qt.{Qt, is_empty}
use push_streamer_client.Session.{World, Effect, report, feed_back, sign_in}
use push_streamer_client.Session.Messages.{Json}
use push_streamer_client.Session.Number.{generate_random_number}
use push_streamer_client.Relay.{Relay, send_callback}

-- What the messages are built with: the rest of jsoncpp's `Value`, as far as it is used.
pub record Builder (js : Json) : Type 0 where
  pub null : js.Value
  -- The assignment to `value[name]`.
  pub set : js.Value → String → js.Value → js.Value
  -- `Value` of a text and of an `int`.
  pub of_text : String → js.Value
  pub of_int : ℤ → js.Value

-- What the program relies on of jsoncpp: a member that was assigned is read back and no other
-- changes; null takes members, like an object; and a value keeps its text or its number.
pub record BuilderLaws (js : Json) (b : Builder js) : Type 0 where
  pub null_object : js.is_object b.null ≡ true
  pub set_object :
      (v x : js.Value) (k : String) → js.is_object v ≡ true → js.is_object (b.set v k x) ≡ true
  pub get-set :
      (v x : js.Value) (k j : String)
      → js.is_object v ≡ true
      → js.get (b.set v k x) j ≡ (if str_eq k j then x else js.get v j)
  pub text-of_text : (t : String) → js.text (b.of_text t) ≡ some t
  pub number-of_int : (n : ℤ) → js.number (b.of_int n) ≡ some n

-- The assignments to the members of an object, in their order.
unfoldable pub assign : (js : Json) → Builder js → js.Value → List (String × js.Value) → js.Value
assign js b v [] = v
assign js b v ((k, x) ∷ m) = assign js b (b.set v k x) m

module _ (qt : Qt) (w : World) (js : Json) (b : Builder js) (sign_key : String) where
  open js use {Value}
  open qt use {number, to_local}

  -- `toLocal8Bit().data()` as a value.
  abbrev pub local_text : String → Value
  local_text t = b.of_text (to_local t)

  -- The text that is hashed.
  abbrev pub sign_str : String → String → String
  sign_str epoch nonce = str_append (str_append epoch sign_key) nonce

  -- The root of a message: its number and its time, the sign, and what it is about.
  unfoldable pub root : ℕ → ℕ → String → String → List (String × Value) → Value
  root n ms type session members =
      let nonce = number (pos n) in
      let epoch = number (pos ms) in
      assign js b b.null (
        ("noncestr", local_text nonce)
        ∷ ("timestamp", local_text epoch)
        ∷ ("sign", local_text (w.md5 (sign_str epoch nonce)))
        ∷ ("type", b.of_text type)
        ∷ ("sessionId", b.of_text session)
        ∷ ("data", assign js b b.null members)
        ∷ [])

  -- The members of the data.
  abbrev pub sign_in_members : String → List (String × Value)
  sign_in_members device = ("deviceNo", local_text device) ∷ []

  abbrev pub report_members : String → String → ℕ → List (String × Value)
  report_members device game running =
      ("deviceNo", local_text device)
      ∷ ("gameId", b.of_text game)
      ∷ ("status", b.of_int (pos running))
      ∷ ("pushVersion", b.of_text "1.0.1.18")
      ∷ []

  abbrev pub feed_back_members : String → String → String → List (String × Value)
  feed_back_members type code message =
      ("receiveType", b.of_text type)
      ∷ ("resultCode", b.of_text code)
      ∷ ("resultMessage", b.of_text message)
      ∷ []

  -- `WSServiceTransferSignString`, with the device number that it has read; `none` while the loop of
  -- `generateRandomNumber` waits for another number of `qrand`.
  unfoldable pub transfer_sign_string : List ℕ → ℕ → String → Option String
  transfer_sign_string draws ms device = elim (generate_random_number draws) [
    | none ↦ none
    | some n ↦ some (js.write (root n ms "SignIn" "" (sign_in_members device)))
  ]

  -- `WSServiceTransferSignStringEx`, with the status 0 or 1 that it has asked for.
  unfoldable pub transfer_sign_string_ex : ℕ → ℕ → String → String → String → ℕ → String
  transfer_sign_string_ex n ms device session game running =
      js.write (root n ms "GameReportDeviceState" session (report_members device game running))

  -- `MessageFeedBack`: nothing is sent about no type of message.
  unfoldable pub message_feed_back : ℕ → ℕ → String → String → String → String → Option String
  message_feed_back n ms session type code message =
      if is_empty type
      then none
      else some
          (js.write (root n ms "ReceiveCallback" session (feed_back_members type code message)))

  -- The text that an effect sends: `draws` and `n` are numbers of `qrand`, and `session` is
  -- `m_sessionId` at that moment.
  unfoldable pub effect_text : List ℕ → ℕ → ℕ → String → Effect → Option String
  effect_text draws n ms session (sign_in device) = transfer_sign_string draws ms device
  effect_text draws n ms session (report device id game status) =
      some (transfer_sign_string_ex n ms device id game status)
  effect_text draws n ms session (feed_back type code message) =
      message_feed_back n ms session type code message
  effect_text draws n ms session _ = none

  -- The signal `Send` of the session, which `BindOutter` has connected to the slot `SendCallback`.
  unfoldable pub send_effect : Relay → List ℕ → ℕ → ℕ → String → Effect → Relay
  send_effect r draws n ms session e = elim (effect_text draws n ms session e) [
    | none ↦ r
    | some t ↦ send_callback r t
  ]
