-- ===== src/KeyMessages/JoystickTests.antt =====
-- The theorems of the joystick messages and of `MessageCallback` of cloudstreamer.cpp at concrete inputs: a message with the
-- hat 5 and the buttons 1, 2 and 12.
use push_streamer_client.Prelude.{
  ◌%◌, ◌+◌, ◌^◌, ◌≡◌, refl, true, some, none, [], ◌∷◌, replicate, ltb, if◌then◌else◌, arith,
}
use push_streamer_client.Prelude.Int.{pos}
use push_streamer_client.Qt.Example.{split, to_int}
use push_streamer_client.Device.{JoystickReport, joystick_ctrl}
use push_streamer_client.Session.{done}
use push_streamer_client.Buttons.{replace_all_distinct, replace_from, starts_with, chars, values_of}
use push_streamer_client.Buttons.Pressed.{is_pressed, listed}
use push_streamer_client.KeyMessages.{call}
use push_streamer_client.KeyMessages.Joystick.{Scale, Junk, deal_the_joystick}
use push_streamer_client.KeyMessages.Dispatch.{
  is_game_window_active, raises_window, message_callback, message_callbacks,
}
use push_streamer_client.KeyMessages.JoystickLaws.{IsJoystick, deal_the_joystick-call}
use push_streamer_client.KeyMessages.Tests.{
  whole, qt, fresh, rd, Value, nested, num, str, get, find_leaf, is_there_in, is_object, empty,
  is_member, int, string,
}

abbrev scale : Scale whole
scale = record {
  minus_one = pos 0;
  one = pos 1;
  share = λ v l r. v;
  stretch = λ v. v;
  whole = λ v. v;
  is_half = λ v. true;
  add_one = λ v. v;
  to_int = λ v. v;
}

abbrev junk : Junk
junk = record { hat_byte = 204; fresh = replicate 16 205; odd = λ p. 2 ^ ((p + 31) % 32) }

abbrev message : Value
message = nested [] (("hat", num (pos 5)) ∷ ("buttons", str "1, 2, 12") ∷ [])

message-IsJoystick : IsJoystick qt whole rd message (pos 5) "1, 2, 12"
unfolding get find_leaf int string is_member is_there_in is_object empty
message-IsJoystick = record {
  has_key = refl;
  not_empty = refl;
  object = refl;
  no_x = refl;
  no_y = refl;
  no_z = refl;
  no_rx = refl;
  no_ry = refl;
  no_rz = refl;
  no_slider = refl;
  no_dial = refl;
  no_wheel = refl;
  has_hat = refl;
  hat_is = refl;
  has_buttons = refl;
  buttons_is = refl;
  no_mode = refl;
}

deal_the_joystick-call_example :
    (r : JoystickReport) × (deal_the_joystick qt whole rd scale junk fresh message
      ≡ done (call qt whole rd fresh (joystick_ctrl r)))
    × (r.hat ≡ 204)
    × (is_pressed r.buttons 2
        ≡ (if ltb 2 8 then listed 1 2 (1 ∷ 2 ∷ 12 ∷ []) else listed 16 2 (1 ∷ 2 ∷ 12 ∷ [])))
unfolding values_of replace_all_distinct replace_from starts_with chars split to_int
deal_the_joystick-call_example =
    deal_the_joystick-call qt whole rd scale junk fresh message (pos 5) "1, 2, 12" (1 ∷ 2 ∷ 12 ∷ [])
      2 message-IsJoystick refl (ground arith) refl (ground arith) (ground arith)

-- No window, and another window: the message is not handled, and the second one raises the game's.
behind :
    message_callbacks qt whole rd scale junk 7 fresh
      (record { front = none; text = "{}" } ∷ record { front = some 3; text = "{}" } ∷ [])
    ≡ done (fresh, 7 ∷ [])
unfolding is_game_window_active raises_window message_callback message_callbacks
behind = refl
