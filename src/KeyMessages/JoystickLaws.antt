-- ===== src/KeyMessages/JoystickLaws.antt =====
-- The theorems of the joystick messages of cloudstreamer.cpp.
use push_streamer_client.Prelude.{
  ℕ, ◌≡◌, refl, true, false, some, List, map, length, String, ltb, if◌then◌else◌,
}
use push_streamer_client.Prelude.Int.{ℤ, pos}
use push_streamer_client.Qt.{Qt}
use push_streamer_client.Device.{JoystickReport, joystick_ctrl}
use push_streamer_client.Keymap.Direction.{Floats}
use push_streamer_client.Session.{done}
use push_streamer_client.Buttons.{values_of}
use push_streamer_client.Buttons.Pressed.{IsButton, AllButtons, AllBytes, is_pressed, listed}
use push_streamer_client.Buttons.Laws.{joystick_buttons-pressed}
use push_streamer_client.KeyMessages.{Reader, Control, call, axis}
use push_streamer_client.KeyMessages.Joystick.{
  Scale, Junk, Axes, joystick_parse_mode, number_of, text_of, axes_of, send_joystick,
  deal_joystick_key, deal_the_joystick,
}

-- Every axis at 0.
abbrev no_axes : (fl : Floats) → Axes fl
no_axes fl = record {
  x = fl.zero;
  y = fl.zero;
  z = fl.zero;
  rx = fl.zero;
  ry = fl.zero;
  rz = fl.zero;
}

module _ (qt : Qt) (fl : Floats) (rd : Reader fl) where
  -- A message of the joystick with its buttons and its hat, no axis and no mode.
  pub record IsJoystick (v : rd.Value) (hat : ℤ) (text : String) : Type 0 where
    pub has_key : rd.is_member v "key" ≡ true
    pub not_empty : rd.empty (rd.get v "key") ≡ false
    pub object : rd.is_object (rd.get v "key") ≡ true
    pub no_x : rd.is_member (rd.get v "key") "x" ≡ false
    pub no_y : rd.is_member (rd.get v "key") "y" ≡ false
    pub no_z : rd.is_member (rd.get v "key") "z" ≡ false
    pub no_rx : rd.is_member (rd.get v "key") "rx" ≡ false
    pub no_ry : rd.is_member (rd.get v "key") "ry" ≡ false
    pub no_rz : rd.is_member (rd.get v "key") "rz" ≡ false
    pub no_slider : rd.is_member (rd.get v "key") "slider" ≡ false
    pub no_dial : rd.is_member (rd.get v "key") "dial" ≡ false
    pub no_wheel : rd.is_member (rd.get v "key") "wheel" ≡ false
    pub has_hat : rd.is_member (rd.get v "key") "hat" ≡ true
    pub hat_is : rd.int (rd.get (rd.get v "key") "hat") ≡ some hat
    pub has_buttons : rd.is_member (rd.get v "key") "buttons" ≡ true
    pub buttons_is : rd.string (rd.get (rd.get v "key") "buttons") ≡ some text
    pub no_mode : rd.is_member v "mode" ≡ false

  module _ (sc : Scale fl) where
    axes_of-none :
        (v : rd.Value) (hat : ℤ) (text : String)
        → IsJoystick v hat text
        → axes_of qt fl rd sc (rd.get v "key") ≡ done (no_axes fl)
    unfolding axes_of axis
    axes_of-none v hat text j = rw (j.no_x, j.no_y, j.no_z, j.no_rx, j.no_ry, j.no_rz) refl

    -- A message of the joystick with its buttons and its hat, no axis and no mode, ends in one call
    -- of `JoystickCtrl`. The hat that is sent is the byte that the handler never sets, whatever
    -- the message says. For a text that lists the numbers of buttons below 128 which are no
    -- multiples of 8, a button from 8 on is pressed if it is one of the first 16 that are listed,
    -- and a button below 8 only if it is the first.
    pub deal_the_joystick-call :
        (junk : Junk) (s : Control qt fl) (v : rd.Value) (hat : ℤ) (text : String) (js : List ℕ)
        (k : ℕ)
        → IsJoystick v hat text
        → values_of qt text ≡ some (map pos js)
        → AllBytes junk.fresh
        → length junk.fresh ≡ 16
        → AllButtons 16 js
        → IsButton 16 k
        → (r : JoystickReport) × (deal_the_joystick qt fl rd sc junk s v
            ≡ done (call qt fl rd s (joystick_ctrl r)))
          × (r.hat ≡ junk.hat_byte)
          × (is_pressed r.buttons k ≡ (if ltb k 8 then listed 1 k js else listed 16 k js))
    unfolding deal_the_joystick deal_joystick_key number_of text_of send_joystick
    deal_the_joystick-call junk s v hat text js k j vs a l h hk =
        let (btn, e, pressed) =
          joystick_buttons-pressed qt junk.odd text js junk.fresh k vs a l h hk in
        let a : Axes fl = joystick_parse_mode fl sc (pos 0) (no_axes fl) in
        let r : JoystickReport = record {
          x = sc.to_int a.x;
          y = sc.to_int a.y;
          z = sc.to_int a.z;
          rx = sc.to_int a.rx;
          ry = sc.to_int a.ry;
          rz = sc.to_int a.rz;
          slider = pos 0;
          dial = pos 0;
          wheel = pos 0;
          hat = junk.hat_byte;
          buttons = btn;
        } in
        (
          r,
          rw
              (
                j.has_key,
                j.not_empty,
                j.object,
                axes_of-none v hat text j,
                j.no_slider,
                j.no_dial,
                j.no_wheel,
                j.has_hat,
                j.hat_is,
                j.has_buttons,
                j.buttons_is,
                j.no_mode,
                e,
              )
              refl,
          refl,
          pressed,
        )
