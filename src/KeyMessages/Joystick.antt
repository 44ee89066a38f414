-- ===== src/KeyMessages/Joystick.antt =====
-- cloudstreamer.cpp: the joystick messages of the class `KeyBoardThread` (`DealTheJoystick`), with the
-- scaling of the axes (`JoystickParseMode`, `GetPercentInRange`, `GetIntegerFromFloat`).
use push_streamer_client.Prelude.{ℕ, Bool, not, ◌&&◌, List, String, if◌then◌else◌}
use push_streamer_client.Prelude.Int.{ℤ, pos, eq_ℤ}
use push_streamer_client.Qt.{Qt}
use push_streamer_client.Device.{joystick_ctrl}
use push_streamer_client.Keymap.Direction.{Floats}
use push_streamer_client.Keymap.Range.{clamp}
use push_streamer_client.Session.{Run, done, ◌>>=◌}
use push_streamer_client.Buttons.{joystick_buttons}
use push_streamer_client.KeyMessages.{Reader, Control, must, call, axis}

-- The arithmetic of the axes on floating-point numbers.
pub record Scale (fl : Floats) : Type 0 where
  pub minus_one : fl.F
  pub one : fl.F
  -- the share of the second argument to the third that the first has reached: `(v - l) / (r - l)`
  pub share : fl.F → fl.F → fl.F → fl.F
  -- `* 32737`
  pub stretch : fl.F → fl.F
  -- the whole part by `modf`, and whether the part after the point is 0.5 or more
  pub whole : fl.F → fl.F
  pub is_half : fl.F → Bool
  pub add_one : fl.F → fl.F
  -- the conversion to `int`
  pub to_int : fl.F → ℤ

-- What the handler reads that it has not set: the byte of the hat, the bytes of the new array, and
-- what a shift by a count out of range gives.
pub record Junk : Type 0 where
  pub hat_byte : ℕ
  pub fresh : List ℕ
  pub odd : ℕ → ℕ

-- The six axes of a message.
pub record Axes (fl : Floats) : Type 0 where
  pub x : fl.F
  pub y : fl.F
  pub z : fl.F
  pub rx : fl.F
  pub ry : fl.F
  pub rz : fl.F

module _ (fl : Floats) (sc : Scale fl) where
  -- `GetPercentInRange`.
  unfoldable pub get_percent_in_range : fl.F → fl.F → fl.F → fl.F
  get_percent_in_range v l r = sc.share (clamp fl v l r) l r

  -- `GetIntegerFromFloat`.
  unfoldable pub get_integer_from_float : fl.F → fl.F
  get_integer_from_float v = if sc.is_half v then sc.add_one (sc.whole v) else sc.whole v

  unfoldable pub scale_axis : fl.F → fl.F
  scale_axis v = get_integer_from_float (sc.stretch (get_percent_in_range v sc.minus_one sc.one))

  -- `JoystickParseMode1`.
  unfoldable pub joystick_parse_mode1 : Axes fl → Axes fl
  joystick_parse_mode1 a = record {
    x = scale_axis a.x;
    y = scale_axis a.y;
    z = scale_axis a.z;
    rx = scale_axis a.rx;
    ry = scale_axis a.ry;
    rz = scale_axis a.rz;
  }

  -- `JoystickParseMode`.
  unfoldable pub joystick_parse_mode : ℤ → Axes fl → Axes fl
  joystick_parse_mode mode a = if eq_ℤ mode (pos 1) then joystick_parse_mode1 a else a

module _ (qt : Qt) (fl : Floats) (rd : Reader fl) (sc : Scale fl) where
  open rd use {Value, get}

  -- A member that is a number, 0 if it is missing.
  unfoldable pub number_of : Value → String → Run ℤ
  number_of v name =
      let n = must qt fl rd (rd.int (get v name)) in if rd.is_member v name then n else done (pos 0)

  -- The member "buttons", "" if it is missing.
  unfoldable pub text_of : Value → String → Run String
  text_of v name =
      let t = must qt fl rd (rd.string (get v name)) in if rd.is_member v name then t else done ""

  unfoldable pub axes_of : Value → Run (Axes fl)
  axes_of k = do
    x ← axis qt fl rd k "x"
    y ← axis qt fl rd k "y"
    z ← axis qt fl rd k "z"
    rx ← axis qt fl rd k "rx"
    ry ← axis qt fl rd k "ry"
    rz ← axis qt fl rd k "rz"
    done (record { x = x; y = y; z = z; rx = rx; ry = ry; rz = rz })

  -- The call of `JoystickCtrl`.
  unfoldable pub send_joystick : Junk → Control qt fl → Axes fl → ℤ → ℤ → ℤ → List ℕ → Control qt fl
  send_joystick junk s a slider dial wheel btn = call qt fl rd s (
      joystick_ctrl (record {
        x = sc.to_int a.x;
        y = sc.to_int a.y;
        z = sc.to_int a.z;
        rx = sc.to_int a.rx;
        ry = sc.to_int a.ry;
        rz = sc.to_int a.rz;
        slider = slider;
        dial = dial;
        wheel = wheel;
        hat = junk.hat_byte;
        buttons = btn;
      }))

  -- The body of `DealTheJoystick` for a key that is an object. The member "hat" is read, and not
  -- used. A write outside of the array ends the handler.
  unfoldable pub deal_joystick_key : Junk → Control qt fl → Value → Value → Run (Control qt fl)
  deal_joystick_key junk s root k = do
    a ← axes_of k
    slider ← number_of k "slider"
    dial ← number_of k "dial"
    wheel ← number_of k "wheel"
    hat ← number_of k "hat"
    buttons ← text_of k "buttons"
    mode ← number_of root "mode"
    btn ← must qt fl rd (joystick_buttons qt junk.odd buttons junk.fresh)
    done (send_joystick junk s (joystick_parse_mode fl sc mode a) slider dial wheel btn)

  -- `DealTheJoystick`.
  unfoldable pub deal_the_joystick : Junk → Control qt fl → Value → Run (Control qt fl)
  deal_the_joystick junk s root =
      let k = get root "key" in
      let sent = deal_joystick_key junk s root k in
      if rd.is_member root "key" && (not (rd.empty k) && rd.is_object k) then sent else done s
