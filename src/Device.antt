-- ===== src/Device.antt =====
-- The calls of the virtual device that the program makes (cloudGame/include/CloudGame.h), and
-- consumerkeyboardvalue.h with the callbacks of keyvaluetransformt.cpp: a callback is data here,
-- and what it does is the list of the calls that it makes.
use push_streamer_client.Prelude.{ℕ, Bool, ◌&&◌, not, List, [], ◌∷◌, if◌then◌else◌}
use push_streamer_client.Prelude.Int.{ℤ, pos, eq_ℤ}

-- The arguments of `JoystickCtrl`.
pub record JoystickReport : Type 0 where
  pub x : ℤ
  pub y : ℤ
  pub z : ℤ
  pub rx : ℤ
  pub ry : ℤ
  pub rz : ℤ
  pub slider : ℤ
  pub dial : ℤ
  pub wheel : ℤ
  pub hat : ℕ
  pub buttons : List ℕ

-- The functions of CloudGame.h that move keys, mouse and joystick, and `NSSleep`.
pub data DeviceCall : Type 0 where
  key_down key_up : ℤ → DeviceCall
  mouse_move mouse_up mouse_down : ℤ → ℤ → ℤ → DeviceCall
  joystick_ctrl : JoystickReport → DeviceCall
  ns_sleep : ℕ → DeviceCall

-- The callbacks that keyvaluetransformt.cpp builds.
pub data Callback : Type 0 where
  -- of `ReverseBounce` and `DirectionAllUp`
  direct_up : ℤ → Callback
  -- of `ConvertXYDirection`
  direct_down : ℤ → Callback
  -- of `KeyDown_C` and `KeyUP_C`
  press release : ℤ → Callback
  -- of `MouseMove_C`, `MouseUp_C` and `MouseDown_C`
  move_to button_up button_down : ℤ → ℤ → ℤ → Callback

-- `1 != key && 2 != key && 3 != key`: the key is no mouse button.
unfoldable pub is_key : ℤ → Bool
is_key k = not (eq_ℤ k (pos 1)) && (not (eq_ℤ k (pos 2)) && not (eq_ℤ k (pos 3)))

abbrev pub key_value_delay : ℕ
key_value_delay = 20

-- A call that is repeated once, after a pause, if it fails.
abbrev pub retry : DeviceCall → Bool → List DeviceCall
retry c ok = c ∷ (if ok then ns_sleep 1 ∷ [] else ns_sleep key_value_delay ∷ c ∷ [])

-- A key press that is repeated after a release if it fails.
abbrev pub retry_down : ℤ → Bool → List DeviceCall
retry_down k ok = key_down k ∷ (if ok then ns_sleep 1 ∷ [] else key_up k ∷ key_down k ∷ [])

-- The calls that a callback makes, given the result of its first call.
unfoldable pub run_callback : Callback → Bool → List DeviceCall
unfolding is_key
run_callback (direct_up k) ok = retry (key_up k) ok
run_callback (direct_down k) ok = retry_down k ok
run_callback (press k) ok =
    if is_key k then retry_down k ok else retry (mouse_down (pos 16383) (pos 16383) k) ok
run_callback (release k) ok =
    if is_key k then retry (key_up k) ok else retry (mouse_up (pos 16383) (pos 16383) (pos 0)) ok
run_callback (move_to x y c) ok = retry (mouse_move x y c) ok
run_callback (button_up x y c) ok = retry (mouse_up x y c) ok
run_callback (button_down x y c) ok = retry (mouse_down x y c) ok
