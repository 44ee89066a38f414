-- ===== src/KeyMessages.antt =====
-- cloudstreamer.cpp: how the class `KeyBoardThread` handles the key and mouse messages of the
-- player.
pub mod Joystick
pub mod JoystickLaws
pub mod Dispatch
pub mod Laws
mod Tests
mod JoystickTests
use push_streamer_client.Prelude.{
  ℕ, ◌+◌, ◌≡◌, Bool, true, false, not, ◌&&◌, ◌||◌, Option, none, some, List, [], ◌∷◌, ◌++◌, String,
  str_append, str_eq, ltb, if◌then◌else◌,
}
use push_streamer_client.Prelude.Int.{ℤ, pos, negsuc, eq_ℤ, between, is_pos}
use push_streamer_client.Qt.{Qt, is_empty}
use push_streamer_client.Ini.{Ini, to_string, open_file, get_value}
use push_streamer_client.Device.{DeviceCall, key_down, key_up, mouse_move, mouse_up, mouse_down}
use push_streamer_client.Text.{split}
use push_streamer_client.Keymap.{Keymap}
use push_streamer_client.Keymap.Direction.{Floats}
use push_streamer_client.Keymap.Range.{Scaling, convert_mouse}
use push_streamer_client.Keymap.Keys.{key_down_c, key_up_c, mouse_move_c}
use push_streamer_client.Session.{Run, done, aborted, ◌>>=◌}

-- What the handlers use of jsoncpp and of the C library. `none` is a failed assertion.
-- `scaling` is the floating-point arithmetic of `ConvertMouse`.
pub record Reader (fl : Floats) : Type 1 where
  pub Value : Type 0
  pub parse : String → Option Value
  pub get : Value → String → Value
  pub is_member : Value → String → Bool
  pub is_int : Value → Bool
  pub is_string : Value → Bool
  pub is_object : Value → Bool
  -- `empty`: null, or nothing in it
  pub empty : Value → Bool
  -- `asInt`, `asString`, `asDouble`
  pub int : Value → Option ℤ
  pub string : Value → Option String
  pub double : Value → Option fl.F
  pub atoi : String → ℤ
  pub scaling : Scaling fl

-- The fields that the handlers use, and the calls of CloudGame.h so far.
pub record Control (qt : Qt) (fl : Floats) : Type 0 where
  pub ini_parse1 : Ini qt
  pub ini_parse2 : Ini qt
  pub is_upper_key : Bool
  pub key_board_config : Option (Keymap qt fl)
  pub calls : List DeviceCall

-- `IsLeftKeyboardNumberLetter`.
unfoldable pub is_left_keyboard_number_letter : ℤ → Bool
is_left_keyboard_number_letter k = between 65 k 81 || between 0 k 9

-- `keyTemp += 32`, for the digits.
abbrev pub add_32 : ℤ → ℤ
add_32 (pos n) = pos (n + 32)
add_32 (negsuc n) = negsuc n

abbrev pub ini_topic : String
ini_topic = "ValueName"

module _ (qt : Qt) (fl : Floats) (rd : Reader fl) where
  open rd use {Value, get}

  abbrev pub must {ℓ} : {A : Type ℓ} → Option A → Run A
  must none = aborted
  must (some a) = done a

  abbrev pub call : Control qt fl → DeviceCall → Control qt fl
  call s c = record s { calls = s.calls ++ c ∷ [] }

  -- The key of a message: a number, or a text read by `atoi`; 0 for any other value.
  unfoldable pub key_of : Value → Run ℤ
  key_of v =
      let k = get v "key" in
      let read_text = must (rd.string k) >>= λ t. done (rd.atoi t) in
      let read_int = must (rd.int k) in
      if rd.is_string k then read_text else if rd.is_int k then read_int else done (pos 0)

  -- The part of `KeyBoardThread::start` that opens the key files: both calls are on `m_iniParse1`,
  -- the second only if the first succeeds.
  unfoldable pub open_key_files : Control qt fl → Control qt fl
  open_key_files s =
      let (i1, r1) =
        open_file qt s.ini_parse1 (str_append qt.app_dir "/fullKeyboardValueName.ini") in
      let (i2, r2) = open_file qt i1 (str_append qt.app_dir "/fullKeyboardNameValue.ini") in
      if is_empty qt.app_dir
      then s
      else if eq_ℤ r1 (pos 0)
      then record s { ini_parse1 = i2 }
      else record s { ini_parse1 = i1 }

  -- The key that the two files give for a key of the full keyboard; "" if there is none.
  unfoldable pub mapped_key : Control qt fl → ℤ → String
  mapped_key s k =
      let name = to_string (get_value qt s.ini_parse1 ini_topic (qt.number k)) in
      if is_empty name then "" else to_string (get_value qt s.ini_parse2 ini_topic name)

  -- The press of a function key.
  unfoldable pub press_function_key : Control qt fl → ℤ → Control qt fl
  press_function_key s k =
      let text = mapped_key s k in
      let key = qt.to_int text in
      let s1 = if is_pos key then call s (key_down key) else s in
      let s2 = if eq_ℤ key (pos 20) then record s1 { is_upper_key = not s1.is_upper_key } else s1 in
      if is_empty text then s else s2

  -- The press of a key that is sent as it is.
  unfoldable pub press_direct : Control qt fl → ℤ → Control qt fl
  press_direct s k = call s (key_down (if s.is_upper_key && between 0 k 9 then add_32 k else k))

  -- `DealTheFullKeyboardModel`.
  unfoldable pub deal_the_full_keyboard_model : Control qt fl → Value → Run (Control qt fl)
  deal_the_full_keyboard_model s v = do
    ud ← must (rd.int (get v "ud"))
    let pressed = key_of v >>= λ k.
        done (if is_left_keyboard_number_letter k then press_direct s k else press_function_key s k)
    let released = key_of v >>= λ k. done (call s (key_up k))
    if eq_ℤ ud (pos 1) then pressed else if eq_ℤ ud (pos 2) then released else done s

  -- The three parts of a mouse message; a missing part is an access out of bounds.
  unfoldable pub mouse_parts : List String → Run (ℤ × ℤ × ℤ)
  mouse_parts (x ∷ y ∷ k ∷ _) = done (rd.atoi x, rd.atoi y, rd.atoi k)
  mouse_parts _ = aborted

  unfoldable pub mouse_message :
      Control qt fl → Value → (ℤ → ℤ → ℤ → DeviceCall) → Run (Control qt fl)
  mouse_message s v f = do
    t ← must (rd.string (get v "key"))
    (x, y, k) ← mouse_parts (split t "|")
    done (call s (f x y k))

  -- The branches of mode 0 on "ud".
  unfoldable pub deal_ud : Control qt fl → Value → ℤ → Run (Control qt fl)
  deal_ud s v ud =
      let pressed = key_of v >>= λ k. done (call s (key_down k)) in
      let released = key_of v >>= λ k. done (call s (key_up k)) in
      if not (rd.is_member v "key")
      then done s
      else if eq_ℤ ud (pos 1)
      then pressed
      else if eq_ℤ ud (pos 2)
      then released
      else if eq_ℤ ud (pos 4)
      then mouse_message s v mouse_move
      else if eq_ℤ ud (pos 6)
      then mouse_message s v mouse_down
      else if eq_ℤ ud (pos 7)
      then mouse_message s v mouse_up
      else done s

  -- Mode 0 of `DealTheNormalKeyboardModel`: keys and mouse.
  unfoldable pub deal_keys : Control qt fl → Value → Run (Control qt fl)
  deal_keys s v = do ud ← must (rd.int (get v "ud")); deal_ud s v ud

  -- A member that is a coordinate, 0 if it is missing.
  unfoldable pub axis : Value → String → Run fl.F
  axis v name =
      let x = must (rd.double (get v name)) in if rd.is_member v name then x else done fl.zero

  -- The text of the key is read as a string before the branches, and not used.
  unfoldable pub key_text : Value → Run String
  key_text v = let t = must (rd.string (get v "key")) in if rd.is_member v "key" then t else done ""

  -- A press or a release in mode 1: a key of 0 is skipped.
  unfoldable pub gamepad_key :
      Control qt fl
      → Keymap qt fl
      → Value
      → (Keymap qt fl → ℤ → Keymap qt fl × ℤ)
      → Run (Control qt fl)
  gamepad_key s m v f =
      let sent = key_of v >>= λ k.
      done (if eq_ℤ k (pos 0) then s else record s { key_board_config = some (f m k).0 }) in
      if rd.is_member v "key" then sent else done s

  -- The branches of mode 1 on "ud", with a key configuration.
  unfoldable pub gamepad_ud :
      Control qt fl → Keymap qt fl → Value → ℤ → fl.F → fl.F → Run (Control qt fl)
  gamepad_ud s m v ud z rz =
      let (mz, mrz) = convert_mouse fl rd.scaling z rz in
      let moved = (mouse_move_c qt fl m (rd.scaling.to_int mz) (rd.scaling.to_int mrz) (pos 0)).0 in
      if eq_ℤ ud (pos 1)
      then gamepad_key s m v (key_down_c qt fl)
      else if eq_ℤ ud (pos 2)
      then gamepad_key s m v (key_up_c qt fl)
      else if eq_ℤ ud (pos 4)
      then done (record s { key_board_config = some moved })
      else done s

  -- Mode 1 of `DealTheNormalKeyboardModel`: the gamepad as a keyboard.
  unfoldable pub deal_gamepad : Control qt fl → Value → Run (Control qt fl)
  deal_gamepad s v = do
    ud ← must (rd.int (get v "ud"))
    let k = get v "key"
    x ← axis k "x"
    y ← axis k "y"
    z ← axis k "z"
    rz ← axis k "rz"
    t ← key_text k
    elim s.key_board_config [ none ↦ done s | some m ↦ gamepad_ud s m k ud z rz ]

  -- `DealTheNormalKeyboardModel`.
  unfoldable pub deal_the_normal_keyboard_model : Control qt fl → Value → Run (Control qt fl)
  deal_the_normal_keyboard_model s v = do
    mode ← must (rd.int (get v "mode"))
    let keys = deal_keys s v
    let gamepad = deal_gamepad s v
    if eq_ℤ mode (pos 0) then keys else if eq_ℤ mode (pos 1) then gamepad else done s
