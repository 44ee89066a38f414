-- ===== src/KeyMessages/Dispatch.antt =====
-- cloudstreamer.cpp: `MessageCallback` of the class `KeyBoardThread`, which hands a message of the player to
-- the handler for its type while the window of the game is in front, with `IsGameWindowActive` and
-- `SetGamePid`.
use push_streamer_client.Prelude.{
  ℕ, Bool, false, not, ◌&&◌, Option, none, some, List, [], ◌∷◌, ◌++◌, String, str_eq, ltb, ◌==◌,
  if◌then◌else◌,
}
use push_streamer_client.Qt.{Qt, is_empty}
use push_streamer_client.Keymap.Direction.{Floats}
use push_streamer_client.Session.{Run, done, ◌>>=◌}
use push_streamer_client.KeyMessages.{
  Reader, Control, deal_the_full_keyboard_model, deal_the_normal_keyboard_model,
}
use push_streamer_client.KeyMessages.Joystick.{Scale, Junk, text_of, deal_the_joystick}

-- A message, with the process of the window in front when it comes; `none` is no window.
pub record Arrival : Type 0 where
  pub front : Option ℕ
  pub text : String

-- `SetGamePid`.
unfoldable pub set_pid : ℕ → ℕ → ℕ
set_pid old pid = if ltb 0 pid then pid else old

-- `IsGameWindowActive`, and whether it puts the windows of the game in front.
unfoldable pub is_game_window_active : ℕ → Option ℕ → Bool
is_game_window_active game_pid none = false
is_game_window_active game_pid (some pid) = pid == game_pid && ltb 0 game_pid

unfoldable pub raises_window : ℕ → Option ℕ → Bool
raises_window game_pid none = false
raises_window game_pid (some pid) =
    not (is_game_window_active game_pid (some pid)) && ltb 0 game_pid

module _ (qt : Qt) (fl : Floats) (rd : Reader fl) (sc : Scale fl) where
  -- The chain of tests of the type, "" if it is missing.
  unfoldable pub deal_parsed : Junk → Control qt fl → rd.Value → Run (Control qt fl)
  deal_parsed junk s v = text_of qt fl rd sc v "type" >>= λ t.
      if str_eq t "joystick"
      then deal_the_joystick qt fl rd sc junk s v
      else if str_eq t "keycode"
      then deal_the_full_keyboard_model qt fl rd s v
      else deal_the_normal_keyboard_model qt fl rd s v

  -- `MessageCallback`, with the processes whose windows it puts in front.
  unfoldable pub message_callback :
      Junk → ℕ → Control qt fl → Arrival → Run (Control qt fl × List ℕ)
  message_callback junk game_pid s a =
      let raised : List ℕ = if raises_window game_pid a.front then game_pid ∷ [] else [] in
      let handled : Run (Control qt fl) = elim (rd.parse a.text) [
        | none ↦ done s
        | some v ↦ deal_parsed junk s v
      ] in
      if not (is_game_window_active game_pid a.front)
      then done (s, raised)
      else if is_empty a.text
      then done (s, [])
      else handled >>= λ r. done (r, [])

  -- The messages one after the other.
  unfoldable pub message_callbacks :
      Junk → ℕ → Control qt fl → List Arrival → Run (Control qt fl × List ℕ)
  message_callbacks junk game_pid s [] = done (s, [])
  message_callbacks junk game_pid s (a ∷ as') = do
    (r, raised) ← message_callback junk game_pid s a
    (r', others) ← message_callbacks junk game_pid r as'
    done (r', raised ++ others)
