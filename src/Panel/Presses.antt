-- ===== src/Panel/Presses.antt =====
-- cloudstreamer.cpp: the buttons of the window of the class `CloudStreamer`, and its exit. What they do is
-- effects of Session. Conversions of texts for the calls keep the text.
use push_streamer_client.Prelude.{Bool, true, ◌||◌, none, List, [], ◌∷◌, str_append, if◌then◌else◌}
use push_streamer_client.Qt.{Qt, is_empty}
use push_streamer_client.Session.{
  World, Session, KeyBoardThread, UiMode, set_log_path, download, start_script, close_push, push,
  emit, tick,
}
use push_streamer_client.Session.Config.{get_value_by_game_id}
use push_streamer_client.Session.Process.{kill_game_by_name}
use push_streamer_client.Session.Actions.{drop_keyboard, start_thread}
use push_streamer_client.Session.Callbacks.{stops_stream, stops_keyboard}
use push_streamer_client.Panel.{Panel, Form, set_ui_model}
use push_streamer_client.Panel.Files.{quit_force}

-- What the user does to the window: the buttons 2, 3, 6 and 7, comboBox_4 and actionExit.
pub data Press : Type 0 where
  start_button stop_button game_button download_button exit_chosen : Press
  mode_chosen : UiMode → Press

module _ (qt : Qt) (w : World) where
  -- The calls of `push` of the first button.
  unfoldable pub push_form : Form → Session qt → Session qt
  push_form f s = tick qt (
      emit qt s (
        push f.room_name f.push_server f.push_domain (
          qt.to_int f.framerate
          ∷ qt.to_int f.bitrate
          ∷ qt.to_int f.deadline
          ∷ qt.to_int f.cpuused
          ∷ qt.to_int f.screen_width
          ∷ qt.to_int f.screen_height
          ∷ f.mode
          ∷ f.capmode
          ∷ f.vol
          ∷ [])))

  abbrev pub close_form : Form → Session qt → Session qt
  close_form f s = tick qt (emit qt s (close_push f.room_name f.push_server))

  -- The stream of the first button: an old one is closed, whatever the result, and a new one is
  -- opened; whether that succeeds.
  unfoldable pub start_stream : Form → Session qt → Session qt × Bool
  start_stream f s = let s' = close_form f s in (push_form f s', w.push_ok s'.now)

  -- The keyboard thread of the first button, without a device number, a pid or key files.
  unfoldable pub form_thread : Form → KeyBoardThread
  form_thread f = record {
    device_number = "";
    game_pid = 0;
    key_paths = none;
    ws_url =
        str_append "wss://" (str_append f.key_host (str_append ":" (str_append f.key_port "/wss")));
    login_command = f.login_command;
  }

  -- The part of `on_pushButton_2_clicked` after the stream.
  unfoldable pub start_keys : Panel qt → Session qt → Panel qt
  start_keys p s =
      let s' =
        if stops_keyboard s.mode
        then start_thread qt w (drop_keyboard qt w s) (form_thread p.form)
        else s in
      record p { session = s'; label = "start!" }

  -- `on_pushButton_2_clicked`: start.
  unfoldable pub on_push_button_2 : Panel qt → Panel qt
  on_push_button_2 p =
      let s = emit qt p.session (set_log_path (qt.to_local p.log_path)) in
      let (s', ok) = start_stream p.form s in
      if stops_stream s.mode
      then if ok then start_keys p s' else record p { session = s' }
      else start_keys p s

  -- `on_pushButton_3_clicked`: stop.
  unfoldable pub on_push_button_3 : Panel qt → Panel qt
  on_push_button_3 p =
      let s = if stops_stream p.session.mode then close_form p.form p.session else p.session in
      let s' = if stops_keyboard p.session.mode then drop_keyboard qt w s else s in
      record p { session = s'; label = "stop!" }

  -- `on_pushButton_6_clicked`: start a game.
  unfoldable pub on_push_button_6 : Panel qt → Panel qt
  on_push_button_6 p =
      let f = p.form in
      let params = if is_empty f.game_params then "123" else f.game_params in
      if is_empty f.game_path
      then p
      else record p { session = emit qt p.session (start_script f.game_path params) }

  -- `on_pushButton_7_clicked`: download a file. The result of `wfile` is only logged.
  unfoldable pub on_push_button_7 : Panel qt → Panel qt
  on_push_button_7 p =
      let f = p.form in
      if is_empty f.file_url || is_empty f.save_path
      then p
      else record p { session = emit qt p.session (download f.file_url f.save_path) }

  -- The kill of the session's game in `OnExit`.
  unfoldable pub kill_on_exit : Session qt → Session qt
  kill_on_exit s =
      let (s', name) = get_value_by_game_id qt s s.game_id "gameExeName" in
      if is_empty name then s' else kill_game_by_name qt w s' name

  -- `OnExit`; it returns 0.
  unfoldable pub on_exit : Panel qt → Panel qt
  on_exit p =
      let p' = quit_force qt p true in
      on_push_button_3 (record p' { session = kill_on_exit p'.session })

  unfoldable pub press : Panel qt → Press → Panel qt
  press p start_button = on_push_button_2 p
  press p stop_button = on_push_button_3 p
  press p game_button = on_push_button_6 p
  press p download_button = on_push_button_7 p
  press p (mode_chosen m) = set_ui_model qt p m
  press p exit_chosen = on_exit p

  unfoldable pub presses : Panel qt → List Press → Panel qt
  presses p [] = p
  presses p (b ∷ bs) = presses (press p b) bs
